-- ===== src/Crypto/Signature/Secrets.antt =====
-- The cache of access secrets in front of the database.
use go_svc_extn.Prelude.{
  ◌≡◌, refl, ap, map, false, none, some, List, [], ◌∷◌, Bytes, is_empty, eq_bytes_iff, Result, ok,
  err, lookup, lookup-insert, lookup-insert_self, arith, Option-cases, inl, inr,
}
use mathlib.Core.Path.{ap₂}
use go_svc_extn.Crypto.Signature.{
  Error, query_failed, Provider, Database, remember, get_access_secret,
}

-- What the database alone would answer.
abbrev pub answer : Database → Bytes → Result Error Bytes
answer db id = elim (db id) [ none ↦ err query_failed | some secret ↦ ok secret ]

-- Every cached secret is not empty, and is the one that the database holds.
abbrev pub Agrees : Database → Provider → Type 0
Agrees db p =
    (id secret : Bytes)
    → lookup id p.access_keys ≡ some secret
    → (db id ≡ some secret) × (is_empty secret ≡ false)

-- Secrets are asked for one after the other, by one provider.
abbrev pub get_all : Database → Provider → List Bytes → List (Result Error Bytes)
get_all db p [] = []
get_all db p (id ∷ ids) = let (r, p') = get_access_secret db p id in r ∷ get_all db p' ids

-- One call, by what the cache and the database hold.
module _ (db : Database) (p : Provider) (id : Bytes) where
  get_access_secret_cached :
      (secret : Bytes)
      → lookup id p.access_keys ≡ some secret
      → get_access_secret db p id ≡ (ok secret, p)
  unfolding get_access_secret
  get_access_secret_cached secret h = rw (h, get_access_secret)

  get_access_secret_failed :
      lookup id p.access_keys ≡ none
      → db id ≡ none
      → get_access_secret db p id ≡ (err query_failed, p)
  unfolding get_access_secret
  get_access_secret_failed h k = rw (h, k, get_access_secret)

  pub get_access_secret_queried :
      (secret : Bytes)
      → lookup id p.access_keys ≡ none
      → db id ≡ some secret
      → get_access_secret db p id ≡ (ok secret, remember id secret p)
  unfolding get_access_secret
  get_access_secret_queried secret h k = rw (h, k, get_access_secret)

remember-Agrees :
    (db : Database) (p : Provider) (id secret : Bytes)
    → Agrees db p
    → db id ≡ some secret
    → Agrees db (remember id secret p)
remember-Agrees db p id secret inv e j found h =
    ground (arith, inv j found, lookup-insert id j secret p.access_keys, eq_bytes_iff id j)

pub get_access_secret-Agrees :
    (db : Database) (p : Provider) (id : Bytes)
    → Agrees db p
    → Agrees db (get_access_secret db p id).1 × ((get_access_secret db p id).0 ≡ answer db id)
get_access_secret-Agrees db p id inv = elim (Option-cases (lookup id p.access_keys)) [
  | inr (secret, cached) ↦
      rw (get_access_secret_cached db p id secret cached, (inv id secret cached).0, answer)
        (inv, refl)
  | inl missing ↦ elim (Option-cases (db id)) [
    | inl failed ↦ rw (get_access_secret_failed db p id missing failed, failed, answer) (inv, refl)
    | inr (secret, found) ↦
        rw (get_access_secret_queried db p id secret missing found, found, answer)
          (remember-Agrees db p id secret inv found, refl)
  ]
]

get_all-Agrees :
    (db : Database) (p : Provider) (ids : List Bytes)
    → Agrees db p
    → get_all db p ids ≡ map (answer db) ids
get_all-Agrees db p [] inv = refl
get_all-Agrees db p (id ∷ ids) inv =
    let (kept, same) = get_access_secret-Agrees db p id inv in
    ap₂ (λ r rs. r ∷ rs) same (get_all-Agrees db (get_access_secret db p id).1 ids kept)

abbrev pub new_provider : Provider
new_provider = record { access_keys = [] }

new_provider-Agrees : (db : Database) → Agrees db new_provider
unfolding lookup
new_provider-Agrees db id secret h = cc

-- Over a database that does not change, a provider made anew answers every sequence of requests,
-- repeated ids included, as the database alone would.
pub get_all-answer :
    (db : Database) (ids : List Bytes) → get_all db new_provider ids ≡ map (answer db) ids
get_all-answer db ids = get_all-Agrees db new_provider ids (new_provider-Agrees db)

-- The provider after calls, each at the state that the database has by then.
abbrev pub after_calls : List (Database × Bytes) → Provider → Provider
after_calls [] p = p
after_calls ((db, id) ∷ calls) p = after_calls calls (get_access_secret db p id).1

lookup-get_access_secret :
    (db : Database) (p : Provider) (id other secret : Bytes)
    → lookup id p.access_keys ≡ some secret
    → lookup id (get_access_secret db p other).1.access_keys ≡ some secret
lookup-get_access_secret db p id other secret h = elim (Option-cases (lookup other p.access_keys)) [
  | inr (s, cached) ↦ rw (get_access_secret_cached db p other s cached) h
  | inl missing ↦ elim (Option-cases (db other)) [
    | inl failed ↦ rw (get_access_secret_failed db p other missing failed) h
    | inr (s, found) ↦
        rw (get_access_secret_queried db p other s missing found)
          (ground (arith, lookup-insert other id s p.access_keys, eq_bytes_iff other id))
  ]
]

lookup-after_calls :
    (calls : List (Database × Bytes)) (p : Provider) (id secret : Bytes)
    → lookup id p.access_keys ≡ some secret
    → lookup id (after_calls calls p).access_keys ≡ some secret
lookup-after_calls [] p id secret h = h
lookup-after_calls ((db, other) ∷ calls) p id secret h =
    lookup-after_calls calls (get_access_secret db p other).1 id secret
      (lookup-get_access_secret db p id other secret h)

lookup-answered :
    (db : Database) (p : Provider) (id secret : Bytes)
    → (get_access_secret db p id).0 ≡ ok secret
    → is_empty secret ≡ false
    → lookup id (get_access_secret db p id).1.access_keys ≡ some secret
unfolding get_access_secret
lookup-answered db p id secret h full = ground (arith, lookup-insert_self id secret p.access_keys)

-- A secret that was once answered, and is not empty, is answered for that id ever after, whatever
-- calls come between and whatever the database holds by then.
pub get_access_secret_kept :
    (before after : Database) (p : Provider) (calls : List (Database × Bytes)) (id secret : Bytes)
    → (get_access_secret before p id).0 ≡ ok secret
    → is_empty secret ≡ false
    → (get_access_secret after (after_calls calls (get_access_secret before p id).1) id).0
      ≡ ok secret
get_access_secret_kept before after p calls id secret h full =
    ap (λ r. r.0)
      (get_access_secret_cached after (after_calls calls (get_access_secret before p id).1) id
        secret
        (lookup-after_calls calls (get_access_secret before p id).1 id secret
          (lookup-answered before p id secret h full)))
