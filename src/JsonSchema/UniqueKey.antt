-- ===== src/JsonSchema/UniqueKey.antt =====
-- When two sets of values get one unique key.
use go_svc_extn.Prelude.{
  ok_injective, ℕ, ◌≡◌, ◌≢◌, refl, sym, ap, ◌∙◌, ◌⊎◌, inl, inr, true, false, List, [], ◌∷◌, Bytes,
  IsBytes, All, Lacks, codes, is_empty, eq_bytes, eq_bytes_iff, Bool-cases, Dict, get, Result, ok,
  err, ◌>>=◌, bind-ok,
}
use mathlib.Core.Path.{subst}
use go_svc_extn.Crypto.Signature.Hex.{hex_injective}
use go_svc_extn.Strings.{split, join}
use go_svc_extn.Strings.Split.{split-join}
use go_svc_extn.JsonSchema.{
  Error, key_not_found, collect_values, hash_strings, generate_unique_key_for_values,
}

abbrev pub comma : ℕ
comma = b','

-- The values that are collected.
abbrev pub values_of : Dict Bytes → List Bytes → List Bytes
values_of values [] = []
values_of values (k ∷ ks) = get k values ∷ values_of values ks

abbrev IsFull : Bytes → Type 0
IsFull s = is_empty s ≡ false

collect_values_empty :
    (values : Dict Bytes) (k : Bytes) (ks : List Bytes)
    → is_empty (get k values) ≡ true
    → collect_values values (k ∷ ks) ≡ err key_not_found
unfolding collect_values
collect_values_empty values k ks h = rw h refl

pub collect_values_full :
    (values : Dict Bytes) (k : Bytes) (ks : List Bytes)
    → is_empty (get k values) ≡ false
    → collect_values values (k ∷ ks) ≡ (collect_values values ks >>= λ vs. ok (get k values ∷ vs))
unfolding collect_values
collect_values_full values k ks h = rw h refl

pub collect_values_nil : (values : Dict Bytes) → collect_values values [] ≡ ok []
unfolding collect_values
collect_values_nil values = refl

err_ok : {x : Error} {b : List Bytes} → ◌≡◌ {A = Result Error (List Bytes)} (err x) (ok b) → ⊥
err_ok e = cc

collected :
    (values : Dict Bytes) (ks : List Bytes) (vs : List Bytes)
    → collect_values values ks ≡ ok vs
    → (vs ≡ values_of values ks) × All IsFull vs
collected values [] vs e =
    let same : [] ≡ vs = ok_injective {E = Error} (unfold collect_values in e) in
    (sym same, subst (All IsFull) same tt)
collected values (k ∷ ks) vs e = elim (Bool-cases (is_empty (get k values))) [
  | inl empty ↦ absurd (err_ok (sym (collect_values_empty values k ks empty) ∙ e))
  | inr full ↦
      (let (rest, read, made) =
          bind-ok (collect_values values ks) _ vs
            (sym (collect_values_full values k ks full) ∙ e) in
        let same : get k values ∷ rest ≡ vs = ok_injective made in
        let (named, filled) = collected values ks rest read in
        (sym same ∙ ap (λ l. get k values ∷ l) named, subst (All IsFull) same (full, filled)))
]

true_ne_false : true ≡ false → ⊥
true_ne_false e = cc

ok_text : {a b : Bytes} → ◌≡◌ {A = Result Error Bytes} (ok a) (ok b) → a ≡ b
ok_text e = cc

join_full : (w : Bytes) (ws : List Bytes) → IsFull w → is_empty (join (w ∷ ws) (codes ",")) ≡ false
unfolding join
join_full w [] h = h
join_full (c ∷ w) (v ∷ ws) h = unfold is_empty in refl
join_full [] (v ∷ ws) h = absurd (unfold is_empty in cc)

join_injective :
    (vs ws : List Bytes)
    → All IsFull vs
    → All IsFull ws
    → All (Lacks comma) vs
    → All (Lacks comma) ws
    → join vs (codes ",") ≡ join ws (codes ",")
    → vs ≡ ws
join_injective [] [] _ _ _ _ e = refl
join_injective [] (w ∷ ws) _ (h, _) _ _ e =
    absurd (true_ne_false (unfold is_empty join in ap is_empty e ∙ join_full w ws h))
join_injective (v ∷ vs) [] (h, _) _ _ _ e =
    absurd (true_ne_false (unfold is_empty join in ap is_empty (sym e) ∙ join_full v vs h))
join_injective (v ∷ vs) (w ∷ ws) _ _ h k e =
    sym (split-join comma v vs h) ∙ ap (λ s. split s comma) e ∙ split-join comma w ws k

-- Two texts with one digest.
abbrev pub Collision : (Bytes → Bytes) → Type 0
Collision sha256 = (s : Bytes) × (t : Bytes) × (s ≢ t) × (sha256 s ≡ sha256 t)

module _ (sha256 : Bytes → Bytes) (digest_bytes : (s : Bytes) → IsBytes (sha256 s)) where
  unique_key-values :
      (values : Dict Bytes) (ks : List Bytes) (u : Bytes)
      → generate_unique_key_for_values sha256 values ks ≡ ok u
      → All IsFull (values_of values ks) × (hash_strings sha256 (values_of values ks) ≡ u)
  unfolding generate_unique_key_for_values
  unique_key-values values ks u e =
      let (vs, read, made) = bind-ok (collect_values values ks) _ u e in
      let (named, filled) = collected values ks vs read in
      (subst (All IsFull) named filled, ap (hash_strings sha256) (sym named) ∙ ok_text made)

  -- Values without commas: a unique key tells the values that it was made of, in their order, or else
  -- two texts are at hand that have one SHA-256 digest. Both keys were made; the digests are bytes.
  pub unique_key_tells :
      (values others : Dict Bytes) (ks js : List Bytes) (u : Bytes)
      → generate_unique_key_for_values sha256 values ks ≡ ok u
      → generate_unique_key_for_values sha256 others js ≡ ok u
      → All (Lacks comma) (values_of values ks)
      → All (Lacks comma) (values_of others js)
      → (values_of values ks ≡ values_of others js) ⊎ Collision sha256
  unique_key_tells values others ks js u e d h k =
      let (full, made) = unique_key-values values ks u e in
      let (other_full, other_made) = unique_key-values others js u d in
      let s = join (values_of values ks) (codes ",") in
      let t = join (values_of others js) (codes ",") in
      let digests : sha256 s ≡ sha256 t =
        hex_injective (sha256 s) (sha256 t) (digest_bytes s) (digest_bytes t)
          (unfold hash_strings in made ∙ sym other_made) in
      elim (Bool-cases (eq_bytes s t)) [
        | inl same ↦ inl (
            join_injective (values_of values ks) (values_of others js) full other_full h k
              ((eq_bytes_iff s t).0 same))
        | inr differ ↦
            inr (s, t, (λ e. true_ne_false (sym ((eq_bytes_iff s t).1 e) ∙ differ)), digests)
      ]
