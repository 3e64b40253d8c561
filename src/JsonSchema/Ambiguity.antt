-- ===== src/JsonSchema/Ambiguity.antt =====
-- Different values that get one unique key.
use go_svc_extn.Prelude.{
  eq_bytes_apart, ◌≡◌, ◌≢◌, refl, ap, ◌∙◌, false, [], ◌∷◌, ◌++◌, Bytes, is_empty, eq_bytes_self,
  is_empty-append, lookup, some, Dict, get, ok, append_assoc,
}
use go_svc_extn.Strings.{join}
use go_svc_extn.JsonSchema.{collect_values, hash_strings, generate_unique_key_for_values}
use go_svc_extn.JsonSchema.UniqueKey.{comma, collect_values_full, collect_values_nil}

abbrev pair : Bytes → Bytes → Bytes → Bytes → Dict Bytes
pair j v k w = (j, v) ∷ (k, w) ∷ []

lookup_first : (j v k w : Bytes) → lookup j (pair j v k w) ≡ some v
unfolding lookup
lookup_first j v k w = rw (eq_bytes_self j) refl

get_first : (j v k w : Bytes) → get j (pair j v k w) ≡ v
unfolding get
get_first j v k w = rw (lookup_first j v k w, get) refl

lookup_second : (j v k w : Bytes) → j ≢ k → lookup k (pair j v k w) ≡ some w
unfolding lookup
lookup_second j v k w h = rw (eq_bytes_apart j k h, eq_bytes_self k) refl

get_second : (j v k w : Bytes) → j ≢ k → get k (pair j v k w) ≡ w
unfolding get
get_second j v k w h = rw (lookup_second j v k w h, get) refl

two_collected :
    (j v k w : Bytes)
    → j ≢ k
    → is_empty v ≡ false
    → is_empty w ≡ false
    → collect_values (pair j v k w) (j ∷ k ∷ []) ≡ ok (v ∷ w ∷ [])
two_collected j v k w h fv fw =
    let first = get_first j v k w in
    let second = get_second j v k w h in
    collect_values_full (pair j v k w) j (k ∷ []) (ap is_empty first ∙ fv)
    ∙ rw
        (
          collect_values_full (pair j v k w) k [] (ap is_empty second ∙ fw),
          collect_values_nil (pair j v k w),
          first,
          second,
        )
        refl

-- The texts that are digested are joined by commas, so a comma in a value may as well stand between
-- two values: for keys that differ and texts that are not empty, two sets of values that differ get
-- one unique key, whatever the digest.
unique_key_collides :
    (sha256 : Bytes → Bytes) (j k a b c : Bytes)
    → j ≢ k
    → is_empty a ≡ false
    → is_empty b ≡ false
    → is_empty c ≡ false
    → (u : Bytes) × (generate_unique_key_for_values sha256
          (pair j (a ++ comma ∷ b) k c)
          (j ∷ k ∷ [])
        ≡ ok u)
      × (generate_unique_key_for_values sha256 (pair j a k (b ++ comma ∷ c)) (j ∷ k ∷ []) ≡ ok u)
unfolding generate_unique_key_for_values hash_strings join
unique_key_collides sha256 j k a b c h fa fb fc = (
  hash_strings sha256 (a ∷ b ∷ c ∷ []),
  rw
      (
        two_collected j (a ++ comma ∷ b) k c h (is_empty-append a comma b) fc,
        append_assoc a (comma ∷ b) (comma ∷ c),
      )
      refl,
  rw (two_collected j a k (b ++ comma ∷ c) h fa (is_empty-append b comma c)) refl,
)
