-- ===== src/Crypto/Signature/Headers.antt =====
-- What `splitKeyValue` reads from a header.
use go_svc_extn.Prelude.{
  ℕ, ◌≡◌, ◌≢◌, refl, ap, ◌∙◌, List, [], ◌∷◌, ◌++◌, map, Bytes, Lacks, All, All-append, Dict, insert,
}
use go_svc_extn.Strings.{join}
use go_svc_extn.Strings.Split.{split-join, cut_at-append}
use go_svc_extn.Crypto.Signature.{add_pair, add_pairs, split_key_value}

-- A pair as a client writes it.
abbrev pub pair_text : ℕ → Bytes × Bytes → Bytes
pair_text kv_sep (k, v) = k ++ kv_sep ∷ v

-- A header as a client writes it.
abbrev pub render : ℕ → ℕ → List (Bytes × Bytes) → Bytes
render pair_sep kv_sep kvs = join (map (pair_text kv_sep) kvs) (pair_sep ∷ [])

-- The pairs entered one after the other, so that the last one counts for its key.
abbrev pub insert_all : List (Bytes × Bytes) → Dict Bytes → Dict Bytes
insert_all [] m = m
insert_all ((k, v) ∷ kvs) m = insert_all kvs (insert k v m)

-- A key lacks both separators, a value the outer one.
abbrev pub IsClean : ℕ → ℕ → Bytes × Bytes → Type 0
IsClean pair_sep kv_sep (k, v) = Lacks pair_sep k × Lacks kv_sep k × Lacks pair_sep v

module _ (pair_sep kv_sep : ℕ) (apart : kv_sep ≢ pair_sep) where
  pair_text-Lacks :
      (kv : Bytes × Bytes) → IsClean pair_sep kv_sep kv → Lacks pair_sep (pair_text kv_sep kv)
  pair_text-Lacks (k, v) (hk, _, hv) = All-append (λ c. c ≢ pair_sep) k (kv_sep ∷ v) hk (apart, hv)

  map-Lacks :
      (kvs : List (Bytes × Bytes))
      → All (IsClean pair_sep kv_sep) kvs
      → All (Lacks pair_sep) (map (pair_text kv_sep) kvs)
  map-Lacks [] _ = tt
  map-Lacks (kv ∷ kvs) (h, hs) = (pair_text-Lacks kv h, map-Lacks kvs hs)

  add_pair-pair_text :
      (k v : Bytes) (m : Dict Bytes)
      → Lacks kv_sep k
      → add_pair kv_sep (pair_text kv_sep (k, v)) m ≡ insert k v m
  unfolding add_pair
  add_pair-pair_text k v m h = rw (cut_at-append kv_sep k v h, add_pair)

  add_pairs-map :
      (kvs : List (Bytes × Bytes)) (m : Dict Bytes)
      → All (IsClean pair_sep kv_sep) kvs
      → add_pairs kv_sep (map (pair_text kv_sep) kvs) m ≡ insert_all kvs m
  unfolding add_pairs
  add_pairs-map [] m _ = refl
  add_pairs-map ((k, v) ∷ kvs) m ((_, hk, _), hs) =
      ap (add_pairs kv_sep (map (pair_text kv_sep) kvs)) (add_pair-pair_text k v m hk)
      ∙ add_pairs-map kvs (insert k v m) hs

  -- A header of one or more pairs, whose keys lack both separators and whose values lack the outer
  -- one, is read as exactly these pairs; of two with one key the later counts.
  pub split_key_value-render :
      (kv : Bytes × Bytes) (kvs : List (Bytes × Bytes))
      → All (IsClean pair_sep kv_sep) (kv ∷ kvs)
      → split_key_value (render pair_sep kv_sep (kv ∷ kvs)) pair_sep kv_sep
        ≡ insert_all (kv ∷ kvs) []
  unfolding split_key_value
  split_key_value-render kv kvs h =
      rw
        (split-join pair_sep (pair_text kv_sep kv) (map (pair_text kv_sep) kvs)
          (map-Lacks (kv ∷ kvs) h))
        (add_pairs-map (kv ∷ kvs) [] h)
