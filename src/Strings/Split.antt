-- ===== src/Strings/Split.antt =====
-- Splitting: what is glued by a separator that the parts lack comes apart again.
use go_svc_extn.Prelude.{
  ℕ, ◌≡◌, refl, ap, ◌∙◌, none, some, List, [], ◌∷◌, ◌++◌, Bytes, Lacks, All, arith, true,
  Option-cases, inl, inr,
}
use go_svc_extn.Strings.{strip_prefix, has_prefix, split, split_double, cut_at, join}

pub split_of_Lacks : (sep : ℕ) (s : Bytes) → Lacks sep s → split s sep ≡ s ∷ []
unfolding split
split_of_Lacks sep [] _ = refl
split_of_Lacks sep (c ∷ s) (h, hs) = ground (arith, split_of_Lacks sep s hs)

pub split-append :
    (sep : ℕ) (s t : Bytes) → Lacks sep s → split (s ++ sep ∷ t) sep ≡ s ∷ split t sep
unfolding split
split-append sep [] t _ = ground arith
split-append sep (c ∷ s) t (h, hs) = ground (arith, split-append sep s t hs)

-- A join by one separator that no part holds is split into its parts.
pub split-join :
    (sep : ℕ) (p : Bytes) (ps : List Bytes)
    → All (Lacks sep) (p ∷ ps)
    → split (join (p ∷ ps) (sep ∷ [])) sep ≡ p ∷ ps
unfolding join
split-join sep p [] (h, _) = split_of_Lacks sep p h
split-join sep p (q ∷ ps) (h, hs) =
    split-append sep p (join (q ∷ ps) (sep ∷ [])) h ∙ ap (λ l. p ∷ l) (split-join sep q ps hs)

pub split_double_of_Lacks : (sep : ℕ) (s : Bytes) → Lacks sep s → split_double s sep ≡ s ∷ []
unfolding split_double
split_double_of_Lacks sep [] _ = refl
split_double_of_Lacks sep (c ∷ []) _ = refl
split_double_of_Lacks sep (c ∷ d ∷ s) (h, hs) = ground (arith, split_double_of_Lacks sep (d ∷ s) hs)

-- Two texts free of the separator, glued by it twice, come apart again.
pub split_double-append :
    (sep : ℕ) (s t : Bytes)
    → Lacks sep s
    → Lacks sep t
    → split_double (s ++ sep ∷ sep ∷ t) sep ≡ s ∷ t ∷ []
unfolding split_double
split_double-append sep [] t _ k = ground (arith, split_double_of_Lacks sep t k)
split_double-append sep (c ∷ []) t (h, _) k = ground (arith, split_double_of_Lacks sep t k)
split_double-append sep (c ∷ d ∷ s) t (h, hs) k =
    ground (arith, split_double-append sep (d ∷ s) t hs k)

pub cut_at-append : (sep : ℕ) (s t : Bytes) → Lacks sep s → cut_at (s ++ sep ∷ t) sep ≡ some (s, t)
unfolding cut_at
cut_at-append sep [] t _ = ground arith
cut_at-append sep (c ∷ s) t (h, hs) = ground (arith, cut_at-append sep s t hs)

pub cut_at_of_Lacks : (sep : ℕ) (s : Bytes) → Lacks sep s → cut_at s sep ≡ none
unfolding cut_at
cut_at_of_Lacks sep [] _ = refl
cut_at_of_Lacks sep (c ∷ s) (h, hs) = ground (arith, cut_at_of_Lacks sep s hs)

-- The prefix of a concatenation is stripped.
pub strip_prefix-append : (p s : Bytes) → strip_prefix p (p ++ s) ≡ some s
unfolding strip_prefix
strip_prefix-append [] s = refl
strip_prefix-append (c ∷ p) s = ground (arith, strip_prefix-append p s)

strip_prefix_sound : (p s r : Bytes) → strip_prefix p s ≡ some r → s ≡ p ++ r
unfolding strip_prefix
strip_prefix_sound [] s r e = ground arith
strip_prefix_sound (c ∷ p) [] r e = ground arith
strip_prefix_sound (c ∷ p) (d ∷ s) r e = ground (arith, strip_prefix_sound p s r)

-- A text with a prefix is the prefix and a rest.
pub has_prefix_sound : (s p : Bytes) → has_prefix s p ≡ true → (r : Bytes) × (s ≡ p ++ r)
unfolding has_prefix
has_prefix_sound s p h = elim (Option-cases (strip_prefix p s)) [
  | inl e ↦ absurd (ground arith)
  | inr (r, e) ↦ (r, strip_prefix_sound p s r e)
]
