-- ===== src/Strings.antt =====
-- Go's `strings` and `bytes`: splitting at a separator, prefixes, joining.
pub mod Split
use go_svc_extn.Prelude.{
  ℕ, zero, suc, Bool, true, false, ◌&&◌, Option, none, some, List, [], ◌∷◌, ◌++◌, Bytes, ◌==◌,
  if◌then◌else◌,
}

-- The rest of `s` behind a prefix.
unfoldable pub strip_prefix : Bytes → Bytes → Option Bytes
strip_prefix [] s = some s
strip_prefix (p ∷ ps) [] = none
strip_prefix (p ∷ ps) (c ∷ s) = if p == c then strip_prefix ps s else none

-- `HasPrefix(s, prefix)`
unfoldable pub has_prefix : Bytes → Bytes → Bool
unfolding strip_prefix
has_prefix s prefix = elim (strip_prefix prefix s) [ none ↦ false | some _ ↦ true ]

-- `TrimPrefix(s, prefix)`
unfoldable pub trim_prefix : Bytes → Bytes → Bytes
unfolding strip_prefix
trim_prefix s prefix = elim (strip_prefix prefix s) [ none ↦ s | some rest ↦ rest ]

push : ℕ → List Bytes → List Bytes
push c [] = (c ∷ []) ∷ []
push c (p ∷ ps) = (c ∷ p) ∷ ps

-- `Split(s, sep)` for a separator of one byte.
unfoldable pub split : Bytes → ℕ → List Bytes
unfolding push
split [] sep = [] ∷ []
split (c ∷ s) sep = if c == sep then [] ∷ split s sep else push c (split s sep)

-- `Split(s, sep+sep)`: the leftmost occurrence is cut first.
unfoldable pub split_double : Bytes → ℕ → List Bytes
unfolding push
split_double [] sep = [] ∷ []
split_double (c ∷ []) sep = (c ∷ []) ∷ []
split_double (c ∷ d ∷ s) sep =
    let cut = split_double s sep in
    let step = split_double (d ∷ s) sep in if c == sep && d == sep then [] ∷ cut else push c step

-- `SplitN(s, sep, 2)` for a separator of one byte: both sides of its first occurrence, if any.
unfoldable pub cut_at : Bytes → ℕ → Option (Bytes × Bytes)
cut_at [] sep = none
cut_at (c ∷ s) sep =
    if c == sep
    then some ([], s)
    else elim (cut_at s sep) [ none ↦ none | some (before, after) ↦ some (c ∷ before, after) ]

-- `Join(parts, sep)`
unfoldable pub join : List Bytes → Bytes → Bytes
join [] sep = []
join (p ∷ []) sep = p
join (p ∷ q ∷ ps) sep = p ++ (sep ++ join (q ∷ ps) sep)
