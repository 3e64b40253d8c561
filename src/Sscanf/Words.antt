-- ===== src/Sscanf/Words.antt =====
-- Printable texts and the verb `%s`.
use go_svc_extn.Prelude.{
  ℕ, ◌≤◌, ◌<◌, ◌≡◌, refl, false, some, [], ◌∷◌, ◌++◌, Bytes, All, is_empty, arith,
}
use go_svc_extn.Strings.Split.{strip_prefix-append}
use go_svc_extn.Sscanf.{is_space, is_space2, is_space3, skip_space, span_word, sscanf_word}

-- A character of ASCII that is no white space.
abbrev pub IsPrintable : ℕ → Type 0
IsPrintable c = (33 ≤ c) × (c < 127)

skip_space-printable : (s : Bytes) → All IsPrintable s → skip_space s ≡ some s
unfolding skip_space is_space is_space2 is_space3
skip_space-printable [] h = refl
skip_space-printable (a ∷ []) h = ground arith
skip_space-printable (a ∷ b ∷ []) h = ground arith
skip_space-printable (a ∷ b ∷ c ∷ s) (h, _) = ground arith

span_word-printable : (s : Bytes) → All IsPrintable s → span_word s ≡ s
unfolding span_word is_space is_space2 is_space3
span_word-printable [] h = refl
span_word-printable (a ∷ []) h = ground arith
span_word-printable (a ∷ b ∷ []) (h, hs) = ground (arith, span_word-printable (b ∷ []) hs)
span_word-printable (a ∷ b ∷ c ∷ s) (h, hs) = ground (arith, span_word-printable (b ∷ c ∷ s) hs)

pub sscanf_word-printable :
    (literal s : Bytes)
    → All IsPrintable s
    → is_empty s ≡ false
    → sscanf_word literal (literal ++ s) ≡ some s
unfolding sscanf_word
sscanf_word-printable literal s h e =
    rw (strip_prefix-append literal s, skip_space-printable s h, span_word-printable s h, e) refl
