-- ===== src/Sscanf/RoundTrip.antt =====
-- Numbers that were printed behind literals are scanned again.
use mathlib.Core.Path.{subst}
use go_svc_extn.Prelude.{
  ℕ, ◌^◌, ◌≤◌, ◌<◌, ◌≡◌, refl, ◌≢◌, true, false, some, [], ◌∷◌, ◌++◌, append-nil, Bytes, All, arith,
}
use go_svc_extn.Strconv.{number, format_uint, atoi, itoa}
use go_svc_extn.Strconv.RoundTrip.{
  IsDigit, format_uint-IsDigit, format_uint-ne-nil, parse_uint-format_uint, atoi-itoa,
}
use go_svc_extn.Strings.Split.{strip_prefix-append}
use go_svc_extn.Sscanf.{
  skip_space, is_digit, span_digits, bounded, scan_uint, scan_field, scan_sign, signed_number,
  sscanf_int,
}
use go_svc_extn.Prelude.Int.{pos}

-- The text is empty, or begins with no digit.
abbrev pub EndsNumber : Bytes → Type 0
EndsNumber [] = Unit
EndsNumber (c ∷ s) = is_digit c ≡ false

span_digits_end : (s : Bytes) → EndsNumber s → span_digits s ≡ ([], s)
unfolding span_digits
span_digits_end [] _ = refl
span_digits_end (c ∷ s) h = rw h

span_digits-append :
    (ds rest : Bytes) → All IsDigit ds → EndsNumber rest → span_digits (ds ++ rest) ≡ (ds, rest)
unfolding span_digits
span_digits-append [] rest _ h = span_digits_end rest h
span_digits-append (d ∷ ds) rest (k, ks) h =
    let digit : is_digit d ≡ true = ground arith in rw (digit, span_digits-append ds rest ks h)

skip_space_digit : (c : ℕ) (s : Bytes) → IsDigit c → skip_space (c ∷ s) ≡ some (c ∷ s)
unfolding skip_space
skip_space_digit c [] h = ground arith
skip_space_digit c (b ∷ []) h = ground arith
skip_space_digit c (b ∷ d ∷ s) h = ground arith

skip_space_digits :
    (ds rest : Bytes) → ds ≢ [] → All IsDigit ds → skip_space (ds ++ rest) ≡ some (ds ++ rest)
skip_space_digits [] rest h _ = absurd (h refl)
skip_space_digits (d ∷ ds) rest h (k, _) = skip_space_digit d (ds ++ rest) k

bounded-format_uint :
    (limit n : ℕ) (rest : Bytes)
    → limit ≤ 2 ^ 64
    → n < limit
    → bounded limit (format_uint n, rest) ≡ some (n, rest)
unfolding bounded
bounded-format_uint limit n rest wide small =
    rw (parse_uint-format_uint n (omega arith), bounded) (ground arith)

pub scan_uint-format_uint :
    (limit n : ℕ) (rest : Bytes)
    → limit ≤ 2 ^ 64
    → n < limit
    → EndsNumber rest
    → scan_uint limit (format_uint n ++ rest) ≡ some (n, rest)
unfolding scan_uint
scan_uint-format_uint limit n rest wide small h = rw (
  skip_space_digits (format_uint n) rest (format_uint-ne-nil n) (format_uint-IsDigit n),
  span_digits-append (format_uint n) rest (format_uint-IsDigit n) h,
  bounded-format_uint limit n rest wide small,
)

-- A number printed behind a literal, as one more field of a format.
pub scan_field-print :
    (literal : Bytes) (limit n : ℕ) (rest : Bytes)
    → limit ≤ 2 ^ 64
    → n < limit
    → EndsNumber rest
    → scan_field literal limit (literal ++ (format_uint n ++ rest)) ≡ some (n, rest)
unfolding scan_field
scan_field-print literal limit n rest wide small h = rw (
  strip_prefix-append literal (format_uint n ++ rest),
  scan_uint-format_uint limit n rest wide small h,
)

-- The last number of a text.
pub scan_field-print_last :
    (literal : Bytes) (limit n : ℕ)
    → limit ≤ 2 ^ 64
    → n < limit
    → scan_field literal limit (literal ++ format_uint n) ≡ some (n, [])
scan_field-print_last literal limit n wide small =
    rw (← append-nil (format_uint n)) (scan_field-print literal limit n [] wide small tt)

scan_sign_of_digits : (ds : Bytes) → ds ≢ [] → All IsDigit ds → scan_sign ds ≡ signed_number [] ds
unfolding scan_sign
scan_sign_of_digits [] h _ = absurd (h refl)
scan_sign_of_digits (d ∷ ds) h (k, _) = ground arith

skip_space_of_digits : (ds : Bytes) → ds ≢ [] → All IsDigit ds → skip_space ds ≡ some ds
skip_space_of_digits ds h k = rw (← append-nil ds) (skip_space_digits ds [] h k)

atoi_of_uint : (n : ℕ) → n < 2 ^ 63 → atoi (format_uint n) ≡ number (pos n)
atoi_of_uint n small = unfold itoa in atoi-itoa (pos n) (small, omega arith)

span_digits_of_digits : (ds : Bytes) → All IsDigit ds → span_digits ds ≡ (ds, [])
span_digits_of_digits ds h =
    subst (λ t. span_digits t ≡ (ds, [])) (append-nil ds) (span_digits-append ds [] h tt)

signed_number-format_uint : (n : ℕ) → n < 2 ^ 63 → signed_number [] (format_uint n) ≡ some (pos n)
unfolding signed_number
signed_number-format_uint n small =
    rw
      (
        signed_number,
        span_digits_of_digits (format_uint n) (format_uint-IsDigit n),
        atoi_of_uint n small,
      )
      refl

-- An unsigned number that was printed is read as a signed one.
pub sscanf_int-print :
    (literal : Bytes) (n : ℕ)
    → n < 2 ^ 63
    → sscanf_int literal (literal ++ format_uint n) ≡ some (pos n)
unfolding sscanf_int
sscanf_int-print literal n small = rw (
  strip_prefix-append literal (format_uint n),
  skip_space_of_digits (format_uint n) (format_uint-ne-nil n) (format_uint-IsDigit n),
  scan_sign_of_digits (format_uint n) (format_uint-ne-nil n) (format_uint-IsDigit n),
  signed_number-format_uint n small,
)
