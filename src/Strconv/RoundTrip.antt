-- ===== src/Strconv/RoundTrip.antt =====
-- A printed integer is read back, and a print holds digits only.
use go_svc_extn.Prelude.{
  ℕ, zero, suc, ◌+◌, ◌/◌, ◌%◌, ◌≤◌, ◌<◌, ◌≡◌, refl, ◌≢◌, false, [], ◌∷◌, ◌++◌, append_assoc,
  append-nil, Bytes, All, All-append, All-map, arith,
}
use go_svc_extn.Prelude.Int.{ℤ, pos, negsuc, IsInt64}
use go_svc_extn.Strconv.{
  digits, format_uint, itoa, number, max_u64, scan, parse_uint, signed_result, atoi,
}

abbrev pub IsDigit : ℕ → Type 0
IsDigit c = (b'0' ≤ c) × (c ≤ b'9')

scan-digits :
    (f n : ℕ) (rest : Bytes) → n < f → n ≤ max_u64 → scan 0 (digits f n ++ rest) ≡ scan n rest
unfolding scan digits
scan-digits zero n rest h fits = absurd (omega arith)
scan-digits (suc f) n rest h fits = ground (
  arith,
  append_assoc (digits f (n / 10)) ((b'0' + n % 10) ∷ []) rest,
  scan-digits f (n / 10) ((b'0' + n % 10) ∷ rest),
)

pub digits-IsDigit : (f n : ℕ) → All IsDigit (digits f n)
unfolding digits
digits-IsDigit zero n = tt
digits-IsDigit (suc f) n = ground (
  arith,
  digits-IsDigit f (n / 10),
  All-append IsDigit (digits f (n / 10)) ((b'0' + n % 10) ∷ []),
)

pub format_uint-IsDigit : (n : ℕ) → All IsDigit (format_uint n)
unfolding format_uint
format_uint-IsDigit n = digits-IsDigit (suc n) n

append-ne-nil : (s : Bytes) (c : ℕ) (t : Bytes) → s ++ c ∷ t ≢ []
append-ne-nil [] c t e = cc
append-ne-nil (b ∷ s) c t e = cc

digits-ne-nil : (f n : ℕ) → digits (suc f) n ≢ []
unfolding digits
digits-ne-nil f n = ground (arith, append-ne-nil (digits f (n / 10)) (b'0' + n % 10) [])

pub format_uint-ne-nil : (n : ℕ) → format_uint n ≢ []
unfolding format_uint
format_uint-ne-nil n = digits-ne-nil n n

-- Scanning a print, with what follows it.
pub scan-format_uint :
    (n : ℕ) (rest : Bytes) → n ≤ max_u64 → scan 0 (format_uint n ++ rest) ≡ scan n rest
unfolding format_uint
scan-format_uint n rest h = scan-digits (suc n) n rest (omega arith) h

parse_uint-scan : (s : Bytes) → s ≢ [] → parse_uint s ≡ scan 0 s
unfolding parse_uint
parse_uint-scan [] h = absurd (h refl)
parse_uint-scan (c ∷ s) h = refl

-- A print of an unsigned number is read back.
pub parse_uint-format_uint : (n : ℕ) → n ≤ max_u64 → parse_uint (format_uint n) ≡ number n
parse_uint-format_uint n h =
    rw (parse_uint-scan (format_uint n) (format_uint-ne-nil n), ← append-nil (format_uint n))
      (rw (scan-format_uint n [] h) (unfold scan in refl))

-- A text of digits has no sign to strip.
atoi_of_digits : (s : Bytes) → s ≢ [] → All IsDigit s → atoi s ≡ signed_result false (parse_uint s)
unfolding atoi
atoi_of_digits [] h _ = absurd (h refl)
atoi_of_digits (c ∷ s) h (d, ds) = ground arith

-- A print of a 64-bit integer is read back.
pub atoi-itoa : (z : ℤ) → IsInt64 z → atoi (itoa z) ≡ number z
unfolding itoa
atoi-itoa (pos n) (h, _) =
    rw
      (
        atoi_of_digits (format_uint n) (format_uint-ne-nil n) (format_uint-IsDigit n),
        parse_uint-format_uint n (omega arith),
      )
      (unfold signed_result in ground arith)
atoi-itoa (negsuc n) (_, h) =
    unfold atoi signed_result in rw (parse_uint-format_uint (suc n) (omega arith)) (ground arith)

abbrev pub IsSigned : ℕ → Type 0
IsSigned c = (c ≢ b'|') × (c < 256)

IsDigit-IsSigned : (c : ℕ) → IsDigit c → IsSigned c
IsDigit-IsSigned c h = (ground arith, omega arith)

-- A print of an integer holds bytes only, and none is "|".
pub itoa-IsSigned : (z : ℤ) → All IsSigned (itoa z)
unfolding itoa
itoa-IsSigned (pos n) =
    All-map IsDigit IsSigned IsDigit-IsSigned (format_uint n) (format_uint-IsDigit n)
itoa-IsSigned (negsuc n) = (
  (ground arith, omega arith),
  All-map IsDigit IsSigned IsDigit-IsSigned (format_uint (suc n)) (format_uint-IsDigit (suc n)),
)
