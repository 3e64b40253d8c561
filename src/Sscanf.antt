-- ===== src/Sscanf.antt =====
-- Go's `fmt.Sscanf`, for formats of literals and the verbs `%d` of unsigned numbers and `%s`.
pub mod RoundTrip
pub mod Words
use go_svc_extn.Prelude.{
  ℕ, ◌≡◌, Bool, true, false, ◌&&◌, ◌||◌, Option, none, some, List, [], ◌∷◌, ◌++◌, Bytes, ltb, leb,
  ◌==◌, is_empty, if◌then◌else◌,
}
use go_svc_extn.Strconv.{number, parse_uint, atoi}
use go_svc_extn.Prelude.Int.{ℤ}
use go_svc_extn.Strings.{strip_prefix}

infixl 5 ◌>>=◌
abbrev pub ◌>>=◌ {ℓ κ} : {A : Type ℓ} {B : Type κ} → Option A → (A → Option B) → Option B
none >>= f = none
some a >>= f = f a

-- The white space of one byte, but for the line feed.
pub is_space : ℕ → Bool
is_space c = c == 9 || (leb 11 c && leb c 13) || c == 32

-- In UTF-8 the white space of two bytes: U+0085 and U+00A0.
pub is_space2 : ℕ → ℕ → Bool
is_space2 a b = a == 0xC2 && (b == 0x85 || b == 0xA0)

-- That of three bytes: U+1680, U+2000 to U+200A, U+2028, U+2029, U+202F, U+205F, U+3000.
pub is_space3 : ℕ → ℕ → ℕ → Bool
is_space3 a b c =
    (a == 0xE1 && b == 0x9A && c == 0x80)
    || (a == 0xE2 && b == 0x80 && (leb 0x80 c && leb c 0x8A || c == 0xA8 || c == 0xA9 || c == 0xAF))
    || (a == 0xE2 && b == 0x81 && c == 0x9F)
    || (a == 0xE3 && b == 0x80 && c == 0x80)

-- `SkipSpace`; a line feed is an error.
pub skip_space : Bytes → Option Bytes
unfolding is_space is_space2 is_space3
skip_space [] = some []
skip_space (a ∷ []) = if a == 10 then none else if is_space a then some [] else some (a ∷ [])
skip_space (a ∷ b ∷ []) =
    let one = skip_space (b ∷ []) in
    if a == 10
    then none
    else if is_space a
    then one
    else if is_space2 a b
    then some []
    else some (a ∷ b ∷ [])
skip_space (a ∷ b ∷ c ∷ s) =
    let one = skip_space (b ∷ c ∷ s) in
    let two = skip_space (c ∷ s) in
    let three = skip_space s in
    if a == 10
    then none
    else if is_space a
    then one
    else if is_space2 a b
    then two
    else if is_space3 a b c
    then three
    else some (a ∷ b ∷ c ∷ s)

abbrev pub is_digit : ℕ → Bool
is_digit c = leb b'0' c && leb c b'9'

-- The digits in front, and what is behind them.
pub span_digits : Bytes → Bytes × Bytes
span_digits [] = ([], [])
span_digits (c ∷ s) =
    let (digits, rest) = span_digits s in if is_digit c then (c ∷ digits, rest) else ([], c ∷ s)

-- The number that digits spell, if it is below `limit`.
pub bounded : ℕ → Bytes × Bytes → Option (ℕ × Bytes)
bounded limit (digits, rest) = elim (parse_uint digits) [
  | number n ↦ if ltb n limit then some (n, rest) else none
  | _ ↦ none
]

-- `%d` into an unsigned number below `limit`.
pub scan_uint : ℕ → Bytes → Option (ℕ × Bytes)
unfolding bounded
scan_uint limit s = do text ← skip_space s; bounded limit (span_digits text)

-- One field of a format: a literal, and an unsigned number below the limit. What follows the last
-- field is not read.
unfoldable pub scan_field : Bytes → ℕ → Bytes → Option (ℕ × Bytes)
unfolding scan_uint
scan_field literal limit s = do text ← strip_prefix literal s; scan_uint limit text

-- The digits behind the sign that was accepted, as an int.
pub signed_number : Bytes → Bytes → Option ℤ
signed_number sign s = elim (atoi (sign ++ (span_digits s).0)) [ number z ↦ some z | _ ↦ none ]

-- `accept(sign)`, and the number behind it.
pub scan_sign : Bytes → Option ℤ
unfolding signed_number
scan_sign [] = none
scan_sign (c ∷ s) =
    if c == b'-' || c == b'+' then signed_number (c ∷ []) s else signed_number [] (c ∷ s)

-- A literal and `%d` into an int.
unfoldable pub sscanf_int : Bytes → Bytes → Option ℤ
unfolding scan_sign
sscanf_int literal s = do
  text ← strip_prefix literal s
  number_text ← skip_space text
  scan_sign number_text

-- Up to the next white space.
pub span_word : Bytes → Bytes
unfolding is_space is_space2 is_space3
span_word [] = []
span_word (a ∷ []) = if a == 10 || is_space a then [] else a ∷ []
span_word (a ∷ b ∷ []) =
    let rest = span_word (b ∷ []) in if a == 10 || is_space a || is_space2 a b then [] else a ∷ rest
span_word (a ∷ b ∷ c ∷ s) =
    let rest = span_word (b ∷ c ∷ s) in
    if a == 10 || is_space a || is_space2 a b || is_space3 a b c then [] else a ∷ rest

-- A literal and `%s`.
pub sscanf_word : Bytes → Bytes → Option Bytes
sscanf_word literal s = do
  text ← strip_prefix literal s
  word ← skip_space text
  if is_empty (span_word word) then none else some (span_word word)
