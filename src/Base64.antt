-- ===== src/Base64.antt =====
-- Go's `encoding/base64`, as far as the repository uses it: the standard and the URL alphabet, with
-- and without padding, lax and strict (RawStdEncoding, StdEncoding, RawURLEncoding, `.Strict()`).
pub mod RoundTrip
use go_svc_extn.Prelude.{
  ℕ, ◌+◌, ◌-◌, ◌*◌, ◌/◌, ◌%◌, Bool, true, false, not, ◌&&◌, ◌||◌, Option, none, some, List, [], ◌∷◌,
  ◌++◌, Bytes, is_empty, ltb, leb, ◌==◌, if◌then◌else◌,
}

pub record Encoding : Type 0 where
  pub url : Bool
  pub padded : Bool
  pub strict : Bool

abbrev pub raw_std : Encoding
raw_std = record { url = false; padded = false; strict = false }

abbrev pub std : Encoding
std = record { url = false; padded = true; strict = false }

abbrev pub raw_url : Encoding
raw_url = record { url = true; padded = false; strict = false }

-- `enc.Strict()`
abbrev pub strictly : Encoding → Encoding
strictly e = record e { strict = true }

abbrev pub pad : ℕ
pad = b'='

-- The character for six bits.
unfoldable pub char : Bool → ℕ → ℕ
char url v =
    if ltb v 26
    then b'A' + v
    else if ltb v 52
    then b'a' + (v - 26)
    else if ltb v 62
    then b'0' + (v - 52)
    else if v == 62
    then (if url then b'-' else b'+')
    else (if url then b'_' else b'/')

-- The six bits of a character.
pub sextet : Bool → ℕ → Option ℕ
sextet url c =
    if leb b'A' c && leb c b'Z'
    then some (c - b'A')
    else if leb b'a' c && leb c b'z'
    then some (c - b'a' + 26)
    else if leb b'0' c && leb c b'9'
    then some (c - b'0' + 52)
    else if c == (if url then b'-' else b'+')
    then some 62
    else if c == (if url then b'_' else b'/')
    then some 63
    else none

infixl 5 ◌>>=◌
abbrev ◌>>=◌ {ℓ κ} : {A : Type ℓ} {B : Type κ} → Option A → (A → Option B) → Option B
none >>= f = none
some a >>= f = f a

abbrev padding : Encoding → Bytes → Bytes
padding e cs = if e.padded then cs else []

-- `enc.EncodeToString`
unfoldable pub encode : Encoding → Bytes → Bytes
encode e [] = []
encode e (x ∷ []) = char e.url (x / 4) ∷ char e.url (x % 4 * 16) ∷ padding e (pad ∷ pad ∷ [])
encode e (x ∷ y ∷ []) =
    char e.url (x / 4)
    ∷ char e.url (x % 4 * 16 + y / 16)
    ∷ char e.url (y % 16 * 4)
    ∷ padding e (pad ∷ [])
encode e (x ∷ y ∷ z ∷ rest) =
    char e.url (x / 4)
    ∷ char e.url (x % 4 * 16 + y / 16)
    ∷ char e.url (y % 16 * 4 + z / 64)
    ∷ char e.url (z % 64)
    ∷ encode e rest

-- A last group of two characters; a strict decoder wants the unused bits to be 0.
pub one_byte : Encoding → ℕ → ℕ → Option Bytes
one_byte e a b = do
  x ← sextet e.url a
  y ← sextet e.url b
  if e.strict && not (y % 16 == 0) then none else some ((x * 4 + y / 16) ∷ [])

-- A last group of three characters.
pub two_bytes : Encoding → ℕ → ℕ → ℕ → Option Bytes
two_bytes e a b c = do
  x ← sextet e.url a
  y ← sextet e.url b
  z ← sextet e.url c
  if e.strict && not (z % 4 == 0)
      then none
      else some ((x * 4 + y / 16) ∷ (y % 16 * 16 + z / 4) ∷ [])

-- A whole group in front of the decoded rest.
pub three_bytes : Encoding → ℕ → ℕ → ℕ → ℕ → Option Bytes → Option Bytes
three_bytes e a b c d more = do
  x ← sextet e.url a
  y ← sextet e.url b
  z ← sextet e.url c
  w ← sextet e.url d
  r ← more
  some ((x * 4 + y / 16) ∷ (y % 16 * 16 + z / 4) ∷ (z % 4 * 64 + w) ∷ r)

-- `decodeQuantum`, and the loop over it.
unfoldable pub decode_groups : Encoding → Bytes → Option Bytes
decode_groups e [] = some []
decode_groups e (a ∷ []) = none
decode_groups e (a ∷ b ∷ []) = if e.padded then none else one_byte e a b
decode_groups e (a ∷ b ∷ c ∷ []) = if e.padded then none else two_bytes e a b c
decode_groups e (a ∷ b ∷ c ∷ d ∷ rest) =
    if e.padded && c == pad
    then (if d == pad && is_empty rest then one_byte e a b else none)
    else if e.padded && d == pad
    then (if is_empty rest then two_bytes e a b c else none)
    else three_bytes e a b c d (decode_groups e rest)

abbrev pub is_newline : ℕ → Bool
is_newline c = c == 10 || c == 13

-- Line breaks are ignored wherever they stand.
unfoldable pub strip_newlines : Bytes → Bytes
strip_newlines [] = []
strip_newlines (c ∷ s) = if is_newline c then strip_newlines s else c ∷ strip_newlines s

-- `enc.DecodeString`; `none` is the error of corrupt input.
unfoldable pub decode : Encoding → Bytes → Option Bytes
decode e s = decode_groups e (strip_newlines s)
