-- ===== src/Strconv.antt =====
-- Go's `strconv`: decimal prints of integers, and `Atoi`, `ParseInt` and `ParseUint` in base 10.
pub mod RoundTrip
use go_svc_extn.Prelude.{
  ℕ, zero, suc, ◌+◌, ◌-◌, ◌*◌, ◌/◌, ◌%◌, ◌^◌, Bool, true, false, ◌||◌, Option, none, some, List, [],
  ◌∷◌, ◌++◌, Bytes, ltb, leb, ◌==◌, if◌then◌else◌,
}
use go_svc_extn.Prelude.Int.{ℤ, pos, negsuc}

-- The digits of `n`, with fuel above `n`.
unfoldable pub digits : ℕ → ℕ → Bytes
digits zero n = []
digits (suc f) n =
    let more = digits f (n / 10) in
    if ltb n 10 then (b'0' + n) ∷ [] else more ++ (b'0' + n % 10) ∷ []

-- `FormatUint(n, 10)`
unfoldable pub format_uint : ℕ → Bytes
unfolding digits
format_uint n = digits (suc n) n

-- `Itoa`, and `FormatInt(z, 10)`
unfoldable pub itoa : ℤ → Bytes
unfolding format_uint
itoa (pos n) = format_uint n
itoa (negsuc n) = b'-' ∷ format_uint (suc n)

-- What a parse yields: a number, a syntax error, or a number out of the type's range.
pub data Parsed (A : Type 0) : Type 0 where
  number : A → Parsed A
  bad_syntax : Parsed A
  out_of_range : A → Parsed A

abbrev pub max_u64 : ℕ
max_u64 = 2 ^ 64 - 1

-- The loop of `ParseUint`. It stops at the first digit that leaves uint64, and reads no further.
pub scan : ℕ → Bytes → Parsed ℕ
scan n [] = number n
scan n (c ∷ s) =
    let more = scan (n * 10 + (c - b'0')) s in
    if ltb c b'0' || ltb b'9' c
    then bad_syntax
    else if ltb max_u64 (n * 10 + (c - b'0'))
    then out_of_range max_u64
    else more

-- `ParseUint(s, 10, 64)`
unfoldable pub parse_uint : Bytes → Parsed ℕ
unfolding scan
parse_uint [] = bad_syntax
parse_uint (c ∷ s) = scan 0 (c ∷ s)

pub signed_result : Bool → Parsed ℕ → Parsed ℤ
signed_result neg bad_syntax = bad_syntax
signed_result false (number n) =
    if ltb n (2 ^ 63) then number (pos n) else out_of_range (pos (2 ^ 63 - 1))
signed_result true (number n) =
    if n == 0
    then number (pos 0)
    else if ltb (2 ^ 63) n
    then out_of_range (negsuc (2 ^ 63 - 1))
    else number (negsuc (n - 1))
signed_result false (out_of_range n) = out_of_range (pos (2 ^ 63 - 1))
signed_result true (out_of_range n) = out_of_range (negsuc (2 ^ 63 - 1))

-- `Atoi`, and `ParseInt(s, 10, 64)`
unfoldable pub atoi : Bytes → Parsed ℤ
unfolding parse_uint signed_result
atoi [] = bad_syntax
atoi (c ∷ s) =
    if c == b'-'
    then signed_result true (parse_uint s)
    else if c == b'+'
    then signed_result false (parse_uint s)
    else signed_result false (parse_uint (c ∷ s))
