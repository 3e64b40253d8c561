-- ===== src/IdGen/BigEndian.antt =====
-- A number is decoded from its text, and a text that is too short for one panics.
use go_svc_extn.Prelude.{
  ℕ, ◌^◌, ◌<◌, ◌≡◌, refl, ap, ◌∙◌, [], ◌∷◌, Bytes, IsBytes, length, ok, panic, arith,
}
use go_svc_extn.IdGen.{Base58, put_uint64, get_uint64, encode_uint64, decode_to_uint64}

put_uint64-IsBytes : (v : ℕ) → IsBytes (put_uint64 v)
unfolding put_uint64
put_uint64-IsBytes v = omega arith

get_uint64-put_uint64 : {E : Type 0} (v : ℕ) → v < 2 ^ 64 → get_uint64 {E = E} (put_uint64 v) ≡ ok v
unfolding get_uint64 put_uint64
get_uint64-put_uint64 v h = ap ok (omega arith)

-- Every uint64 is decoded from its base58 text, leading zero bytes included. Base58 decodes what it
-- encoded.
pub decode_to_uint64-encode :
    {E : Type 0} (c : Base58) (lawful : (s : Bytes) → IsBytes s → c.decode (c.encode s) ≡ s) (v : ℕ)
    → v < 2 ^ 64
    → decode_to_uint64 {E = E} c (encode_uint64 c v) ≡ ok v
unfolding decode_to_uint64 encode_uint64
decode_to_uint64-encode c lawful v h =
    ap get_uint64 (lawful (put_uint64 v) (put_uint64-IsBytes v)) ∙ get_uint64-put_uint64 v h

short : {E : Type 0} (s : Bytes) → length s < 8 → get_uint64 {E = E} s ≡ panic
unfolding get_uint64
short [] h = refl
short (_ ∷ []) h = refl
short (_ ∷ _ ∷ []) h = refl
short (_ ∷ _ ∷ _ ∷ []) h = refl
short (_ ∷ _ ∷ _ ∷ _ ∷ []) h = refl
short (_ ∷ _ ∷ _ ∷ _ ∷ _ ∷ []) h = refl
short (_ ∷ _ ∷ _ ∷ _ ∷ _ ∷ _ ∷ []) h = refl
short (_ ∷ _ ∷ _ ∷ _ ∷ _ ∷ _ ∷ _ ∷ []) h = refl
short (_ ∷ _ ∷ _ ∷ _ ∷ _ ∷ _ ∷ _ ∷ _ ∷ s) h = absurd (omega arith)

-- A text that base58 decodes to fewer than eight bytes makes `DecodeToUint64` panic; the result has no
-- error.
pub decode_to_uint64_panics :
    {E : Type 0} (c : Base58) (s : Bytes)
    → length (c.decode s) < 8
    → decode_to_uint64 {E = E} c s ≡ panic
unfolding decode_to_uint64
decode_to_uint64_panics c s h = short (c.decode s) h
