-- ===== src/Base64/RoundTrip.antt =====
-- Decoding undoes encoding, in every variant of `encoding/base64` that the repository uses.
use go_svc_extn.Prelude.{
  ℕ, ◌+◌, ◌*◌, ◌/◌, ◌%◌, ◌≤◌, ◌<◌, ◌≡◌, refl, ◌≢◌, Bool, some, [], ◌∷◌, Bytes, IsBytes, is_empty,
  All, arith, Bool-cases, inl, inr,
}
use go_svc_extn.Base64.{
  Encoding, pad, char, sextet, encode, one_byte, two_bytes, three_bytes, decode_groups,
  strip_newlines, decode, padding, strictly,
}

pub sextet-char : (url : Bool) (v : ℕ) → v < 64 → sextet url (char url v) ≡ some v
unfolding sextet char
sextet-char url v h = ground arith

-- What is no character of the alphabet.
abbrev pub IsPlain : ℕ → Type 0
IsPlain c = (c ≢ 10) × (c ≢ 13) × (c ≢ b'$') × (c ≢ b'|') × (33 ≤ c) × (c < 127)

pub char-IsPlain : (url : Bool) (v : ℕ) → v < 64 → IsPlain (char url v)
unfolding char
char-IsPlain url v h = ground arith

pub char-ne-pad : (url : Bool) (v : ℕ) → v < 64 → char url v ≢ pad
unfolding char
char-ne-pad url v h = ground arith

module _ (e : Encoding) where
  one_byte-char :
      (x : ℕ) → x < 256 → one_byte e (char e.url (x / 4)) (char e.url (x % 4 * 16)) ≡ some (x ∷ [])
  unfolding one_byte
  one_byte-char x h =
      rw (sextet-char e.url (x / 4) (omega arith), sextet-char e.url (x % 4 * 16) (omega arith))
        (ground arith)

  two_bytes-char :
      (x y : ℕ)
      → x < 256
      → y < 256
      → two_bytes e
          (char e.url (x / 4))
          (char e.url (x % 4 * 16 + y / 16))
          (char e.url (y % 16 * 4))
        ≡ some (x ∷ y ∷ [])
  unfolding two_bytes
  two_bytes-char x y h k =
      rw
        (
          sextet-char e.url (x / 4) (omega arith),
          sextet-char e.url (x % 4 * 16 + y / 16) (omega arith),
          sextet-char e.url (y % 16 * 4) (omega arith),
        )
        (ground arith)

  three_bytes-char :
      (x y z : ℕ) (r : Bytes)
      → x < 256
      → y < 256
      → z < 256
      → three_bytes e
          (char e.url (x / 4))
          (char e.url (x % 4 * 16 + y / 16))
          (char e.url (y % 16 * 4 + z / 64))
          (char e.url (z % 64))
          (some r)
        ≡ some (x ∷ y ∷ z ∷ r)
  unfolding three_bytes
  three_bytes-char x y z r h k l =
      rw
        (
          sextet-char e.url (x / 4) (omega arith),
          sextet-char e.url (x % 4 * 16 + y / 16) (omega arith),
          sextet-char e.url (y % 16 * 4 + z / 64) (omega arith),
          sextet-char e.url (z % 64) (omega arith),
        )
        (ground arith)

  decode_groups-encode : (s : Bytes) → IsBytes s → decode_groups e (encode e s) ≡ some s
  unfolding decode_groups encode is_empty
  decode_groups-encode [] _ = refl
  decode_groups-encode (x ∷ []) (hx, _) = ground (arith, one_byte-char x hx)
  decode_groups-encode (x ∷ y ∷ []) (hx, (hy, _)) =
      ground (arith, two_bytes-char x y hx hy, char-ne-pad e.url (y % 16 * 4) (omega arith))
  decode_groups-encode (x ∷ y ∷ z ∷ s) (hx, (hy, (hz, hs))) = ground (
    arith,
    decode_groups-encode s hs,
    three_bytes-char x y z s hx hy hz,
    char-ne-pad e.url (y % 16 * 4 + z / 64) (omega arith),
    char-ne-pad e.url (z % 64) (omega arith),
  )

  padding-IsPlain : (s : Bytes) → All IsPlain s → All IsPlain (padding e s)
  padding-IsPlain s h = elim (Bool-cases e.padded) [ inl p ↦ rw p h | inr p ↦ rw p tt ]

  -- Every character written is one of the alphabet, or padding.
  pub encode-IsPlain : (s : Bytes) → IsBytes s → All IsPlain (encode e s)
  unfolding encode
  encode-IsPlain [] _ = tt
  encode-IsPlain (x ∷ []) (hx, _) = (
    char-IsPlain e.url (x / 4) (omega arith),
    (char-IsPlain e.url (x % 4 * 16) (omega arith), padding-IsPlain (pad ∷ pad ∷ []) (omega arith)),
  )
  encode-IsPlain (x ∷ y ∷ []) (hx, (hy, _)) = (
    char-IsPlain e.url (x / 4) (omega arith),
    (
      char-IsPlain e.url (x % 4 * 16 + y / 16) (omega arith),
      (char-IsPlain e.url (y % 16 * 4) (omega arith), padding-IsPlain (pad ∷ []) (omega arith)),
    ),
  )
  encode-IsPlain (x ∷ y ∷ z ∷ s) (hx, (hy, (hz, hs))) = (
    char-IsPlain e.url (x / 4) (omega arith),
    (
      char-IsPlain e.url (x % 4 * 16 + y / 16) (omega arith),
      (
        char-IsPlain e.url (y % 16 * 4 + z / 64) (omega arith),
        (char-IsPlain e.url (z % 64) (omega arith), encode-IsPlain s hs),
      ),
    ),
  )

strip_newlines_of_IsPlain : (s : Bytes) → All IsPlain s → strip_newlines s ≡ s
unfolding strip_newlines
strip_newlines_of_IsPlain [] _ = refl
strip_newlines_of_IsPlain (c ∷ s) (h, hs) = ground (arith, strip_newlines_of_IsPlain s hs)

-- Decoding an encoded text gives its bytes back, in each alphabet, padded or not, strict or not.
pub decode-encode : (e : Encoding) (s : Bytes) → IsBytes s → decode e (encode e s) ≡ some s
unfolding decode
decode-encode e s h =
    rw (strip_newlines_of_IsPlain (encode e s) (encode-IsPlain e s h)) (decode_groups-encode e s h)

-- Only the empty text is encoded as the empty text.
pub is_empty-encode : (e : Encoding) (s : Bytes) → is_empty (encode e s) ≡ is_empty s
unfolding encode is_empty
is_empty-encode e [] = refl
is_empty-encode e (x ∷ []) = refl
is_empty-encode e (x ∷ y ∷ []) = refl
is_empty-encode e (x ∷ y ∷ z ∷ s) = refl

-- A strict encoding encodes as the lax one does.
pub encode-strictly : (e : Encoding) (s : Bytes) → encode (strictly e) s ≡ encode e s
unfolding encode
encode-strictly e [] = refl
encode-strictly e (x ∷ []) = refl
encode-strictly e (x ∷ y ∷ []) = refl
encode-strictly e (x ∷ y ∷ z ∷ s) = rw (encode-strictly e s)
