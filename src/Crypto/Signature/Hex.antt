-- ===== src/Crypto/Signature/Hex.antt =====
-- Hexadecimal texts are equal only where the bytes are.
use go_svc_extn.Prelude.{ℕ, ◌/◌, ◌%◌, ◌<◌, ◌≡◌, refl, [], ◌∷◌, Bytes, IsBytes, arith}
use go_svc_extn.Crypto.Signature.{hex, hex_digit}

hex_digit_injective : (v w : ℕ) → v < 16 → w < 16 → hex_digit v ≡ hex_digit w → v ≡ w
hex_digit_injective v w h k e = ground arith

byte_injective : (b c : ℕ) → b / 16 ≡ c / 16 → b % 16 ≡ c % 16 → b ≡ c
byte_injective b c h k = omega arith

pub hex_injective : (s t : Bytes) → IsBytes s → IsBytes t → hex s ≡ hex t → s ≡ t
unfolding hex
hex_injective [] [] _ _ _ = refl
hex_injective [] (c ∷ t) _ _ e = absurd cc
hex_injective (b ∷ s) [] _ _ e = absurd cc
hex_injective (b ∷ s) (c ∷ t) (hb, hs) (hc, ht) e =
    let high : hex_digit (b / 16) ≡ hex_digit (c / 16) = cc in
    let low : hex_digit (b % 16) ≡ hex_digit (c % 16) = cc in
    let more : hex s ≡ hex t = cc in
    let byte : b ≡ c =
      byte_injective b c (hex_digit_injective (b / 16) (c / 16) (omega arith) (omega arith) high)
        (hex_digit_injective (b % 16) (c % 16) (omega arith) (omega arith) low) in
    let rest : s ≡ t = hex_injective s t hs ht more in rw (byte, rest) refl
