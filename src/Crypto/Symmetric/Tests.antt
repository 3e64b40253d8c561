-- ===== src/Crypto/Symmetric/Tests.antt =====
-- Encryption with a toy cipher: the theorems at concrete keys and texts.
use go_svc_extn.Prelude.{
  ℕ, ◌≡◌, refl, ◌∷◌, [], Option, none, some, Bytes, IsBytes, length, length-replicate, replicate,
  codes, ok, true, arith,
}
use go_svc_extn.Base64.{raw_std, encode}
use go_svc_extn.Base64.RoundTrip.{decode-encode}
use go_svc_extn.Crypto.Symmetric.{
  Primitives, IsLawful, is_key_size, generate_key, encrypt_with_key, decrypt_with_key,
}
use go_svc_extn.Crypto.Symmetric.RoundTrip.{decrypt_with_key-encrypt_with_key}

abbrev unlock : Bytes → Option Bytes
unlock [] = none
unlock (_ ∷ plain) = some plain

-- The toy cipher puts one byte in front, and the toy random source yields sevens.
abbrev toy : Primitives
toy = record {
  random = λ n. some (replicate n 7);
  seal = λ key nonce plain. 0 ∷ plain;
  unseal = λ key nonce sealed. unlock sealed;
}

sevens-IsBytes : (n : ℕ) → IsBytes (replicate n 7)
sevens-IsBytes ℕ.zero = tt
sevens-IsBytes (ℕ.suc n) = (omega arith, sevens-IsBytes n)

sevens : (n : ℕ) (b : Bytes) → toy.random n ≡ some b → (length b ≡ n) × IsBytes b
sevens n b e =
    let same : replicate n 7 ≡ b = cc in rw (← same) (length-replicate n 7, sevens-IsBytes n)

toy-IsLawful : IsLawful toy
toy-IsLawful = record {
  random_bytes = sevens;
  seal_bytes = λ key nonce plain h. (omega arith, h);
  unseal-seal = λ key nonce plain h k. refl;
}

abbrev key_bytes : Bytes
key_bytes = replicate 16 7

abbrev key : Bytes
key = encode raw_std key_bytes

sixteen : is_key_size (length key_bytes) ≡ true
unfolding is_key_size
sixteen = refl

decrypt_with_key-encrypt_with_key_example :
    (cipher : Bytes) × (encrypt_with_key toy key (codes "pay 5") ≡ ok cipher)
    × (decrypt_with_key toy key cipher ≡ ok (codes "pay 5"))
decrypt_with_key-encrypt_with_key_example =
    decrypt_with_key-encrypt_with_key toy toy-IsLawful key key_bytes (replicate 12 7)
      (codes "pay 5") (decode-encode raw_std key_bytes (sevens-IsBytes 16)) sixteen refl
      (omega arith)

generated : generate_key toy ≡ ok (encode raw_std (replicate 32 7))
unfolding generate_key
generated = refl
