-- ===== src/Crypto/Service/Tests.antt =====
-- A service whose AEAD writes the text after a byte, and whose SipHash is two bytes.
use go_svc_extn.Prelude.{
  ℕ, suc, ◌≡◌, refl, Bool, true, false, Option, none, some, [], ◌∷◌, Bytes, IsBytes, codes, ok,
  arith, eq_bytes, eq_bytes_iff, sym, ap,
}
use mathlib.Core.Path.{subst}
use go_svc_extn.Base64.{encode, char}
use go_svc_extn.Hash.{Kdfs, matches}
use go_svc_extn.Hash.Generate.{siphash24}
use go_svc_extn.Crypto.Kms.{Tink, handler_encrypt}
use go_svc_extn.Crypto.Service.{CryptoUtil, armored, encrypt, decrypt}
use go_svc_extn.Crypto.Service.Aliases.{IsAead, decrypt-encrypt_text}

-- One text is encrypted, as one byte.
abbrev sealed : Bool → Option Bytes
sealed true = some (7 ∷ [])
sealed false = none

abbrev tink : Tink (Unit {0}) (Unit {0}) ℕ
tink = record {
  new_handle = λ w. (none, w);
  write_cleartext = λ h. none;
  read_cleartext = λ s. none;
  read_with_associated_data = λ s kek ad. none;
  new_aead = λ h. none;
  encrypt = λ a plain ad w. (sealed (eq_bytes plain (codes "p")), suc w);
  decrypt = λ a cipher ad. some (codes "p");
  random_key = λ w. (none, w);
}

sealed_bytes : (b : Bool) (s : Bytes) → sealed b ≡ some s → IsBytes s × (b ≡ true)
sealed_bytes true s e = let same : 7 ∷ [] ≡ s = cc in (subst IsBytes same (omega arith), refl)
sealed_bytes false s e = absurd cc

tink-IsAead : IsAead tink
tink-IsAead = record {
  cipher_bytes = λ a plain ad cipher w e. (sealed_bytes (eq_bytes plain (codes "p")) cipher e).0;
  decrypt-encrypt = λ a plain ad cipher w e. ap some (
      sym (
        (eq_bytes_iff plain (codes "p")).0 (sealed_bytes (eq_bytes plain (codes "p")) cipher e).1));
}

abbrev service : CryptoUtil (Unit {0})
service = record { hash_provider = siphash24 (codes "key"); crypto_provider = tt }

encrypted : (encrypt tink service (codes "p") [] 0).0 ≡ ok (codes "Bw")
unfolding encrypt handler_encrypt armored eq_bytes encode char
encrypted = refl

decrypt-encrypt_text_example : decrypt tink service (codes "Bw") [] ≡ ok (codes "p")
decrypt-encrypt_text_example =
    decrypt-encrypt_text tink tink-IsAead service (codes "p") [] (codes "Bw") 0 encrypted

abbrev kdfs : Kdfs
kdfs = record {
  id_key = λ password salt t m p l. none;
  i_key = λ password salt t m p l. none;
  argon2_version = 19;
  kb = 1024;
  pbkdf2_key = λ password salt i l prf. [];
  scrypt_key = λ password salt n r p l. none;
  bcrypt_compare = λ hash password. matches;
  bcrypt_generate = λ password cost. none;
  sha1 = λ raw. [];
  sha256 = λ raw. [];
  sha512 = λ raw. [];
  md5 = λ raw. [];
  crypt_decode = λ hash. none;
  aes_ctr = λ key. none;
  siphash = λ key text. some (0 ∷ 0 ∷ []);
  random = λ n. none;
}
