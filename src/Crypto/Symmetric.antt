-- ===== src/Crypto/Symmetric.antt =====
-- `GenerateAesKey`, `EncryptWithKey` and `DecryptWithKey` of pkg/crypto/crypto_util.go. The system's
-- random source and the AES-GCM primitive are parameters.
pub mod RoundTrip
mod Tests
use go_svc_extn.Prelude.{
  ℕ, ◌≡◌, Bool, true, ◌||◌, Option, none, some, List, [], ◌∷◌, ◌++◌, Bytes, IsBytes, length, ◌==◌,
  if◌then◌else◌, Result, ok, err, panic, ◌>>=◌, ◌>>◌, or_err,
}
use go_svc_extn.Base64.{raw_std, encode, decode}
use go_svc_extn.Strings.{split_double}

pub record Primitives : Type 0 where
  -- `rand.Read` into `n` bytes.
  pub random : ℕ → Option Bytes
  -- `Seal` and `Open` of GCM over AES: the key, the nonce, the text. No additional data is given.
  pub seal : Bytes → Bytes → Bytes → Bytes
  pub unseal : Bytes → Bytes → Bytes → Option Bytes

-- `aes.NewCipher` takes keys of 16, 24 and 32 bytes.
pub is_key_size : ℕ → Bool
is_key_size n = n == 16 || n == 24 || n == 32

abbrev pub nonce_size : ℕ
nonce_size = 12

-- What their documentation promises.
pub record IsLawful (p : Primitives) : Type 0 where
  pub random_bytes : (n : ℕ) (b : Bytes) → p.random n ≡ some b → (length b ≡ n) × IsBytes b
  pub seal_bytes : (key nonce plain : Bytes) → IsBytes plain → IsBytes (p.seal key nonce plain)
  pub unseal-seal :
      (key nonce plain : Bytes)
      → is_key_size (length key) ≡ true
      → length nonce ≡ nonce_size
      → p.unseal key nonce (p.seal key nonce plain) ≡ some plain

pub data Error : Type 0 where
  corrupt_base64 bad_key_size no_randomness bad_format authentication_failed : Error

pub check_key : Bytes → Result Error (Unit {0})
unfolding is_key_size
check_key key = if is_key_size (length key) then ok tt else err bad_key_size

-- The text between the nonce and the sealed bytes, "$$".
abbrev pub dollar : ℕ
dollar = b'$'

module _ (p : Primitives) where
  -- `generateKey`, and `GenerateAesKey`
  pub generate_key : Result Error Bytes
  generate_key = do key ← or_err (p.random 32) no_randomness; ok (encode raw_std key)

  -- `EncryptWithKey`
  pub encrypt_with_key : Bytes → Bytes → Result Error Bytes
  unfolding check_key
  encrypt_with_key key plain = do
    key_bytes ← or_err (decode raw_std key) corrupt_base64
    check_key key_bytes
    nonce ← or_err (p.random nonce_size) no_randomness
    ok (encode raw_std nonce ++ dollar ∷ dollar ∷ encode raw_std (p.seal key_bytes nonce plain))

  -- GCM's `Open` panics at a nonce of another size.
  pub open_sealed : Bytes → Bytes → Bytes → Result Error Bytes
  open_sealed key nonce sealed =
      if length nonce == nonce_size
      then or_err (p.unseal key nonce sealed) authentication_failed
      else panic

  pub decrypt_parts : Bytes → List Bytes → Result Error Bytes
  unfolding check_key open_sealed
  decrypt_parts key (first ∷ second ∷ []) = do
    nonce ← or_err (decode raw_std first) corrupt_base64
    sealed ← or_err (decode raw_std second) corrupt_base64
    check_key key
    open_sealed key nonce sealed
  decrypt_parts key _ = err bad_format

  -- `DecryptWithKey`
  pub decrypt_with_key : Bytes → Bytes → Result Error Bytes
  unfolding decrypt_parts
  decrypt_with_key key cipher_text = do
    key_bytes ← or_err (decode raw_std key) corrupt_base64
    decrypt_parts key_bytes (split_double cipher_text dollar)
