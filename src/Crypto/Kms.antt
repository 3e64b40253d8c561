-- ===== src/Crypto/Kms.antt =====
-- pkg/crypto/encdec: the two KMS clients and the handler over Tink. Tink's keysets and AEADs are
-- parameters, as is the random source.
pub mod Keys
pub mod Registry
mod Tests
use go_svc_extn.Prelude.{
  ℕ, ◌+◌, Bool, true, false, ◌&&◌, Option, none, some, List, [], ◌∷◌, ◌++◌, Bytes, codes, leb, ◌==◌,
  Dict, lookup, insert, if◌then◌else◌, Result, ok, err, ◌>>=◌, ◌>>◌, or_err,
}
use go_svc_extn.Base64.{raw_url, encode, decode}
use go_svc_extn.Strings.{has_prefix, trim_prefix}

-- What is called of Tink, of one run of the program.
pub record Tink (Keyset Aead World : Type 0) : Type 0 where
  -- `keyset.NewHandle` for AES256-GCM: a fresh key.
  pub new_handle : World → Option Keyset × World
  -- `insecurecleartextkeyset.Write` and `testkeyset.Read`, in binary.
  pub write_cleartext : Keyset → Option Bytes
  pub read_cleartext : Bytes → Option Keyset
  -- `keyset.ReadWithAssociatedData`: the encrypted keyset, the key-encryption AEAD, the data.
  pub read_with_associated_data : Bytes → Aead → Bytes → Option Keyset
  -- `aead.New`
  pub new_aead : Keyset → Option Aead
  -- `Encrypt` draws a nonce: the state of the world.
  pub encrypt : Aead → Bytes → Bytes → World → Option Bytes × World
  pub decrypt : Aead → Bytes → Bytes → Option Bytes
  -- `rand.Read` into 32 bytes.
  pub random_key : World → Option Bytes × World

pub data Error : Type 0 where
  bad_uri_prefix unsupported_uri corrupt_base64 bad_keyset no_handle no_aead key_not_found : Error
  no_randomness encryption_failed decryption_failed hashing_failed : Error

abbrev pub caas_kms_prefix : Bytes
caas_kms_prefix = codes "caas-kms://"

abbrev pub custom_kms_prefix : Bytes
custom_kms_prefix = codes "custom-kms://"

abbrev lower : ℕ → ℕ
lower c = if leb b'A' c && leb c b'Z' then c + 32 else c

-- `strings.ToLower`, as far as the test of the prefix sees it: letters of ASCII, and the sign for Kelvin,
-- which becomes `k`. No other letter becomes one of the prefix.
pub to_lower : Bytes → Bytes
to_lower [] = []
to_lower (a ∷ []) = lower a ∷ []
to_lower (a ∷ b ∷ []) = lower a ∷ lower b ∷ []
to_lower (a ∷ b ∷ c ∷ s) =
    let short = to_lower (b ∷ c ∷ s) in
    let long = to_lower s in
    if a == 0xE2 && b == 0x84 && c == 0xAA then b'k' ∷ long else lower a ∷ short

-- `NewCaasKmsClient`: the client is its prefix.
pub new_caas_kms_client : Bytes → Result Error Bytes
unfolding to_lower
new_caas_kms_client uri_prefix =
    if has_prefix (to_lower uri_prefix) caas_kms_prefix then ok uri_prefix else err bad_uri_prefix

-- `caasKmsClient.Supported`
pub caas_supported : Bytes → Bytes → Bool
caas_supported uri_prefix key_uri = has_prefix key_uri uri_prefix

-- `CustomKMSClient.Supported`
pub custom_supported : Bytes → Bool
custom_supported key_uri = has_prefix key_uri custom_kms_prefix

pub record TinkConfiguration : Type 0 where
  pub kek_uri : Bytes
  pub kek_uri_prefix : Bytes
  pub key_set_data : Bytes
  pub kek_ad : Bytes

-- `NewCustomKMSClient`
abbrev pub new_custom_kms_client : Dict Bytes
new_custom_kms_client = []

module _ {Keyset Aead World : Type 0} (t : Tink Keyset Aead World) where
  -- `caasKmsClient.GetAEAD`
  pub caas_get_aead : Bytes → Bytes → Result Error Aead
  unfolding caas_supported
  caas_get_aead uri_prefix key_uri =
      if caas_supported uri_prefix key_uri
      then (do
        keyset_data ← or_err (decode raw_url (trim_prefix key_uri uri_prefix)) corrupt_base64
        handle ← or_err (t.read_cleartext keyset_data) bad_keyset
        or_err (t.new_aead handle) no_aead)
      else err unsupported_uri

  -- What is made of a fresh handle.
  pub key_uri_of : Option Keyset → Result Error Bytes
  key_uri_of made = do
    handle ← or_err made no_handle
    text ← or_err (t.write_cleartext handle) bad_keyset
    ok (caas_kms_prefix ++ encode raw_url text)

  -- `NewKeyURI`
  pub new_key_uri : World → Result Error Bytes × World
  unfolding key_uri_of
  new_key_uri w = let (made, after) = t.new_handle w in (key_uri_of made, after)

  -- The AEAD of a fresh handle.
  pub aead_of : Option Keyset → Result Error Aead
  aead_of made = do handle ← or_err made no_handle; or_err (t.new_aead handle) no_aead

  -- `CustomKMSClient.GetAEAD`: the keys are looked up, and not read.
  pub custom_get_aead : Dict Bytes → Bytes → World → Result Error Aead × World
  unfolding custom_supported aead_of
  custom_get_aead keys key_uri w =
      let (made, after) = t.new_handle w in
      if custom_supported key_uri
      then elim (lookup (trim_prefix key_uri custom_kms_prefix) keys) [
        | none ↦ (err key_not_found, w)
        | some _ ↦ (aead_of made, after)
      ]
      else (err unsupported_uri, w)

  -- The key, if one was drawn, is kept under its own base64.
  pub keep_key : Option Bytes → Dict Bytes → Result Error Bytes × Dict Bytes
  keep_key none keys = (err no_randomness, keys)
  keep_key (some key) keys =
      (ok (custom_kms_prefix ++ encode raw_url key), insert (encode raw_url key) key keys)

  -- `CustomKMSClient.CreateKey`
  pub create_key : Dict Bytes → World → (Result Error Bytes × Dict Bytes) × World
  unfolding keep_key
  create_key keys w = let (drawn, after) = t.random_key w in (keep_key drawn keys, after)

  -- `NewTinkCryptoHandler`: the handler is its AEAD.
  pub new_tink_crypto_handler : TinkConfiguration → Result Error Aead
  unfolding new_caas_kms_client caas_get_aead
  new_tink_crypto_handler c = do
    client ← new_caas_kms_client c.kek_uri_prefix
    kek ← caas_get_aead client c.kek_uri
    encrypted ← or_err (decode raw_url c.key_set_data) corrupt_base64
    handle ← or_err (t.read_with_associated_data encrypted kek c.kek_ad) bad_keyset
    or_err (t.new_aead handle) no_aead

  -- `TinkCryptoHandler.Encrypt` and `Decrypt`
  unfoldable pub handler_encrypt : Aead → Bytes → Bytes → World → Result Error Bytes × World
  handler_encrypt aead plain ad w =
      let (cipher, after) = t.encrypt aead plain ad w in (or_err cipher encryption_failed, after)

  unfoldable pub handler_decrypt : Aead → Bytes → Bytes → Result Error Bytes
  handler_decrypt aead cipher ad = or_err (t.decrypt aead cipher ad) decryption_failed
