-- ===== src/Crypto/Service.antt =====
-- `CryptoUtil` of pkg/crypto/crypto_util.go: aliases and encryption, over a hasher and a handler.
pub mod Aliases
mod Tests
use go_svc_extn.Prelude.{
  Bool, true, false, Option, none, some, List, [], ◌∷◌, Bytes, is_empty, eq_bytes, if◌then◌else◌,
  Result, ok, err, panic, ◌>>=◌, or_err,
}
use go_svc_extn.Base64.{raw_std, encode, decode}
use go_svc_extn.Hash.{Kdfs}
use go_svc_extn.Hash.Generate.{Hasher, siphash24, generate}
use go_svc_extn.Crypto.Kms.{
  Tink, Error, hashing_failed, corrupt_base64, TinkConfiguration, new_tink_crypto_handler,
  handler_encrypt, handler_decrypt,
}

pub record CryptoConfig : Type 0 where
  pub kms_uri : Bytes
  pub kms_uri_prefix : Bytes
  pub keyset_data : Bytes
  pub hmac_key : Bytes
  pub kek_ad : Bytes

pub record CryptoUtil (Aead : Type 0) : Type 0 where
  pub hash_provider : Hasher
  pub crypto_provider : Aead

-- The hasher's error, as one of the service.
pub hashed {ℓ} : {E : Type ℓ} → Result E Bytes → Result Error Bytes
hashed (ok hash) = ok hash
hashed (err e) = err hashing_failed
hashed panic = panic

-- `CreateAlias`
pub create_alias : {Aead : Type 0} → Kdfs → CryptoUtil Aead → Bytes → Result Error Bytes
unfolding hashed
create_alias k u plain = if is_empty plain then ok [] else hashed (generate k u.hash_provider plain)

-- `CompareHash`
pub compare_hash : {Aead : Type 0} → Kdfs → CryptoUtil Aead → Bytes → Bytes → Result Error Bool
unfolding create_alias
compare_hash k u plain stored = do new ← create_alias k u plain; ok (eq_bytes stored new)

module _ {Keyset Aead World : Type 0} (t : Tink Keyset Aead World) where
  -- `NewCryptoUtil`
  pub new_crypto_util : CryptoConfig → Result Error (CryptoUtil Aead)
  new_crypto_util cfg = do
    provider ← new_tink_crypto_handler t record {
      kek_uri = cfg.kms_uri;
      kek_uri_prefix = cfg.kms_uri_prefix;
      key_set_data = cfg.keyset_data;
      kek_ad = cfg.kek_ad;
    }
    ok record { hash_provider = siphash24 cfg.hmac_key; crypto_provider = provider }

  -- The cipher text of a reply, in base64.
  pub armored : Result Error Bytes → Result Error Bytes
  armored reply = do cipher ← reply; ok (encode raw_std cipher)

  -- `Encrypt`
  unfoldable pub encrypt : CryptoUtil Aead → Bytes → Bytes → World → Result Error Bytes × World
  unfolding armored
  encrypt u plain ad w =
      let (reply, after) = handler_encrypt t u.crypto_provider plain ad w in (armored reply, after)

  -- `Decrypt`
  pub decrypt : CryptoUtil Aead → Bytes → Bytes → Result Error Bytes
  decrypt u cipher_text ad = do
    cipher ← or_err (decode raw_std cipher_text) corrupt_base64
    handler_decrypt t u.crypto_provider cipher ad
