-- ===== src/Crypto/Signature.antt =====
-- pkg/crypto/api_signature_util.go: the signature of an API call and its check. SHA-256 and HMAC are
-- parameters; so is what the database answers.
pub mod Hex
pub mod Headers
pub mod Secrets
pub mod Verify
mod Tests
use go_svc_extn.Prelude.{
  ℕ, ◌+◌, ◌-◌, ◌/◌, ◌%◌, Bool, Option, none, some, List, [], ◌∷◌, ◌++◌, Bytes, codes, is_empty,
  eq_bytes, ltb, if◌then◌else◌, Result, ok, err, panic, Dict, lookup, insert, get,
}
use go_svc_extn.Strings.{split, cut_at}

pub record Digests : Type 0 where
  pub sha256 : Bytes → Bytes
  -- `HmacSha256`: the data, then the key.
  pub hmac_sha256 : Bytes → Bytes → Bytes

abbrev hex_digit : ℕ → ℕ
hex_digit v = if ltb v 10 then b'0' + v else b'a' + (v - 10)

-- `hex.EncodeToString`
pub hex : Bytes → Bytes
hex [] = []
hex (b ∷ s) = hex_digit (b / 16) ∷ hex_digit (b % 16) ∷ hex s

-- One round of `splitKeyValue`; a pair without the inner separator is skipped.
pub add_pair : ℕ → Bytes → Dict Bytes → Dict Bytes
add_pair kv_sep pair result = elim (cut_at pair kv_sep) [
  | none ↦ result
  | some (k, v) ↦ insert k v result
]

pub add_pairs : ℕ → List Bytes → Dict Bytes → Dict Bytes
add_pairs kv_sep [] result = result
add_pairs kv_sep (pair ∷ pairs) result = add_pairs kv_sep pairs (add_pair kv_sep pair result)

-- `splitKeyValue`
pub split_key_value : Bytes → ℕ → ℕ → Dict Bytes
split_key_value s pair_sep kv_sep = add_pairs kv_sep (split s pair_sep) []

module _ (d : Digests) where
  -- `GetSignatureKey`
  pub get_signature_key : Bytes → Bytes → Bytes → Bytes → Bytes
  get_signature_key access_secret_key time_stamp api_name api_version =
      let k_date = d.hmac_sha256 time_stamp access_secret_key in
      let k_version = d.hmac_sha256 api_version k_date in
      let k_api = d.hmac_sha256 api_name k_version in d.hmac_sha256 (codes "@@") k_api

  -- `ComputeSignature`
  pub compute_signature : Bytes → Bytes → Dict Bytes → Bytes
  unfolding get_signature_key
  compute_signature access_secret_key payload headers =
      let timestamp = get (codes "ts") headers in
      let api_name = get (codes "api") headers in
      let api_version = get (codes "ver") headers in
      let channel = get (codes "chnl") headers in
      let user_id = get (codes "usrid") headers in
      let signing_key = get_signature_key access_secret_key timestamp api_name api_version in
      let request = channel ++ (user_id ++ hex (d.sha256 payload)) in
      let string_to_sign = codes "HMAC-SHA256" ++ (timestamp ++ hex (d.sha256 request)) in
      hex (d.hmac_sha256 string_to_sign signing_key)

pub data Error : Type 0 where
  query_failed signature_mismatch : Error

-- `DbAccessSecretProvider`, less its connection.
pub record Provider : Type 0 where
  pub access_keys : Dict Bytes

-- What `Pluck("secret", …)` leaves for a key id: the secret, the empty text if no row has the id, or
-- `none` for a failed query.
abbrev pub Database : Type 0
Database = Bytes → Option Bytes

abbrev remember : Bytes → Bytes → Provider → Provider
remember id secret p =
    if is_empty secret then p else record p { access_keys = insert id secret p.access_keys }

-- `GetAccessSecret`
pub get_access_secret : Database → Provider → Bytes → Result Error Bytes × Provider
get_access_secret db p id = elim (lookup id p.access_keys) [
  | some secret ↦ (ok secret, p)
  | none ↦ elim (db id) [
    | none ↦ (err query_failed, p)
    | some secret ↦ (ok secret, remember id secret p)
  ]
]

-- The access key id that the token header names.
pub access_key_id : Dict Bytes → Bytes
access_key_id tokens =
    get (codes "access-key") (split_key_value (get (codes "creds") tokens) 10 b':')

module _ (d : Digests) where
  pub check_signature : Dict Bytes → Bytes → Bytes → Bytes → Result Error (Unit {0})
  check_signature tokens security_header payload access_secret =
      let headers = split_key_value security_header b'/' b'=' in
      let provided = get (codes "signature") tokens in
      if eq_bytes (compute_signature d access_secret payload headers) provided
      then ok tt
      else err signature_mismatch

  -- `VerifySignature`, over a provider of secrets with a state of its own.
  pub verify_signature {ℓ} :
      {S : Type ℓ}
      → (S → Bytes → Result Error Bytes × S)
      → S
      → Bytes
      → Bytes
      → Bytes
      → Result Error (Unit {0}) × S
  unfolding check_signature access_key_id
  verify_signature provider s token_header security_header payload =
      let tokens = split_key_value token_header b'/' b'=' in
      let (answer, s') = provider s (access_key_id tokens) in
      (
        elim answer [
          | ok secret ↦ check_signature tokens security_header payload secret
          | err e ↦ err e
          | panic ↦ panic
        ],
        s',
      )
