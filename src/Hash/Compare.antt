-- ===== src/Hash/Compare.antt =====
-- `Compare` of hash_comparator.go and its cases.
pub mod Dispatch
pub mod Known
pub mod Unknown
pub mod Salted
pub mod Formatted
use go_svc_extn.Prelude.{
  ℕ, zero, suc, ◌%◌, Bool, true, false, Option, none, some, List, [], ◌∷◌, ◌++◌, Bytes, codes,
  eq_bytes, length, replicate, ltb, if◌then◌else◌, Result, ok, err, panic, ◌>>=◌, ◌>>◌, or_err,
  or_panic,
}
use go_svc_extn.Base64.{std, encode}
use go_svc_extn.Strings.{has_prefix, trim_prefix}
use go_svc_extn.Hash.{
  Kdfs, matches, mismatches, bcrypt_failed, Error, unknown_hash_algorithm,
  mismatched_hash_and_password, undecodable_crypt, password_too_long, kdf_failed,
}
use go_svc_extn.Hash.Formats.{
  is_md5_crypt_hash, is_bcrypt_hash, is_sha256_crypt_hash, is_sha512_crypt_hash, is_argon2id_hash,
  is_argon2i_hash, is_pbkdf2_hash, is_scrypt_hash, is_ssha_hash, is_sha_hash,
  is_firebase_scrypt_hash, is_md5_hash,
}
use go_svc_extn.Hash.Salting.{fill}
use go_svc_extn.Hash.Scan.{u32}
use go_svc_extn.Hash.Decode.{decode_argon2id_hash, decode_pbkdf2_hash, decode_scrypt_hash}
use go_svc_extn.Hash.Decode.Legacy.{
  decode_sha_hash, decode_ssha_hash, Firebase, decode_firebase_scrypt_hash, decode_md5_hash,
}

-- A comparison returns nil, returns an error, or panics.
abbrev pub Verdict : Type 0
Verdict = Result Error (Unit {0})

-- `comparePasswordHashConstantTime`
unfoldable pub compare_password_hash_constant_time : Bytes → Bytes → Verdict
compare_password_hash_constant_time hash other =
    if eq_bytes hash other then ok tt else err mismatched_hash_and_password

-- `getPseudorandomFunctionForPbkdf2`: the constructor that a name stands for.
unfoldable pub prf_name : Bytes → Bytes
prf_name alg =
    if eq_bytes alg (codes "sha1")
    then codes "sha1.New"
    else if eq_bytes alg (codes "sha224")
    then codes "sha3.New224"
    else if eq_bytes alg (codes "sha256")
    then codes "sha256.New"
    else if eq_bytes alg (codes "sha384")
    then codes "sha3.New384"
    else if eq_bytes alg (codes "sha512")
    then codes "sha512.New"
    else codes "sha256.New"

-- `validateBcryptPasswordLength`
unfoldable pub validate_bcrypt_password_length : Bytes → Verdict
validate_bcrypt_password_length password =
    if ltb 72 (length password) then err password_too_long else ok tt

module _ (k : Kdfs) where
  -- `compareCryptHelper`
  pub compare_crypt_helper : Bytes → Bytes → Verdict
  compare_crypt_helper password hash = elim (k.crypt_decode hash) [
    | none ↦ err undecodable_crypt
    | some match_bytes ↦ if match_bytes password then ok tt else err mismatched_hash_and_password
  ]

  pub compare_md5_crypt : Bytes → Bytes → Verdict
  compare_md5_crypt password hash =
      compare_crypt_helper password (codes "$1" ++ trim_prefix hash (codes "$md5-crypt"))

  pub compare_sha256_crypt : Bytes → Bytes → Verdict
  compare_sha256_crypt password hash =
      compare_crypt_helper password (codes "$5" ++ trim_prefix hash (codes "$sha256-crypt"))

  pub compare_sha512_crypt : Bytes → Bytes → Verdict
  compare_sha512_crypt password hash =
      compare_crypt_helper password (codes "$6" ++ trim_prefix hash (codes "$sha512-crypt"))

  unfoldable pub compare_bcrypt : Bytes → Bytes → Verdict
  unfolding validate_bcrypt_password_length
  compare_bcrypt password hash = do
    validate_bcrypt_password_length password
    elim (k.bcrypt_compare hash password) [
      | matches ↦ ok tt
      | mismatches ↦ err mismatched_hash_and_password
      | bcrypt_failed ↦ err kdf_failed
    ]

  unfoldable pub compare_argon2id : Bytes → Bytes → Verdict
  unfolding decode_argon2id_hash compare_password_hash_constant_time
  compare_argon2id password encoded = do
    (p, salt, hash) ← decode_argon2id_hash k encoded
    other ←
        or_panic (k.id_key password salt p.iterations (p.memory % u32) p.parallelism p.key_length)
    compare_password_hash_constant_time hash other

  pub compare_argon2i : Bytes → Bytes → Verdict
  unfolding decode_argon2id_hash compare_password_hash_constant_time
  compare_argon2i password encoded = do
    (p, salt, hash) ← decode_argon2id_hash k encoded
    other ←
        or_panic (k.i_key password salt p.iterations (p.memory % u32) p.parallelism p.key_length)
    compare_password_hash_constant_time hash other

  unfoldable pub compare_pbkdf2 : Bytes → Bytes → Verdict
  unfolding decode_pbkdf2_hash compare_password_hash_constant_time prf_name
  compare_pbkdf2 password encoded = do
    (p, salt, hash) ← decode_pbkdf2_hash encoded
    compare_password_hash_constant_time hash
        (k.pbkdf2_key password salt p.iterations p.key_length (prf_name p.algorithm))

  unfoldable pub compare_scrypt : Bytes → Bytes → Verdict
  unfolding decode_scrypt_hash compare_password_hash_constant_time
  compare_scrypt password encoded = do
    (p, salt, hash) ← decode_scrypt_hash encoded
    other ←
        or_err (k.scrypt_key password salt p.cost p.block p.parallelization p.key_length) kdf_failed
    compare_password_hash_constant_time hash other

  -- The digest that a hasher's name stands for.
  pub sha_digest : Bytes → Bytes → Option Bytes
  sha_digest hasher raw =
      if eq_bytes hasher (codes "sha1")
      then some (k.sha1 raw)
      else if eq_bytes hasher (codes "sha256")
      then some (k.sha256 raw)
      else if eq_bytes hasher (codes "sha512")
      then some (k.sha512 raw)
      else none

  -- `compareSHAHelper`
  pub compare_sha_helper : Bytes → Bytes → Bytes → Verdict
  unfolding sha_digest compare_password_hash_constant_time
  compare_sha_helper hasher raw hash = do
    sha ← or_err (sha_digest hasher raw) mismatched_hash_and_password
    compare_password_hash_constant_time (encode std hash) (encode std sha)

  pub compare_ssha : Bytes → Bytes → Verdict
  unfolding decode_ssha_hash compare_sha_helper
  compare_ssha password encoded = do
    (hasher, salt, hash) ← decode_ssha_hash encoded
    compare_sha_helper hasher (password ++ salt) hash

  pub compare_sha : Bytes → Bytes → Verdict
  unfolding decode_sha_hash compare_sha_helper fill
  compare_sha password encoded = do
    (hasher, pf, salt, hash) ← decode_sha_hash encoded
    compare_sha_helper hasher (fill salt password pf) hash

  pub compare_firebase_scrypt : Bytes → Bytes → Verdict
  unfolding decode_firebase_scrypt_hash compare_password_hash_constant_time
  compare_firebase_scrypt password encoded = do
    f ← decode_firebase_scrypt_hash encoded
    key ←
        or_err
          (k.scrypt_key password (f.salt ++ f.salt_separator) f.config.cost f.config.block
            f.config.parallelization 32)
          kdf_failed
    stream ← or_err (k.aes_ctr key) kdf_failed
    compare_password_hash_constant_time f.hash (stream (replicate 16 0) f.signer_key)

  -- What `CompareMD5` digests.
  pub md5_argument : Bytes → Bytes → Option Bytes → Bytes
  unfolding fill
  md5_argument password pf none = password
  md5_argument password pf (some salt) = fill salt password pf

  pub compare_md5 : Bytes → Bytes → Verdict
  unfolding decode_md5_hash compare_password_hash_constant_time md5_argument
  compare_md5 password encoded = do
    (pf, salt, hash) ← decode_md5_hash encoded
    compare_password_hash_constant_time hash (k.md5 (md5_argument password pf salt))

  -- `Compare`
  unfoldable pub compare : Bytes → Bytes → Verdict
  compare password hash =
      if is_md5_crypt_hash hash
      then compare_md5_crypt password hash
      else if is_bcrypt_hash hash
      then compare_bcrypt password hash
      else if is_sha256_crypt_hash hash
      then compare_sha256_crypt password hash
      else if is_sha512_crypt_hash hash
      then compare_sha512_crypt password hash
      else if is_argon2id_hash hash
      then compare_argon2id password hash
      else if is_argon2i_hash hash
      then compare_argon2i password hash
      else if is_pbkdf2_hash hash
      then compare_pbkdf2 password hash
      else if is_scrypt_hash hash
      then compare_scrypt password hash
      else if is_ssha_hash hash
      then compare_ssha password hash
      else if is_sha_hash hash
      then compare_sha password hash
      else if is_firebase_scrypt_hash hash
      then compare_firebase_scrypt password hash
      else if is_md5_hash hash
      then compare_md5 password hash
      else err unknown_hash_algorithm
