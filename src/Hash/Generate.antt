-- ===== src/Hash/Generate.antt =====
-- The hashers of pkg/crypto/hash/hasher_*.go: `Generate` and `Understands`.
pub mod Scanned
pub mod Verified
pub mod Pbkdf2Hash
pub mod Argon2Hash
pub mod ScryptHash
pub mod BcryptHash
pub mod Understood
use go_svc_extn.Prelude.{
  or_panic, ℕ, ◌/◌, ◌%◌, Bool, Option, none, some, List, [], ◌∷◌, ◌++◌, Bytes, codes, Result, ok,
  err, panic, ◌>>=◌, ◌>>◌, or_err,
}
use go_svc_extn.Base64.{raw_std, std, encode}
use go_svc_extn.Strconv.{format_uint}
use go_svc_extn.Hash.{
  Kdfs, Error, kdf_failed, no_randomness, Argon2Configuration, Pbkdf2, ScryptConfiguration,
}
use go_svc_extn.Hash.Formats.{
  dollar, is_argon2id_hash, is_pbkdf2_hash, is_scrypt_hash, is_bcrypt_hash, is_sip24_hash,
}
use go_svc_extn.Hash.Scan.{u32}
use go_svc_extn.Hash.Compare.{prf_name, validate_bcrypt_password_length}

-- `i=%d,l=%d`
pub print_pbkdf2 : Pbkdf2 → Bytes
print_pbkdf2 h =
    codes "i=" ++ (format_uint h.iterations ++ (codes ",l=" ++ format_uint h.key_length))

-- `m=%d,t=%d,p=%d`, with the memory in KB.
pub print_argon2 : ℕ → Argon2Configuration → Bytes
print_argon2 memory c =
    codes "m="
    ++ (format_uint memory
        ++ (codes ",t="
            ++ (format_uint c.iterations ++ (codes ",p=" ++ format_uint c.parallelism))))

-- `ln=%d,r=%d,p=%d`
pub print_scrypt : ScryptConfiguration → Bytes
print_scrypt c =
    codes "ln="
    ++ (format_uint c.cost
        ++ (codes ",r=" ++ (format_uint c.block ++ (codes ",p=" ++ format_uint c.parallelization))))

module _ (k : Kdfs) where
  -- `Pbkdf2.Generate`
  pub generate_pbkdf2 : Pbkdf2 → Bytes → Result Error Bytes
  unfolding prf_name print_pbkdf2
  generate_pbkdf2 h password = do
    salt ← or_err (k.random h.salt_length) no_randomness
    let key = k.pbkdf2_key password salt h.iterations h.key_length (prf_name h.algorithm)
    ok (
        dollar ∷ (codes "pbkdf2-" ++ h.algorithm)
        ++ (dollar ∷ print_pbkdf2 h
            ++ (dollar ∷ encode raw_std salt ++ (dollar ∷ encode raw_std key))))

  -- `toKB`
  pub to_kb : ℕ → ℕ
  to_kb memory = memory / k.kb % u32

  -- `Argon2.Generate`
  pub generate_argon2 : Argon2Configuration → Bytes → Result Error Bytes
  unfolding to_kb print_argon2
  generate_argon2 c password = do
    salt ← or_err (k.random c.salt_length) no_randomness
    hash ←
        or_panic (k.id_key password salt c.iterations (to_kb c.memory) c.parallelism c.key_length)
    ok (
        dollar ∷ codes "argon2id"
        ++ (dollar ∷ (codes "v=" ++ format_uint k.argon2_version)
            ++ (dollar ∷ print_argon2 (to_kb c.memory) c
                ++ (dollar ∷ encode raw_std salt ++ (dollar ∷ encode raw_std hash)))))

  -- `Scrypt.Generate`
  pub generate_scrypt : ScryptConfiguration → Bytes → Result Error Bytes
  unfolding print_scrypt
  generate_scrypt c password = do
    salt ← or_err (k.random c.salt_length) no_randomness
    hash ←
        or_err (k.scrypt_key password salt c.cost c.block c.parallelization c.key_length) kdf_failed
    ok (
        dollar ∷ codes "scrypt"
        ++ (dollar ∷ print_scrypt c ++ (dollar ∷ encode std salt ++ (dollar ∷ encode std hash))))

  -- `Bcrypt.Generate`. The configured cost is not read.
  unfoldable pub generate_bcrypt : ℕ → Bytes → Result Error Bytes
  generate_bcrypt cost password = do
    validate_bcrypt_password_length password
    or_err (k.bcrypt_generate password 10) kdf_failed

  -- `SipHash24.Generate`, of a hasher with the key.
  unfoldable pub generate_siphash24 : Bytes → Bytes → Result Error Bytes
  generate_siphash24 key plain = do hash ← or_panic (k.siphash key plain); ok (encode std hash)

-- A hasher: the implementations of the interface `Hasher`.
pub data Hasher : Type 0 where
  argon2 : Argon2Configuration → Hasher
  pbkdf2 : Pbkdf2 → Hasher
  scrypt : ScryptConfiguration → Hasher
  bcrypt : ℕ → Hasher
  siphash24 : Bytes → Hasher

pub generate : Kdfs → Hasher → Bytes → Result Error Bytes
unfolding generate_argon2 generate_pbkdf2 generate_scrypt generate_bcrypt generate_siphash24
generate k (argon2 c) = generate_argon2 k c
generate k (pbkdf2 h) = generate_pbkdf2 k h
generate k (scrypt c) = generate_scrypt k c
generate k (bcrypt cost) = generate_bcrypt k cost
generate k (siphash24 key) = generate_siphash24 k key

pub understands : Hasher → Bytes → Bool
understands (argon2 _) = is_argon2id_hash
understands (pbkdf2 _) = is_pbkdf2_hash
understands (scrypt _) = is_scrypt_hash
understands (bcrypt _) = is_bcrypt_hash
understands (siphash24 _) = is_sip24_hash
