-- ===== src/Hash.antt =====
-- pkg/crypto/hash: the comparison of passwords with hashes of many formats, and the hashers that make
-- them. The key derivations, the digests, bcrypt and the crypt decoder are parameters.
pub mod Formats
pub mod Scan
pub mod Decode
pub mod Salting
pub mod Compare
pub mod Generate
mod Tests
mod SaltedTests
use go_svc_extn.Prelude.{ℕ, Bool, List, Bytes, Option}

-- What `bcrypt.CompareHashAndPassword` answers.
pub data BcryptAnswer : Type 0 where
  matches mismatches bcrypt_failed : BcryptAnswer

-- The packages that the comparison and the hashers call.
pub record Kdfs : Type 0 where
  -- `argon2.IDKey` and `argon2.Key`: the password, the salt, time, memory, threads, the key's length.
  -- `none`: they panic.
  pub id_key : Bytes → Bytes → ℕ → ℕ → ℕ → ℕ → Option Bytes
  pub i_key : Bytes → Bytes → ℕ → ℕ → ℕ → ℕ → Option Bytes
  pub argon2_version : ℕ
  -- `bytesize.KB`
  pub kb : ℕ
  -- `pbkdf2.Key`: the password, the salt, iterations, the key's length, and the hash function by its
  -- constructor's name.
  pub pbkdf2_key : Bytes → Bytes → ℕ → ℕ → Bytes → Bytes
  -- `scrypt.Key`: the password, the salt, N, r, p, the key's length. `none` is an error.
  pub scrypt_key : Bytes → Bytes → ℕ → ℕ → ℕ → ℕ → Option Bytes
  -- `bcrypt.CompareHashAndPassword` (the hash first) and `bcrypt.GenerateFromPassword`.
  pub bcrypt_compare : Bytes → Bytes → BcryptAnswer
  pub bcrypt_generate : Bytes → ℕ → Option Bytes
  pub sha1 : Bytes → Bytes
  pub sha256 : Bytes → Bytes
  pub sha512 : Bytes → Bytes
  pub md5 : Bytes → Bytes
  -- `CryptDecoder.Decode`, and `MatchBytes` of what it decodes.
  pub crypt_decode : Bytes → Option (Bytes → Bool)
  -- `aes.NewCipher` of a key, and CTR mode under it: the initial vector, then the text.
  pub aes_ctr : Bytes → Option (Bytes → Bytes → Bytes)
  -- `siphash.New` of a key, and `Sum`. `none`: it panics.
  pub siphash : Bytes → Bytes → Option Bytes
  -- `rand.Read` into `n` bytes.
  pub random : ℕ → Option Bytes

-- `ErrUnknownHashAlgorithm`, `ErrMismatchedHashAndPassword`, `ErrInvalidHash`, `ErrIncompatibleVersion`;
-- the password that is too long for bcrypt; and the errors of the packages that are called.
pub data Error : Type 0 where
  unknown_hash_algorithm mismatched_hash_and_password invalid_hash incompatible_version : Error
  password_too_long bad_scan corrupt_base64 undecodable_crypt kdf_failed no_randomness : Error

pub record Argon2Configuration : Type 0 where
  pub parallelism : ℕ
  pub memory : ℕ
  pub iterations : ℕ
  pub salt_length : ℕ
  pub key_length : ℕ

pub record Pbkdf2 : Type 0 where
  pub algorithm : Bytes
  pub iterations : ℕ
  pub salt_length : ℕ
  pub key_length : ℕ

pub record ScryptConfiguration : Type 0 where
  pub cost : ℕ
  pub block : ℕ
  pub parallelization : ℕ
  pub salt_length : ℕ
  pub key_length : ℕ
