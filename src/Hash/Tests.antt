-- ===== src/Hash/Tests.antt =====
-- Packages that are simple and lawful, and the theorems at concrete passwords.
use go_svc_extn.Prelude.{
  ℕ, zero, suc, if◌then◌else◌, ◌+◌, ◌%◌, ◌≡◌, refl, true, false, none, some, [], ◌∷◌, ◌++◌, Bytes,
  IsBytes, IsByte, codes, length, length-replicate, replicate, eq_bytes, ok, err, ◌⊎◌, ◌↔◌, arith,
}
use mathlib.Core.Path.{subst}
use go_svc_extn.Hash.{
  Kdfs, matches, mismatches, unknown_hash_algorithm, Argon2Configuration, Pbkdf2,
  ScryptConfiguration,
}
use go_svc_extn.Base64.{encode, char}
use go_svc_extn.Hash.Formats.{is_valid_hash_format, is_sip24_hash}
use go_svc_extn.Hash.Compare.{compare_password_hash_constant_time, compare}
use go_svc_extn.Hash.Compare.Unknown.{compare_unknown_iff}
use go_svc_extn.Hash.Compare.Salted.{
  Digest, ssha, ssha256, ssha512, size, digest, salted, compare-salted,
}
use go_svc_extn.Hash.Generate.{
  generate_argon2, generate_pbkdf2, generate_scrypt, generate_siphash24,
}
use go_svc_extn.Hash.Generate.Verified.{IsLawful}
use go_svc_extn.Hash.Generate.Pbkdf2Hash.{compare-generate_pbkdf2, compare_keyless}
use go_svc_extn.Hash.Generate.Argon2Hash.{compare-generate_argon2}
use go_svc_extn.Hash.Generate.ScryptHash.{compare-generate_scrypt}

-- The sum of the bytes, as one byte.
total : Bytes → ℕ
total [] = 0
total (b ∷ s) = (b + total s) % 256

total-IsByte : (s : Bytes) → IsByte (total s)
unfolding total
total-IsByte [] = omega arith
total-IsByte (b ∷ s) = omega arith

replicate-IsBytes : (n b : ℕ) → IsByte b → IsBytes (replicate n b)
replicate-IsBytes zero b h = tt
replicate-IsBytes (suc n) b h = (h, replicate-IsBytes n b h)

-- A key that depends on the password and on the salt.
key : Bytes → Bytes → ℕ → Bytes
key password salt n = replicate n (total (password ++ salt))

key-IsBytes :
    (password salt : Bytes) (n : ℕ)
    → IsBytes (key password salt n) × (length (key password salt n) ≡ n)
unfolding key
key-IsBytes password salt n =
    let b = total (password ++ salt) in
    (replicate-IsBytes n b (total-IsByte (password ++ salt)), length-replicate n b)

abbrev kdfs : Kdfs
kdfs = record {
  id_key = λ password salt t m p l. some (key password salt l);
  i_key = λ password salt t m p l. some (key password salt l);
  argon2_version = 19;
  kb = 1024;
  pbkdf2_key = λ password salt i l prf. key password salt l;
  scrypt_key = λ password salt n r p l. some (key password salt l);
  bcrypt_compare = λ hash password. if eq_bytes hash password then matches else mismatches;
  bcrypt_generate = λ password cost. some password;
  sha1 = λ raw. key raw [] 20;
  sha256 = λ raw. key raw [] 32;
  sha512 = λ raw. key raw [] 64;
  md5 = λ raw. key raw [] 16;
  crypt_decode = λ hash. none;
  aes_ctr = λ aes. some (λ iv text. text);
  siphash = λ secret text. some (0 ∷ 0 ∷ []);
  random = λ n. some (replicate n 7);
}

some_injective : {a b : Bytes} → some a ≡ some b → a ≡ b
some_injective e = cc

kdfs-IsLawful : IsLawful kdfs
kdfs-IsLawful = record {
  random_bytes = λ n b e. subst IsBytes (some_injective e) (replicate-IsBytes n 7 (omega arith));
  pbkdf2_bytes = λ password salt i l prf. key-IsBytes password salt l;
  id_bytes = λ password salt t m p l b e.
      subst (λ c. IsBytes c × (length c ≡ l)) (some_injective e) (key-IsBytes password salt l);
  scrypt_bytes = λ password salt n r p l b e.
      subst (λ c. IsBytes c × (length c ≡ l)) (some_injective e) (key-IsBytes password salt l);
}

abbrev secret : Bytes
secret = codes "secret"

abbrev guess : Bytes
guess = codes "guess"

abbrev salt : Bytes
salt = 7 ∷ 7 ∷ 7 ∷ 7 ∷ []

abbrev sha256_config : ℕ → Pbkdf2
sha256_config l = record {
  algorithm = codes "sha256";
  iterations = 1000;
  salt_length = 4;
  key_length = l;
}

compare-generate_pbkdf2_example :
    (text : Bytes) × (generate_pbkdf2 kdfs (sha256_config 8) secret ≡ ok text)
    × (compare kdfs guess text
        ≡ compare_password_hash_constant_time (key secret salt 8) (key guess salt 8))
compare-generate_pbkdf2_example =
    compare-generate_pbkdf2 kdfs kdfs-IsLawful (sha256_config 8) (codes "256") secret guess salt
      refl (ground arith) (omega arith) (omega arith) refl

compare_keyless_example :
    (text : Bytes) × (generate_pbkdf2 kdfs (sha256_config 0) secret ≡ ok text)
    × (compare kdfs guess text ≡ ok tt)
compare_keyless_example =
    compare_keyless kdfs kdfs-IsLawful (sha256_config 0) (codes "256") secret guess salt refl
      (ground arith) (omega arith) refl refl

abbrev argon2_config : Argon2Configuration
argon2_config = record {
  parallelism = 2;
  memory = 65536;
  iterations = 3;
  salt_length = 4;
  key_length = 8;
}

compare-generate_argon2_example :
    (text : Bytes) × (generate_argon2 kdfs argon2_config secret ≡ ok text)
    × (compare kdfs guess text
        ≡ compare_password_hash_constant_time (key secret salt 8) (key guess salt 8))
compare-generate_argon2_example =
    compare-generate_argon2 kdfs kdfs-IsLawful argon2_config secret guess salt (key secret salt 8)
      (key guess salt 8) (omega arith) (omega arith) (omega arith) (omega arith) refl refl refl

abbrev scrypt_config : ScryptConfiguration
scrypt_config = record {
  cost = 16384;
  block = 8;
  parallelization = 1;
  salt_length = 4;
  key_length = 8;
}

compare-generate_scrypt_example :
    (text : Bytes) × (generate_scrypt kdfs scrypt_config secret ≡ ok text)
    × (compare kdfs guess text
        ≡ compare_password_hash_constant_time (key secret salt 8) (key guess salt 8))
compare-generate_scrypt_example =
    compare-generate_scrypt kdfs kdfs-IsLawful scrypt_config secret guess salt (key secret salt 8)
      (key guess salt 8) (omega arith) (omega arith) (omega arith) (omega arith) refl refl refl

compare_unknown_iff_example :
    (compare kdfs guess (codes "$sip24$x") ≡ err unknown_hash_algorithm) ↔ (
      (is_valid_hash_format (codes "$sip24$x") ≡ false) ⊎ (is_sip24_hash (codes "$sip24$x") ≡ true))
compare_unknown_iff_example = compare_unknown_iff kdfs guess (codes "$sip24$x")

digests :
    (d : Digest) (raw : Bytes) → IsBytes (digest kdfs d raw) × (length (digest kdfs d raw) ≡ size d)
digests ssha raw = key-IsBytes raw [] 20
digests ssha256 raw = key-IsBytes raw [] 32
digests ssha512 raw = key-IsBytes raw [] 64

compare-salted_example :
    compare kdfs guess (salted ssha256 (key (secret ++ salt) [] 32) salt)
    ≡ compare_password_hash_constant_time (key (secret ++ salt) [] 32) (key (guess ++ salt) [] 32)
compare-salted_example =
    compare-salted kdfs digests ssha256 secret guess salt (λ e. cc) (ground arith)

sip_made : generate_siphash24 kdfs secret guess ≡ ok (codes "AAA=")
unfolding generate_siphash24 encode char
sip_made = refl

zeros : (hash : Bytes) → some (0 ∷ 0 ∷ []) ≡ some hash → IsBytes hash
zeros hash e = subst IsBytes (some_injective e) (omega arith)
