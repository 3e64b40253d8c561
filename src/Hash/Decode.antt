-- ===== src/Hash/Decode.antt =====
-- The decoders of hash_comparator.go: the parameters, the salt and the hash out of a text.
pub mod Legacy
use go_svc_extn.Prelude.{
  ℕ, ◌+◌, ◌%◌, ◌^◌, Bool, true, false, not, Option, none, some, List, [], ◌∷◌, Bytes, codes,
  eq_bytes, length, take, drop, ltb, ◌==◌, if◌then◌else◌, Result, ok, err, panic, ◌>>=◌, ◌>>◌,
  or_err,
}
use go_svc_extn.Prelude.Int.{ℤ, pos, negsuc}
use go_svc_extn.Base64.{Encoding, raw_std, std, strictly, decode}
use go_svc_extn.Sscanf.{sscanf_int}
use go_svc_extn.Hash.Scan.{u8, u32, scan_argon2, scan_pbkdf2, scan_scrypt}
use go_svc_extn.Strings.{split, cut_at}
use go_svc_extn.Hash.{
  Kdfs, Error, invalid_hash, incompatible_version, bad_scan, corrupt_base64, Argon2Configuration,
  Pbkdf2, ScryptConfiguration,
}
use go_svc_extn.Hash.Formats.{dollar}

-- `enc.Strict().DecodeString`
unfoldable pub decode_strict : Encoding → Bytes → Result Error Bytes
decode_strict e s = or_err (decode (strictly e) s) corrupt_base64

unfoldable pub check_version : Kdfs → ℤ → Result Error (Unit {0})
check_version k (pos v) = if v == k.argon2_version then ok tt else err incompatible_version
check_version k (negsuc v) = err incompatible_version

-- What the decoders return: the parameters, the salt, the hash.
abbrev pub Decoded : Type 0 → Type 0
Decoded P = Result Error (P × Bytes × Bytes)

unfoldable pub argon2_parts : Kdfs → List Bytes → Decoded Argon2Configuration
unfolding check_version decode_strict scan_argon2
argon2_parts k (_ ∷ _ ∷ version_part ∷ params ∷ salt_part ∷ hash_part ∷ []) = do
  version ← or_err (sscanf_int (codes "v=") version_part) bad_scan
  check_version k version
  (memory, iterations, parallelism) ← or_err (scan_argon2 params) bad_scan
  salt ← decode_strict raw_std salt_part
  hash ← decode_strict raw_std hash_part
  ok (
    record {
      parallelism = parallelism;
      memory = memory;
      iterations = iterations;
      salt_length = length salt % u8;
      key_length = length hash % u32;
    },
    salt,
    hash,
  )
argon2_parts k _ = err invalid_hash

-- `decodeArgon2idHash`
unfoldable pub decode_argon2id_hash : Kdfs → Bytes → Decoded Argon2Configuration
unfolding argon2_parts
decode_argon2id_hash k encoded = argon2_parts k (split encoded dollar)

unfoldable pub pbkdf2_parts : List Bytes → Decoded Pbkdf2
unfolding decode_strict scan_pbkdf2
pbkdf2_parts (_ ∷ name ∷ params ∷ salt_part ∷ hash_part ∷ []) = do
  (_, algorithm) ← or_err (cut_at name b'-') invalid_hash
  (iterations, _) ← or_err (scan_pbkdf2 params) bad_scan
  salt ← decode_strict raw_std salt_part
  hash ← decode_strict raw_std hash_part
  ok (
    record {
      algorithm = algorithm;
      iterations = iterations;
      salt_length = length salt % u32;
      key_length = length hash % u32;
    },
    salt,
    hash,
  )
pbkdf2_parts _ = err invalid_hash

-- `decodePbkdf2Hash`
unfoldable pub decode_pbkdf2_hash : Bytes → Decoded Pbkdf2
unfolding pbkdf2_parts
decode_pbkdf2_hash encoded = pbkdf2_parts (split encoded dollar)

unfoldable pub scrypt_parts : List Bytes → Decoded ScryptConfiguration
unfolding decode_strict scan_scrypt
scrypt_parts (_ ∷ _ ∷ params ∷ salt_part ∷ hash_part ∷ []) = do
  (cost, block, parallelization) ← or_err (scan_scrypt params) bad_scan
  salt ← decode_strict std salt_part
  hash ← decode_strict std hash_part
  ok (
    record {
      cost = cost;
      block = block;
      parallelization = parallelization;
      salt_length = length salt % u32;
      key_length = length hash % u32;
    },
    salt,
    hash,
  )
scrypt_parts _ = err invalid_hash

-- `decodeScryptHash`
unfoldable pub decode_scrypt_hash : Bytes → Decoded ScryptConfiguration
unfolding scrypt_parts
decode_scrypt_hash encoded = scrypt_parts (split encoded dollar)
