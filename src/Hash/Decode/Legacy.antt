-- ===== src/Hash/Decode/Legacy.antt =====
-- The decoders of hash_comparator.go for SHA, SSHA, Firebase scrypt and MD5.
use go_svc_extn.Prelude.{
  ℕ, ◌+◌, ◌%◌, ◌^◌, Option, none, some, List, [], ◌∷◌, Bytes, codes, eq_bytes, length, take, drop,
  ltb, if◌then◌else◌, Result, ok, err, ◌>>=◌, or_err, or_panic,
}
use go_svc_extn.Base64.{std, decode}
use go_svc_extn.Sscanf.{sscanf_word}
use go_svc_extn.Strings.{split, cut_at}
use go_svc_extn.Hash.{Error, invalid_hash, bad_scan, ScryptConfiguration}
use go_svc_extn.Hash.Formats.{dollar}
use go_svc_extn.Hash.Scan.{u32, scan_scrypt}
use go_svc_extn.Hash.Decode.{decode_strict}

-- `pf=%s`, and the base64 in it.
unfoldable pub decode_pf : Bytes → Result Error Bytes
unfolding decode_strict
decode_pf s = do encoded ← or_err (sscanf_word (codes "pf=") s) bad_scan; decode_strict std encoded

-- The name of the hasher, the salting format, the salt and the hash.
unfoldable pub sha_parts : List Bytes → Result Error (Bytes × Bytes × Bytes × Bytes)
unfolding decode_pf decode_strict
sha_parts (_ ∷ hasher ∷ pf_part ∷ salt_part ∷ hash_part ∷ []) = do
  pf ← decode_pf pf_part
  salt ← decode_strict std salt_part
  hash ← decode_strict std hash_part
  ok (hasher, pf, salt, hash)
sha_parts _ = err invalid_hash

-- `decodeSHAHash`
unfoldable pub decode_sha_hash : Bytes → Result Error (Bytes × Bytes × Bytes × Bytes)
unfolding sha_parts
decode_sha_hash encoded = sha_parts (split encoded dollar)

-- The submatch of `\{([^}]*)\}`.
unfoldable pub braced : Bytes → Option Bytes
braced s = elim (cut_at s b'{') [
  | none ↦ none
  | some (_, rest) ↦ elim (cut_at rest b'}') [ none ↦ none | some (name, _) ↦ some name ]
]

-- The hasher, where the hash begins in the text, and where the salt begins in the decoded bytes.
unfoldable pub ssha_layout : Bytes → Option (Bytes × ℕ × ℕ)
ssha_layout name =
    if eq_bytes name (codes "SSHA")
    then some (codes "sha1", 6, 20)
    else if eq_bytes name (codes "SSHA256")
    then some (codes "sha256", 9, 32)
    else if eq_bytes name (codes "SSHA512")
    then some (codes "sha512", 9, 64)
    else none

unfoldable pub ssha_parts : Bytes → ℕ → Bytes → Result Error (Bytes × Bytes × Bytes)
ssha_parts hasher salt_begin decoded =
    if ltb (length decoded) (salt_begin + 1)
    then err invalid_hash
    else ok (hasher, drop salt_begin decoded, take salt_begin decoded)

-- The switch over the name in the braces, and what follows it.
unfoldable pub ssha_named : Bytes → Bytes → Result Error (Bytes × Bytes × Bytes)
unfolding ssha_layout ssha_parts
ssha_named encoded name = do
  (hasher, hash_begin, salt_begin) ← or_err (ssha_layout name) invalid_hash
  decoded ← or_err (decode std (drop hash_begin encoded)) invalid_hash
  ssha_parts hasher salt_begin decoded

-- `decodeSSHAHash`: the hasher, the salt and the hash. Where the expression does not match, `match` is
-- nil, and the access to it panics.
unfoldable pub decode_ssha_hash : Bytes → Result Error (Bytes × Bytes × Bytes)
unfolding braced ssha_named
decode_ssha_hash encoded = do name ← or_panic (braced encoded); ssha_named encoded name

-- `1 << n` on uint32
pub shift_one : ℕ → ℕ
shift_one n = if ltb n 32 then 2 ^ n else 0

-- What Firebase keeps beside the parameters.
pub record Firebase : Type 0 where
  pub config : ScryptConfiguration
  pub salt : Bytes
  pub salt_separator : Bytes
  pub hash : Bytes
  pub signer_key : Bytes

unfoldable pub firebase_parts : List Bytes → Result Error Firebase
unfolding decode_strict shift_one
firebase_parts (_ ∷ _ ∷ params ∷ salt_part ∷ hash_part ∷ separator_part ∷ signer_part ∷ []) = do
  (mem_cost, block, parallelization) ← or_err (scan_scrypt params) bad_scan
  salt ← decode_strict std salt_part
  hash ← decode_strict std hash_part
  separator ← decode_strict std separator_part
  signer ← decode_strict std signer_part
  ok record {
    config = record {
      cost = shift_one mem_cost;
      block = block;
      parallelization = parallelization;
      salt_length = length salt % u32;
      key_length = 32;
    };
    salt = salt;
    salt_separator = separator;
    hash = hash;
    signer_key = signer;
  }
firebase_parts _ = err invalid_hash

-- `decodeFirebaseScryptHash`
unfoldable pub decode_firebase_scrypt_hash : Bytes → Result Error Firebase
unfolding firebase_parts
decode_firebase_scrypt_hash encoded = firebase_parts (split encoded dollar)

-- The salting format, the salt, which is nil in a hash without one, and the hash.
unfoldable pub md5_parts : List Bytes → Result Error (Bytes × Option Bytes × Bytes)
unfolding decode_pf decode_strict
md5_parts (_ ∷ _ ∷ hash_part ∷ []) = do hash ← decode_strict std hash_part; ok ([], none, hash)
md5_parts (_ ∷ _ ∷ pf_part ∷ salt_part ∷ hash_part ∷ []) = do
  pf ← decode_pf pf_part
  salt ← decode_strict std salt_part
  hash ← decode_strict std hash_part
  ok (pf, some salt, hash)
md5_parts _ = err invalid_hash

-- `decodeMD5Hash`
unfoldable pub decode_md5_hash : Bytes → Result Error (Bytes × Option Bytes × Bytes)
unfolding md5_parts
decode_md5_hash encoded = md5_parts (split encoded dollar)
