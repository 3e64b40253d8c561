-- ===== src/Hash/Compare/Unknown.antt =====
-- When `Compare` answers that the algorithm is unknown.
use go_svc_extn.Prelude.{
  ◌≡◌, refl, ◌↔◌, ◌⊎◌, inl, inr, Bool, true, false, ◌||◌, Bytes, codes, if◌then◌else◌, err,
  Bool-cases, arith,
}
use mathlib.Core.Bool.{or_assoc, or-false}
use mathlib.Core.Path.{subst}
use go_svc_extn.Strings.Split.{has_prefix_sound}
use go_svc_extn.Strings.{split, has_prefix, strip_prefix}
use go_svc_extn.Hash.{Kdfs, unknown_hash_algorithm, mismatched_hash_and_password, kdf_failed}
use go_svc_extn.Hash.Formats.{
  dollar, is_md5_crypt_hash, is_bcrypt_hash, is_sha256_crypt_hash, is_sha512_crypt_hash,
  is_argon2id_hash, is_argon2i_hash, is_pbkdf2_hash, is_scrypt_hash, is_ssha_hash, is_sha_hash,
  is_firebase_scrypt_hash, is_md5_hash, is_sip24_hash, is_valid_hash_format,
}
use go_svc_extn.Hash.Decode.{decode_argon2id_hash, decode_pbkdf2_hash, decode_scrypt_hash}
use go_svc_extn.Hash.Decode.Legacy.{decode_sha_hash, decode_firebase_scrypt_hash, decode_md5_hash}
use go_svc_extn.Hash.Compare.{
  Verdict, validate_bcrypt_password_length, compare_crypt_helper, compare_md5_crypt,
  compare_sha256_crypt, compare_sha512_crypt, compare_bcrypt, compare_argon2id, compare_argon2i,
  compare_pbkdf2, compare_scrypt, sha_digest, compare_sha_helper, compare_ssha, compare_sha,
  compare_firebase_scrypt, compare_md5, compare,
}
use go_svc_extn.Hash.Compare.Known.{
  IsKnown, bind-IsKnown, or_err-IsKnown, or_panic-IsKnown, constant_time-IsKnown,
  argon2_parts-IsKnown, pbkdf2_parts-IsKnown, scrypt_parts-IsKnown, sha_parts-IsKnown,
  md5_parts-IsKnown, firebase_parts-IsKnown, decode_ssha_hash-IsKnown,
}

module _ (k : Kdfs) (password hash : Bytes) where
  crypt_helper-IsKnown : (text : Bytes) → IsKnown (compare_crypt_helper k password text)
  unfolding compare_crypt_helper
  crypt_helper-IsKnown text = ground arith

  md5_crypt-IsKnown : IsKnown (compare_md5_crypt k password hash)
  unfolding compare_md5_crypt
  md5_crypt-IsKnown = crypt_helper-IsKnown _

  sha256_crypt-IsKnown : IsKnown (compare_sha256_crypt k password hash)
  unfolding compare_sha256_crypt
  sha256_crypt-IsKnown = crypt_helper-IsKnown _

  sha512_crypt-IsKnown : IsKnown (compare_sha512_crypt k password hash)
  unfolding compare_sha512_crypt
  sha512_crypt-IsKnown = crypt_helper-IsKnown _

  bcrypt-IsKnown : IsKnown (compare_bcrypt k password hash)
  unfolding compare_bcrypt validate_bcrypt_password_length
  bcrypt-IsKnown = ground arith

  argon2id-IsKnown : IsKnown (compare_argon2id k password hash)
  unfolding compare_argon2id decode_argon2id_hash
  argon2id-IsKnown =
      bind-IsKnown _ _ (argon2_parts-IsKnown k (split hash dollar))
        (λ d. bind-IsKnown _ _ (or_panic-IsKnown _) (λ other. constant_time-IsKnown d.2 other))

  argon2i-IsKnown : IsKnown (compare_argon2i k password hash)
  unfolding compare_argon2i decode_argon2id_hash
  argon2i-IsKnown =
      bind-IsKnown _ _ (argon2_parts-IsKnown k (split hash dollar))
        (λ d. bind-IsKnown _ _ (or_panic-IsKnown _) (λ other. constant_time-IsKnown d.2 other))

  pbkdf2-IsKnown : IsKnown (compare_pbkdf2 k password hash)
  unfolding compare_pbkdf2 decode_pbkdf2_hash
  pbkdf2-IsKnown =
      bind-IsKnown _ _ (pbkdf2_parts-IsKnown (split hash dollar)) (λ d. constant_time-IsKnown d.2 _)

  scrypt-IsKnown : IsKnown (compare_scrypt k password hash)
  unfolding compare_scrypt decode_scrypt_hash
  scrypt-IsKnown = bind-IsKnown _ _ (scrypt_parts-IsKnown (split hash dollar)) (λ d.
      bind-IsKnown _ _ (or_err-IsKnown _ kdf_failed tt) (λ other. constant_time-IsKnown d.2 other))

  sha_helper-IsKnown :
      (hasher raw digest : Bytes) → IsKnown (compare_sha_helper k hasher raw digest)
  unfolding compare_sha_helper
  sha_helper-IsKnown hasher raw digest =
      bind-IsKnown _ _ (or_err-IsKnown (sha_digest k hasher raw) mismatched_hash_and_password tt)
        (λ sha. constant_time-IsKnown _ _)

  ssha-IsKnown : IsKnown (compare_ssha k password hash)
  unfolding compare_ssha
  ssha-IsKnown =
      bind-IsKnown _ _ (decode_ssha_hash-IsKnown hash) (λ d. sha_helper-IsKnown d.0 _ d.2)

  sha-IsKnown : IsKnown (compare_sha k password hash)
  unfolding compare_sha decode_sha_hash
  sha-IsKnown =
      bind-IsKnown _ _ (sha_parts-IsKnown (split hash dollar)) (λ d. sha_helper-IsKnown d.0 _ d.3)

  firebase-IsKnown : IsKnown (compare_firebase_scrypt k password hash)
  unfolding compare_firebase_scrypt decode_firebase_scrypt_hash
  firebase-IsKnown = bind-IsKnown _ _ (firebase_parts-IsKnown (split hash dollar)) (λ f.
      bind-IsKnown _ _ (or_err-IsKnown _ kdf_failed tt) (λ key.
        bind-IsKnown _ _ (or_err-IsKnown (k.aes_ctr key) kdf_failed tt)
          (λ stream. constant_time-IsKnown f.hash _)))

  plain_md5-IsKnown : IsKnown (compare_md5 k password hash)
  unfolding compare_md5 decode_md5_hash
  plain_md5-IsKnown =
      bind-IsKnown _ _ (md5_parts-IsKnown (split hash dollar)) (λ d. constant_time-IsKnown d.2 _)

-- A verdict is a comparison's own, or that the algorithm is unknown, as a test decides.
abbrev Decides : Bool → Verdict → Type 0
Decides b v = (b ≡ true → IsKnown v) × (b ≡ false → v ≡ err unknown_hash_algorithm)

Decides-default : Decides false (err unknown_hash_algorithm)
Decides-default = (λ e. cc, λ _. refl)

Decides-case :
    (a b : Bool) (x y : Verdict) → IsKnown x → Decides b y → Decides (a || b) (if a then x else y)
Decides-case true b x y h _ = (λ _. h, λ e. cc)
Decides-case false b x y _ h = h

-- The formats that have a case in `Compare`.
is_compared : Bytes → Bool
is_compared hash =
    is_md5_crypt_hash hash
    || (is_bcrypt_hash hash
        || (is_sha256_crypt_hash hash
            || (is_sha512_crypt_hash hash
                || (is_argon2id_hash hash
                    || (is_argon2i_hash hash
                        || (is_pbkdf2_hash hash
                            || (is_scrypt_hash hash
                                || (is_ssha_hash hash
                                    || (is_sha_hash hash
                                        || (is_firebase_scrypt_hash hash
                                            || (is_md5_hash hash || false)))))))))))

is_valid_hash_format-compared :
    (hash : Bytes) → is_valid_hash_format hash ≡ (is_compared hash || is_sip24_hash hash)
unfolding is_valid_hash_format is_compared
is_valid_hash_format-compared hash = simp (or_assoc, or-false)

compare-Decides :
    (k : Kdfs) (password hash : Bytes) → Decides (is_compared hash) (compare k password hash)
unfolding compare is_compared
compare-Decides k password hash =
    Decides-case (is_md5_crypt_hash hash) _ _ _ (md5_crypt-IsKnown k password hash) (
      Decides-case (is_bcrypt_hash hash) _ _ _ (bcrypt-IsKnown k password hash) (
        Decides-case (is_sha256_crypt_hash hash) _ _ _ (sha256_crypt-IsKnown k password hash) (
          Decides-case (is_sha512_crypt_hash hash) _ _ _ (sha512_crypt-IsKnown k password hash) (
            Decides-case (is_argon2id_hash hash) _ _ _ (argon2id-IsKnown k password hash) (
              Decides-case (is_argon2i_hash hash) _ _ _ (argon2i-IsKnown k password hash) (
                Decides-case (is_pbkdf2_hash hash) _ _ _ (pbkdf2-IsKnown k password hash) (
                  Decides-case (is_scrypt_hash hash) _ _ _ (scrypt-IsKnown k password hash) (
                    Decides-case (is_ssha_hash hash) _ _ _ (ssha-IsKnown k password hash) (
                      Decides-case (is_sha_hash hash) _ _ _ (sha-IsKnown k password hash) (
                        Decides-case (is_firebase_scrypt_hash hash) _ _ _
                          (firebase-IsKnown k password hash)
                          (Decides-case (is_md5_hash hash) _ _ _ (plain_md5-IsKnown k password hash)
                            Decides-default)))))))))))

sip24-is_compared : (hash : Bytes) → is_sip24_hash hash ≡ true → is_compared hash ≡ false
unfolding is_compared is_md5_crypt_hash is_bcrypt_hash is_sha256_crypt_hash is_sha512_crypt_hash
    is_argon2id_hash is_argon2i_hash is_pbkdf2_hash is_scrypt_hash is_ssha_hash is_sha_hash
    is_firebase_scrypt_hash is_md5_hash is_sip24_hash has_prefix strip_prefix
sip24-is_compared hash h = let (r, e) = has_prefix_sound hash (codes "$sip24$") h in rw e refl

-- `Compare` answers that the algorithm is unknown exactly where the format is not valid, or is that
-- of SipHash-2-4: no error of a comparison is taken for it.
pub compare_unknown_iff :
    (k : Kdfs) (password hash : Bytes)
    → (compare k password hash ≡ err unknown_hash_algorithm)
      ↔ ((is_valid_hash_format hash ≡ false) ⊎ (is_sip24_hash hash ≡ true))
compare_unknown_iff k password hash =
    let (known, unknown) = compare-Decides k password hash in
    let valid = is_valid_hash_format-compared hash in
    (
      λ e. elim (Bool-cases (is_compared hash)) [
        | inl listed ↦ absurd (subst IsKnown e (known listed))
        | inr missing ↦ elim (Bool-cases (is_sip24_hash hash)) [
          | inl sip ↦ inr sip
          | inr other ↦ inl (rw (valid, missing) other)
        ]
      ],
      λ h. elim h [
        | inl invalid ↦ unknown (ground arith)
        | inr sip ↦ unknown (sip24-is_compared hash sip)
      ],
    )
