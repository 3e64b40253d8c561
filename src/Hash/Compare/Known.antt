-- ===== src/Hash/Compare/Known.antt =====
-- No decoder answers that the algorithm is unknown.
use go_svc_extn.Prelude.{
  or_panic, Option, none, some, List, [], ◌∷◌, Bytes, ℕ, drop, Result, ok, err, panic, ◌>>=◌,
  or_err, arith,
}
use go_svc_extn.Base64.{Encoding, strictly, decode, raw_std, std}
use go_svc_extn.Prelude.Int.{ℤ, pos, negsuc}
use go_svc_extn.Strings.{cut_at}
use go_svc_extn.Sscanf.{sscanf_int, sscanf_word}
use go_svc_extn.Hash.{Kdfs, Error, unknown_hash_algorithm, invalid_hash, bad_scan, corrupt_base64}
use go_svc_extn.Hash.Scan.{scan_argon2, scan_pbkdf2, scan_scrypt}
use go_svc_extn.Hash.Decode.{check_version, decode_strict, argon2_parts, pbkdf2_parts, scrypt_parts}
use go_svc_extn.Hash.Decode.Legacy.{
  decode_pf, sha_parts, braced, ssha_layout, ssha_parts, ssha_named, decode_ssha_hash,
  firebase_parts, md5_parts,
}
use go_svc_extn.Hash.Compare.{compare_password_hash_constant_time}

abbrev IsKnownError : Error → Type 0
IsKnownError unknown_hash_algorithm = ⊥
IsKnownError _ = Unit

abbrev pub IsKnown {ℓ} : {A : Type ℓ} → Result Error A → Type 0
IsKnown (ok a) = Unit
IsKnown panic = Unit
IsKnown (err e) = IsKnownError e

pub bind-IsKnown {ℓ κ} :
    {A : Type ℓ} {B : Type κ} (m : Result Error A) (f : A → Result Error B)
    → IsKnown m
    → ((a : A) → IsKnown (f a))
    → IsKnown (m >>= f)
bind-IsKnown (ok a) f _ h = h a
bind-IsKnown (err e) f h _ = h
bind-IsKnown panic f _ _ = tt

pub or_err-IsKnown {ℓ} :
    {A : Type ℓ} (o : Option A) (e : Error) → IsKnownError e → IsKnown (or_err o e)
or_err-IsKnown none e h = h
or_err-IsKnown (some a) e h = tt

pub or_panic-IsKnown {ℓ} : {A : Type ℓ} (o : Option A) → IsKnown (or_panic o)
or_panic-IsKnown none = tt
or_panic-IsKnown (some b) = tt

pub decode_strict-IsKnown : (e : Encoding) (s : Bytes) → IsKnown (decode_strict e s)
unfolding decode_strict
decode_strict-IsKnown e s = or_err-IsKnown (decode (strictly e) s) corrupt_base64 tt

pub constant_time-IsKnown : (s t : Bytes) → IsKnown (compare_password_hash_constant_time s t)
unfolding compare_password_hash_constant_time
constant_time-IsKnown s t = ground arith

pub check_version-IsKnown : (k : Kdfs) (z : ℤ) → IsKnown (check_version k z)
unfolding check_version
check_version-IsKnown k (pos v) = ground arith
check_version-IsKnown k (negsuc v) = tt

pub argon2_parts-IsKnown : (k : Kdfs) (ps : List Bytes) → IsKnown (argon2_parts k ps)
unfolding argon2_parts
argon2_parts-IsKnown k (_ ∷ _ ∷ v ∷ params ∷ salt ∷ hash ∷ []) =
    bind-IsKnown _ _ (or_err-IsKnown (sscanf_int _ v) bad_scan tt) (λ z.
      bind-IsKnown _ _ (check_version-IsKnown k z) (λ _.
        bind-IsKnown _ _ (or_err-IsKnown (scan_argon2 params) bad_scan tt) (λ _.
          bind-IsKnown _ _ (decode_strict-IsKnown raw_std salt)
            (λ _. bind-IsKnown _ _ (decode_strict-IsKnown raw_std hash) (λ _. tt)))))
argon2_parts-IsKnown k [] = tt
argon2_parts-IsKnown k (_ ∷ []) = tt
argon2_parts-IsKnown k (_ ∷ _ ∷ []) = tt
argon2_parts-IsKnown k (_ ∷ _ ∷ _ ∷ []) = tt
argon2_parts-IsKnown k (_ ∷ _ ∷ _ ∷ _ ∷ []) = tt
argon2_parts-IsKnown k (_ ∷ _ ∷ _ ∷ _ ∷ _ ∷ []) = tt
argon2_parts-IsKnown k (_ ∷ _ ∷ _ ∷ _ ∷ _ ∷ _ ∷ _ ∷ _) = tt

pub pbkdf2_parts-IsKnown : (ps : List Bytes) → IsKnown (pbkdf2_parts ps)
unfolding pbkdf2_parts
pbkdf2_parts-IsKnown (_ ∷ name ∷ params ∷ salt ∷ hash ∷ []) =
    bind-IsKnown _ _ (or_err-IsKnown (cut_at name _) invalid_hash tt) (λ _.
      bind-IsKnown _ _ (or_err-IsKnown (scan_pbkdf2 params) bad_scan tt) (λ _.
        bind-IsKnown _ _ (decode_strict-IsKnown raw_std salt)
          (λ _. bind-IsKnown _ _ (decode_strict-IsKnown raw_std hash) (λ _. tt))))
pbkdf2_parts-IsKnown [] = tt
pbkdf2_parts-IsKnown (_ ∷ []) = tt
pbkdf2_parts-IsKnown (_ ∷ _ ∷ []) = tt
pbkdf2_parts-IsKnown (_ ∷ _ ∷ _ ∷ []) = tt
pbkdf2_parts-IsKnown (_ ∷ _ ∷ _ ∷ _ ∷ []) = tt
pbkdf2_parts-IsKnown (_ ∷ _ ∷ _ ∷ _ ∷ _ ∷ _ ∷ _) = tt

pub scrypt_parts-IsKnown : (ps : List Bytes) → IsKnown (scrypt_parts ps)
unfolding scrypt_parts
scrypt_parts-IsKnown (_ ∷ _ ∷ params ∷ salt ∷ hash ∷ []) =
    bind-IsKnown _ _ (or_err-IsKnown (scan_scrypt params) bad_scan tt) (λ _.
      bind-IsKnown _ _ (decode_strict-IsKnown std salt)
        (λ _. bind-IsKnown _ _ (decode_strict-IsKnown std hash) (λ _. tt)))
scrypt_parts-IsKnown [] = tt
scrypt_parts-IsKnown (_ ∷ []) = tt
scrypt_parts-IsKnown (_ ∷ _ ∷ []) = tt
scrypt_parts-IsKnown (_ ∷ _ ∷ _ ∷ []) = tt
scrypt_parts-IsKnown (_ ∷ _ ∷ _ ∷ _ ∷ []) = tt
scrypt_parts-IsKnown (_ ∷ _ ∷ _ ∷ _ ∷ _ ∷ _ ∷ _) = tt

pub decode_pf-IsKnown : (s : Bytes) → IsKnown (decode_pf s)
unfolding decode_pf
decode_pf-IsKnown s =
    bind-IsKnown _ _ (or_err-IsKnown (sscanf_word _ s) bad_scan tt)
      (λ e. decode_strict-IsKnown std e)

pub sha_parts-IsKnown : (ps : List Bytes) → IsKnown (sha_parts ps)
unfolding sha_parts
sha_parts-IsKnown (_ ∷ _ ∷ pf ∷ salt ∷ hash ∷ []) = bind-IsKnown _ _ (decode_pf-IsKnown pf) (λ _.
    bind-IsKnown _ _ (decode_strict-IsKnown std salt)
      (λ _. bind-IsKnown _ _ (decode_strict-IsKnown std hash) (λ _. tt)))
sha_parts-IsKnown [] = tt
sha_parts-IsKnown (_ ∷ []) = tt
sha_parts-IsKnown (_ ∷ _ ∷ []) = tt
sha_parts-IsKnown (_ ∷ _ ∷ _ ∷ []) = tt
sha_parts-IsKnown (_ ∷ _ ∷ _ ∷ _ ∷ []) = tt
sha_parts-IsKnown (_ ∷ _ ∷ _ ∷ _ ∷ _ ∷ _ ∷ _) = tt

pub md5_parts-IsKnown : (ps : List Bytes) → IsKnown (md5_parts ps)
unfolding md5_parts
md5_parts-IsKnown (_ ∷ _ ∷ hash ∷ []) = bind-IsKnown _ _ (decode_strict-IsKnown std hash) (λ _. tt)
md5_parts-IsKnown (_ ∷ _ ∷ pf ∷ salt ∷ hash ∷ []) = bind-IsKnown _ _ (decode_pf-IsKnown pf) (λ _.
    bind-IsKnown _ _ (decode_strict-IsKnown std salt)
      (λ _. bind-IsKnown _ _ (decode_strict-IsKnown std hash) (λ _. tt)))
md5_parts-IsKnown [] = tt
md5_parts-IsKnown (_ ∷ []) = tt
md5_parts-IsKnown (_ ∷ _ ∷ []) = tt
md5_parts-IsKnown (_ ∷ _ ∷ _ ∷ _ ∷ []) = tt
md5_parts-IsKnown (_ ∷ _ ∷ _ ∷ _ ∷ _ ∷ _ ∷ _) = tt

pub firebase_parts-IsKnown : (ps : List Bytes) → IsKnown (firebase_parts ps)
unfolding firebase_parts
firebase_parts-IsKnown (_ ∷ _ ∷ params ∷ salt ∷ hash ∷ separator ∷ signer ∷ []) =
    bind-IsKnown _ _ (or_err-IsKnown (scan_scrypt params) bad_scan tt) (λ _.
      bind-IsKnown _ _ (decode_strict-IsKnown std salt) (λ _.
        bind-IsKnown _ _ (decode_strict-IsKnown std hash) (λ _.
          bind-IsKnown _ _ (decode_strict-IsKnown std separator)
            (λ _. bind-IsKnown _ _ (decode_strict-IsKnown std signer) (λ _. tt)))))
firebase_parts-IsKnown [] = tt
firebase_parts-IsKnown (_ ∷ []) = tt
firebase_parts-IsKnown (_ ∷ _ ∷ []) = tt
firebase_parts-IsKnown (_ ∷ _ ∷ _ ∷ []) = tt
firebase_parts-IsKnown (_ ∷ _ ∷ _ ∷ _ ∷ []) = tt
firebase_parts-IsKnown (_ ∷ _ ∷ _ ∷ _ ∷ _ ∷ []) = tt
firebase_parts-IsKnown (_ ∷ _ ∷ _ ∷ _ ∷ _ ∷ _ ∷ []) = tt
firebase_parts-IsKnown (_ ∷ _ ∷ _ ∷ _ ∷ _ ∷ _ ∷ _ ∷ _ ∷ _) = tt

pub ssha_parts-IsKnown :
    (hasher : Bytes) (n : ℕ) (decoded : Bytes) → IsKnown (ssha_parts hasher n decoded)
unfolding ssha_parts
ssha_parts-IsKnown hasher n decoded = ground arith

ssha_named-IsKnown : (encoded name : Bytes) → IsKnown (ssha_named encoded name)
unfolding ssha_named
ssha_named-IsKnown encoded name =
    bind-IsKnown _ _ (or_err-IsKnown (ssha_layout name) invalid_hash tt) (λ l.
      bind-IsKnown _ _ (or_err-IsKnown (decode std (drop l.1 encoded)) invalid_hash tt)
        (λ d. ssha_parts-IsKnown l.0 l.2 d))

pub decode_ssha_hash-IsKnown : (encoded : Bytes) → IsKnown (decode_ssha_hash encoded)
unfolding decode_ssha_hash
decode_ssha_hash-IsKnown encoded =
    bind-IsKnown _ _ (or_panic-IsKnown (braced encoded)) (λ name. ssha_named-IsKnown encoded name)
