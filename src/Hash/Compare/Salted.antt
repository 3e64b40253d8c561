-- ===== src/Hash/Compare/Salted.antt =====
-- Salted SHA hashes, `{SSHA…}` and the base64 of the digest with the salt behind it.
use go_svc_extn.Prelude.{
  ℕ, ◌+◌, ◌≡◌, ◌≢◌, refl, ◌∙◌, false, some, [], ◌∷◌, ◌++◌, Bytes, IsBytes, codes, length,
  length-append, eq_bytes_iff, Bool-cases, inl, inr, take, drop, eq_bytes, eq_bytes_self, sym, ap,
  All-append, IsByte, ok, arith, ltb,
}
use go_svc_extn.Base64.{std, encode, decode}
use go_svc_extn.Base64.RoundTrip.{decode-encode}
use go_svc_extn.Strings.{cut_at, has_prefix, strip_prefix}
use go_svc_extn.Hash.{Kdfs}
use go_svc_extn.Hash.Formats.{
  is_md5_crypt_hash, is_bcrypt_hash, is_sha256_crypt_hash, is_sha512_crypt_hash, is_argon2id_hash,
  is_argon2i_hash, is_pbkdf2_hash, is_scrypt_hash, is_ssha_hash,
}
use go_svc_extn.Hash.Decode.Legacy.{braced, ssha_layout, ssha_parts, ssha_named, decode_ssha_hash}
use go_svc_extn.Hash.Compare.{
  compare_password_hash_constant_time, sha_digest, compare_sha_helper, compare_ssha, compare,
}

-- The digests that a salted hash may have.
pub data Digest : Type 0 where
  ssha ssha256 ssha512 : Digest

abbrev pub name : Digest → Bytes
name ssha = codes "SSHA"
name ssha256 = codes "SSHA256"
name ssha512 = codes "SSHA512"

abbrev pub size : Digest → ℕ
size ssha = 20
size ssha256 = 32
size ssha512 = 64

abbrev pub digest : Kdfs → Digest → Bytes → Bytes
digest k ssha = k.sha1
digest k ssha256 = k.sha256
digest k ssha512 = k.sha512

take-append : (s t : Bytes) → take (length s) (s ++ t) ≡ s
take-append [] t = refl
take-append (a ∷ s) t = rw (take-append s t)

drop-append : (s t : Bytes) → drop (length s) (s ++ t) ≡ t
drop-append [] t = refl
drop-append (a ∷ s) t = drop-append s t

length-append_suc : (s t : Bytes) → t ≢ [] → ltb (length (s ++ t)) (length s + 1) ≡ false
length-append_suc s [] h = absurd (h refl)
length-append_suc s (b ∷ t) _ = ground (arith, length-append s (b ∷ t))

-- The bytes of a digest and of a salt are taken apart.
ssha_parts-append :
    (hasher sum salt : Bytes) (n : ℕ)
    → length sum ≡ n
    → salt ≢ []
    → ssha_parts hasher n (sum ++ salt) ≡ ok (hasher, salt, sum)
unfolding ssha_parts
ssha_parts-append hasher sum salt n e h =
    rw (← e, length-append_suc sum salt h, take-append sum salt, drop-append sum salt) refl

-- The text of a salted hash.
abbrev pub salted : Digest → Bytes → Bytes → Bytes
salted d sum salt = b'{' ∷ name d ++ (b'}' ∷ encode std (sum ++ salt))

ssha_text :
    (d : Digest) (sum salt : Bytes)
    → length sum ≡ size d
    → salt ≢ []
    → IsBytes sum
    → IsBytes salt
    → (hasher : Bytes) × (decode_ssha_hash (salted d sum salt) ≡ ok (hasher, salt, sum))
      × ((k : Kdfs) (raw : Bytes) → sha_digest k hasher raw ≡ some (digest k d raw))
unfolding decode_ssha_hash braced cut_at ssha_named ssha_layout eq_bytes sha_digest
ssha_text ssha sum salt e h sb tb = (
  codes "sha1",
  rw (decode-encode std (sum ++ salt) (All-append IsByte sum salt sb tb))
      (ssha_parts-append (codes "sha1") sum salt 20 e h),
  λ k raw. refl,
)
ssha_text ssha256 sum salt e h sb tb = (
  codes "sha256",
  rw (decode-encode std (sum ++ salt) (All-append IsByte sum salt sb tb))
      (ssha_parts-append (codes "sha256") sum salt 32 e h),
  λ k raw. refl,
)
ssha_text ssha512 sum salt e h sb tb = (
  codes "sha512",
  rw (decode-encode std (sum ++ salt) (All-append IsByte sum salt sb tb))
      (ssha_parts-append (codes "sha512") sum salt 64 e h),
  λ k raw. refl,
)

-- Encoded texts are equal exactly where the texts are.
eq_bytes-encode :
    (s t : Bytes) → IsBytes s → IsBytes t → eq_bytes (encode std s) (encode std t) ≡ eq_bytes s t
eq_bytes-encode s t hs ht = elim (Bool-cases (eq_bytes s t)) [
  | inl same ↦ rw ((eq_bytes_iff s t).0 same, eq_bytes_self (encode std t), eq_bytes_self t) refl
  | inr other ↦ elim (Bool-cases (eq_bytes (encode std s) (encode std t))) [
    | inl e ↦
        (let same : encode std s ≡ encode std t =
            (eq_bytes_iff (encode std s) (encode std t)).0 e in
          let parts : some s ≡ some t =
            sym (decode-encode std s hs) ∙ ap (decode std) same ∙ decode-encode std t ht in
          let text : s ≡ t = cc in absurd (ground (arith, eq_bytes_iff s t)))
    | inr e ↦ e ∙ sym other
  ]
]

compare_ssha_case :
    (k : Kdfs) (password : Bytes) (d : Digest) (sum salt : Bytes)
    → compare k password (salted d sum salt) ≡ compare_ssha k password (salted d sum salt)
unfolding compare is_md5_crypt_hash is_bcrypt_hash is_sha256_crypt_hash is_sha512_crypt_hash
    is_argon2id_hash is_argon2i_hash is_pbkdf2_hash is_scrypt_hash is_ssha_hash has_prefix
    strip_prefix
compare_ssha_case k password ssha sum salt = refl
compare_ssha_case k password ssha256 sum salt = refl
compare_ssha_case k password ssha512 sum salt = refl

module _ (k : Kdfs)
    (lawful : (d : Digest) (raw : Bytes)
      → IsBytes (digest k d raw) × (length (digest k d raw) ≡ size d)) where
  -- A password is compared with the salted hash of a password, in each of the three formats, by the
  -- digest of the password with the salt behind it. The salt is not empty; the digests are bytes, of the
  -- length that is theirs.
  pub compare-salted :
      (d : Digest) (password other salt : Bytes)
      → salt ≢ []
      → IsBytes salt
      → compare k other (salted d (digest k d (password ++ salt)) salt)
        ≡ compare_password_hash_constant_time
            (digest k d (password ++ salt))
            (digest k d (other ++ salt))
  unfolding compare_ssha compare_sha_helper
  compare-salted d password other salt h sb =
      let sum = digest k d (password ++ salt) in
      let (mb, len) = lawful d (password ++ salt) in
      let (ob, _) = lawful d (other ++ salt) in
      let (hasher, decoded, digested) = ssha_text d sum salt len h mb sb in
      compare_ssha_case k other d sum salt
      ∙ rw (decoded, digested k (other ++ salt))
          (unfold compare_password_hash_constant_time in
            rw (eq_bytes-encode sum (digest k d (other ++ salt)) mb ob) refl)
