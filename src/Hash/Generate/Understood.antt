-- ===== src/Hash/Generate/Understood.antt =====
-- Which hashers understand the hashes that they make.
use go_svc_extn.Prelude.{
  ◌≡◌, ◌≢◌, refl, ◌<◌, Bool, false, none, some, [], ◌∷◌, Bytes, codes, ok, err, Option-cases, inl,
  inr, ℕ, ◌/◌, IsBytes, arith,
}
use go_svc_extn.Base64.{std, char, encode}
use go_svc_extn.Strings.{has_prefix, strip_prefix}
use go_svc_extn.Hash.{Kdfs, unknown_hash_algorithm}
use go_svc_extn.Hash.Formats.{
  dollar, is_md5_crypt_hash, is_bcrypt_hash, is_sha256_crypt_hash, is_sha512_crypt_hash,
  is_argon2id_hash, is_argon2i_hash, is_pbkdf2_hash, is_scrypt_hash, is_ssha_hash, is_sha_hash,
  is_firebase_scrypt_hash, is_md5_hash, is_sip24_hash, is_valid_hash_format,
}
use go_svc_extn.Hash.Compare.{compare}
use go_svc_extn.Hash.Compare.Unknown.{compare_unknown_iff}
use go_svc_extn.Hash.Generate.{generate_siphash24, siphash24, understands}

-- A text that begins neither with a dollar nor with a brace.
abbrev IsUnmarked : Bytes → Type 0
IsUnmarked [] = Unit
IsUnmarked (c ∷ s) = (c ≢ dollar) × (c ≢ b'{')

char-IsUnmarked : (url : Bool) (v : ℕ) → v < 64 → (char url v ≢ dollar) × (char url v ≢ b'{')
unfolding char
char-IsUnmarked url v h = (ground arith, ground arith)

encode-IsUnmarked : (s : Bytes) → IsBytes s → IsUnmarked (encode std s)
unfolding encode
encode-IsUnmarked [] _ = tt
encode-IsUnmarked (x ∷ []) (h, _) = char-IsUnmarked false (x / 4) (omega arith)
encode-IsUnmarked (x ∷ y ∷ []) (h, _) = char-IsUnmarked false (x / 4) (omega arith)
encode-IsUnmarked (x ∷ y ∷ z ∷ s) (h, _) = char-IsUnmarked false (x / 4) (omega arith)

strip_prefix_other : (p c : ℕ) (ps s : Bytes) → c ≢ p → strip_prefix (p ∷ ps) (c ∷ s) ≡ none
unfolding strip_prefix
strip_prefix_other p c ps s h = ground arith

has_prefix_other : (p c : ℕ) (ps s : Bytes) → c ≢ p → has_prefix (c ∷ s) (p ∷ ps) ≡ false
unfolding has_prefix
has_prefix_other p c ps s h = rw (strip_prefix_other p c ps s h, has_prefix) refl

is_bcrypt_hash_other : (c : ℕ) (s : Bytes) → c ≢ dollar → is_bcrypt_hash (c ∷ s) ≡ false
unfolding is_bcrypt_hash
is_bcrypt_hash_other c s h = rw (strip_prefix_other dollar c (codes "2") s h, is_bcrypt_hash) refl

is_pbkdf2_hash_other : (c : ℕ) (s : Bytes) → c ≢ dollar → is_pbkdf2_hash (c ∷ s) ≡ false
unfolding is_pbkdf2_hash
is_pbkdf2_hash_other c s h =
    rw (strip_prefix_other dollar c (codes "pbkdf2-sha") s h, is_pbkdf2_hash) refl

unmarked_invalid : (s : Bytes) → IsUnmarked s → is_valid_hash_format s ≡ false
unfolding is_valid_hash_format is_md5_crypt_hash is_sha256_crypt_hash is_sha512_crypt_hash
    is_argon2id_hash is_argon2i_hash is_scrypt_hash is_ssha_hash is_sha_hash is_firebase_scrypt_hash
    is_md5_hash is_sip24_hash
unmarked_invalid [] _ = unfold is_bcrypt_hash is_pbkdf2_hash has_prefix strip_prefix in refl
unmarked_invalid (c ∷ s) (h, k) = simp (
  λ (ps : Bytes). has_prefix_other dollar c ps s h,
  λ (ps : Bytes). has_prefix_other b'{' c ps s k,
  is_bcrypt_hash_other c s h,
  is_pbkdf2_hash_other c s h,
)

sip24_other : (s : Bytes) → IsUnmarked s → is_sip24_hash s ≡ false
unfolding is_sip24_hash
sip24_other [] _ = unfold has_prefix strip_prefix in refl
sip24_other (c ∷ s) (h, _) = has_prefix_other dollar c (codes "sip24$") s h

module _ (k : Kdfs)
    (lawful : (key plain hash : Bytes) → k.siphash key plain ≡ some hash → IsBytes hash) where
  -- What `SipHash24.Generate` makes is no valid hash format, whatever the key and the text, so the hasher
  -- does not understand it, and `Compare` answers that the algorithm is unknown. The digest is bytes.
  pub siphash24_not_understood :
      (key plain text password : Bytes)
      → generate_siphash24 k key plain ≡ ok text
      → (is_valid_hash_format text ≡ false)
        × (understands (siphash24 key) text ≡ false)
        × (compare k password text ≡ err unknown_hash_algorithm)
  unfolding generate_siphash24 understands
  siphash24_not_understood key plain text password e = elim (Option-cases (k.siphash key plain)) [
    | inl panics ↦ absurd (ground arith)
    | inr (hash, made) ↦
        (let same : text ≡ encode std hash = ground arith in
          let invalid =
            unmarked_invalid (encode std hash)
              (encode-IsUnmarked hash (lawful key plain hash made)) in
          (
            rw same invalid,
            rw same (
                sip24_other (encode std hash)
                  (encode-IsUnmarked hash (lawful key plain hash made))),
            rw same ((compare_unknown_iff k password (encode std hash)).1 (inl invalid)),
          ))
  ]
