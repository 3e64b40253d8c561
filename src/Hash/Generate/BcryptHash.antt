-- ===== src/Hash/Generate/BcryptHash.antt =====
-- `Bcrypt.Generate` and `Compare` of its hashes.
use go_svc_extn.Prelude.{
  ℕ, ◌≤◌, ◌≡◌, refl, sym, ap, ◌∙◌, some, ◌++◌, Bytes, codes, length, ok, or_err-ok, bind-ok, arith,
}
use go_svc_extn.Strings.{has_prefix, strip_prefix}
use go_svc_extn.Hash.{Kdfs, matches, kdf_failed}
use go_svc_extn.Hash.Formats.{is_md5_crypt_hash, is_bcrypt_hash, bcrypt_tail}
use go_svc_extn.Hash.Compare.{validate_bcrypt_password_length, compare_bcrypt, compare}
use go_svc_extn.Hash.Generate.{generate_bcrypt}

module _ (k : Kdfs) where
  -- What bcrypt promises of the hashes that it makes: their prefix, and that they match.
  pub record IsBcrypt : Type 0 where
    pub prefix :
        (password hash : Bytes) (cost : ℕ)
        → k.bcrypt_generate password cost ≡ some hash
        → (s : Bytes) × (hash ≡ codes "$2a$" ++ s)
    pub matched :
        (password hash : Bytes) (cost : ℕ)
        → k.bcrypt_generate password cost ≡ some hash
        → k.bcrypt_compare hash password ≡ matches

  compare_bcrypt_text :
      (password s : Bytes)
      → compare k password (codes "$2a$" ++ s) ≡ compare_bcrypt k password (codes "$2a$" ++ s)
  unfolding compare is_md5_crypt_hash is_bcrypt_hash bcrypt_tail has_prefix strip_prefix
  compare_bcrypt_text password s = refl

  short_enough :
      (password : Bytes) (u : Unit {0})
      → validate_bcrypt_password_length password ≡ ok u
      → length password ≤ 72
  unfolding validate_bcrypt_password_length
  short_enough password u e = ground arith

  compare_bcrypt_matches :
      (password hash : Bytes)
      → validate_bcrypt_password_length password ≡ ok tt
      → k.bcrypt_compare hash password ≡ matches
      → compare_bcrypt k password hash ≡ ok tt
  unfolding compare_bcrypt
  compare_bcrypt_matches password hash e f = rw (e, f) refl

  -- Where `Bcrypt.Generate` makes a hash of a password, whatever cost it was configured with, the
  -- password has at most 72 bytes, and `Compare` accepts it for this hash.
  pub compare-generate_bcrypt :
      IsBcrypt
      → (cost : ℕ) (password hash : Bytes) → generate_bcrypt k cost password ≡ ok hash
      → (length password ≤ 72) × (compare k password hash ≡ ok tt)
  unfolding generate_bcrypt
  compare-generate_bcrypt lawful cost password hash e =
      let (u, valid, made) = bind-ok (validate_bcrypt_password_length password) _ hash e in
      let drawn = or_err-ok (k.bcrypt_generate password 10) kdf_failed hash made in
      let (s, shown) = lawful.prefix password hash 10 drawn in
      (
        short_enough password u valid,
        ap (compare k password) shown
            ∙ compare_bcrypt_text password s
            ∙ ap (compare_bcrypt k password) (sym shown)
            ∙ compare_bcrypt_matches password hash valid (lawful.matched password hash 10 drawn),
      )
