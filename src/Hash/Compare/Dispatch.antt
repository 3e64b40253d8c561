-- ===== src/Hash/Compare/Dispatch.antt =====
-- Which comparison a hash is given to.
use go_svc_extn.Prelude.{◌≡◌, refl, true, ◌++◌, Bytes, codes}
use go_svc_extn.Strings.{has_prefix, strip_prefix}
use go_svc_extn.Hash.{Kdfs}
use go_svc_extn.Hash.Formats.{
  is_md5_crypt_hash, is_bcrypt_hash, is_sha256_crypt_hash, is_sha512_crypt_hash, is_argon2id_hash,
  is_argon2i_hash, is_pbkdf2_hash, pbkdf2_tail, is_scrypt_hash,
}
use go_svc_extn.Hash.Compare.{compare, compare_argon2id, compare_pbkdf2, compare_scrypt}

module _ (k : Kdfs) (password s : Bytes) where
  pub compare_argon2id_text :
      compare k password (codes "$argon2id$" ++ s)
      ≡ compare_argon2id k password (codes "$argon2id$" ++ s)
  unfolding compare is_md5_crypt_hash is_bcrypt_hash is_sha256_crypt_hash is_sha512_crypt_hash
      is_argon2id_hash has_prefix strip_prefix
  compare_argon2id_text = refl

  pub compare_pbkdf2_text :
      pbkdf2_tail s ≡ true
      → compare k password (codes "$pbkdf2-sha" ++ s)
        ≡ compare_pbkdf2 k password (codes "$pbkdf2-sha" ++ s)
  unfolding compare is_md5_crypt_hash is_bcrypt_hash is_sha256_crypt_hash is_sha512_crypt_hash
      is_argon2id_hash is_argon2i_hash is_pbkdf2_hash has_prefix strip_prefix
  compare_pbkdf2_text h = rw h

  pub compare_scrypt_text :
      compare k password (codes "$scrypt$" ++ s) ≡ compare_scrypt k password (codes "$scrypt$" ++ s)
  unfolding compare is_md5_crypt_hash is_bcrypt_hash is_sha256_crypt_hash is_sha512_crypt_hash
      is_argon2id_hash is_argon2i_hash is_pbkdf2_hash is_scrypt_hash has_prefix strip_prefix
  compare_scrypt_text = refl
