-- ===== src/Hash/SaltedTests.antt =====
-- A salting format, and a bcrypt that puts its prefix before the password.
use go_svc_extn.Prelude.{
  ◌≤◌, ◌≡◌, ◌↔◌, refl, sym, false, IsBytes, is_empty, none, some, List, [], ◌∷◌, ◌++◌, Bytes, codes,
  eq_bytes, eq_bytes_self, length, if◌then◌else◌, ok, arith,
}
use go_svc_extn.Hash.{Kdfs, matches, mismatches}
use go_svc_extn.Hash.Salting.Pieces.{Piece, salt, password, text, written, meant}
use go_svc_extn.Hash.Compare.{validate_bcrypt_password_length, compare}
use go_svc_extn.Hash.Compare.Salted.{ssha256, digest}
use go_svc_extn.Hash.Compare.Formatted.{formatted, compare-formatted_iff}
use go_svc_extn.Hash.Generate.{generate_bcrypt}
use go_svc_extn.Hash.Generate.BcryptHash.{IsBcrypt, compare-generate_bcrypt}

abbrev pieces : List Piece
pieces = text (codes "<") ∷ salt ∷ text (codes ">$") ∷ password ∷ []

abbrev kdfs : Kdfs
kdfs = record {
  id_key = λ password salt t m p l. none;
  i_key = λ password salt t m p l. none;
  argon2_version = 19;
  kb = 1024;
  pbkdf2_key = λ password salt i l prf. [];
  scrypt_key = λ password salt n r p l. none;
  bcrypt_compare =
      λ hash password. if eq_bytes hash (codes "$2a$" ++ password) then matches else mismatches;
  bcrypt_generate = λ password cost. some (codes "$2a$" ++ password);
  sha1 = λ raw. [];
  sha256 = λ raw. [];
  sha512 = λ raw. [];
  md5 = λ raw. [];
  crypt_decode = λ hash. none;
  aes_ctr = λ aes. none;
  siphash = λ secret text. none;
  random = λ n. none;
}

same_text : {a b : Bytes} → some a ≡ some b → a ≡ b
same_text e = cc

kdfs-IsBcrypt : IsBcrypt kdfs
kdfs-IsBcrypt = record {
  prefix = λ password hash cost e. (password, sym (same_text e));
  matched = λ password hash cost e.
      rw (sym (same_text e)) (rw (eq_bytes_self (codes "$2a$" ++ password)) refl);
}

generated : generate_bcrypt kdfs 12 (codes "secret") ≡ ok (codes "$2a$secret")
unfolding generate_bcrypt validate_bcrypt_password_length
generated = refl

compare-generate_bcrypt_example :
    (length (codes "secret") ≤ 72) × (compare kdfs (codes "secret") (codes "$2a$secret") ≡ ok tt)
compare-generate_bcrypt_example =
    compare-generate_bcrypt kdfs kdfs-IsBcrypt 12 (codes "secret") (codes "$2a$secret") generated

pieces-IsBytes : IsBytes (written pieces)
unfolding written
pieces-IsBytes = ground arith

pieces_full : is_empty (written pieces) ≡ false
unfolding written is_empty
pieces_full = refl

compare-formatted_iff_example :
    (compare kdfs (codes "pw") (formatted ssha256 pieces (codes "salt") []) ≡ ok tt)
    ↔ ([] ≡ digest kdfs ssha256 (meant (codes "salt") (codes "pw") pieces))
compare-formatted_iff_example =
    compare-formatted_iff kdfs ssha256 pieces (codes "pw") (codes "salt") [] pieces-IsBytes
      pieces_full (ground arith) (ground arith) tt tt
