-- ===== src/Hash/Formats.antt =====
-- The tests of hash_comparator.go for the formats: regular expressions anchored at the start.
use go_svc_extn.Prelude.{ℕ, Bool, false, ◌&&◌, ◌||◌, none, some, [], ◌∷◌, Bytes, codes, leb, ◌==◌}
use go_svc_extn.Strings.{has_prefix, strip_prefix}

abbrev pub dollar : ℕ
dollar = b'$'

unfoldable pub is_md5_crypt_hash : Bytes → Bool
is_md5_crypt_hash hash = has_prefix hash (codes "$md5-crypt$")

-- What follows `$2`: an optional letter, and a dollar.
unfoldable pub bcrypt_tail : Bytes → Bool
bcrypt_tail [] = false
bcrypt_tail (c ∷ []) = c == dollar
bcrypt_tail (c ∷ d ∷ s) =
    c == dollar || ((c == b'a' || c == b'b' || c == b'z' || c == b'y') && d == dollar)

unfoldable pub is_bcrypt_hash : Bytes → Bool
unfolding bcrypt_tail
is_bcrypt_hash hash = elim (strip_prefix (codes "$2") hash) [
  | none ↦ false
  | some s ↦ bcrypt_tail s
]

unfoldable pub is_sha256_crypt_hash : Bytes → Bool
is_sha256_crypt_hash hash = has_prefix hash (codes "$sha256-crypt$")

unfoldable pub is_sha512_crypt_hash : Bytes → Bool
is_sha512_crypt_hash hash = has_prefix hash (codes "$sha512-crypt$")

unfoldable pub is_argon2id_hash : Bytes → Bool
is_argon2id_hash hash = has_prefix hash (codes "$argon2id$")

unfoldable pub is_argon2i_hash : Bytes → Bool
is_argon2i_hash hash = has_prefix hash (codes "$argon2i$")

abbrev pub digit : ℕ → Bool
digit c = leb b'0' c && leb c b'9'

-- What follows `$pbkdf2-sha`: one to three digits, and a dollar.
unfoldable pub pbkdf2_tail : Bytes → Bool
pbkdf2_tail (a ∷ b ∷ []) = digit a && b == dollar
pbkdf2_tail (a ∷ b ∷ c ∷ []) = digit a && (b == dollar || (digit b && c == dollar))
pbkdf2_tail (a ∷ b ∷ c ∷ d ∷ s) =
    digit a && (b == dollar || (digit b && (c == dollar || (digit c && d == dollar))))
pbkdf2_tail _ = false

unfoldable pub is_pbkdf2_hash : Bytes → Bool
unfolding pbkdf2_tail
is_pbkdf2_hash hash = elim (strip_prefix (codes "$pbkdf2-sha") hash) [
  | none ↦ false
  | some s ↦ pbkdf2_tail s
]

unfoldable pub is_scrypt_hash : Bytes → Bool
is_scrypt_hash hash = has_prefix hash (codes "$scrypt$")

unfoldable pub is_ssha_hash : Bytes → Bool
is_ssha_hash hash =
    has_prefix hash (codes "{SSHA}")
    || has_prefix hash (codes "{SSHA256}")
    || has_prefix hash (codes "{SSHA512}")

unfoldable pub is_sha_hash : Bytes → Bool
is_sha_hash hash =
    has_prefix hash (codes "$sha1$")
    || has_prefix hash (codes "$sha256$")
    || has_prefix hash (codes "$sha512$")

unfoldable pub is_firebase_scrypt_hash : Bytes → Bool
is_firebase_scrypt_hash hash = has_prefix hash (codes "$firescrypt$")

unfoldable pub is_md5_hash : Bytes → Bool
is_md5_hash hash = has_prefix hash (codes "$md5$")

unfoldable pub is_sip24_hash : Bytes → Bool
is_sip24_hash hash = has_prefix hash (codes "$sip24$")

unfoldable pub is_valid_hash_format : Bytes → Bool
is_valid_hash_format hash =
    is_md5_crypt_hash hash
    || is_bcrypt_hash hash
    || is_sha256_crypt_hash hash
    || is_sha512_crypt_hash hash
    || is_argon2id_hash hash
    || is_argon2i_hash hash
    || is_pbkdf2_hash hash
    || is_scrypt_hash hash
    || is_ssha_hash hash
    || is_sha_hash hash
    || is_firebase_scrypt_hash hash
    || is_md5_hash hash
    || is_sip24_hash hash
