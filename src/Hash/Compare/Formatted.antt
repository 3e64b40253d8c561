-- ===== src/Hash/Compare/Formatted.antt =====
-- SHA hashes with a salting format, `$sha256$pf=…$…$…`, and what they accept.
use go_svc_extn.Prelude.{
  ◌≡◌, ◌≢◌, ◌↔◌, refl, sym, ap, ◌∙◌, false, some, List, ◌∷◌, ◌++◌, Bytes, IsBytes, codes, is_empty,
  eq_bytes, eq_bytes_iff, All-map, All-append, Lacks, ok, arith,
}
use go_svc_extn.Base64.{std, encode, decode}
use go_svc_extn.Base64.RoundTrip.{IsPlain, encode-IsPlain, decode-encode, is_empty-encode}
use go_svc_extn.Strings.{has_prefix, strip_prefix}
use go_svc_extn.Sscanf.Words.{IsPrintable, sscanf_word-printable}
use go_svc_extn.Hash.{Kdfs}
use go_svc_extn.Hash.Formats.{
  dollar, is_md5_crypt_hash, is_bcrypt_hash, is_sha256_crypt_hash, is_sha512_crypt_hash,
  is_argon2id_hash, is_argon2i_hash, is_pbkdf2_hash, is_scrypt_hash, is_ssha_hash, is_sha_hash,
}
use go_svc_extn.Hash.Decode.Legacy.{decode_pf, sha_parts, decode_sha_hash}
use go_svc_extn.Hash.Salting.Pieces
use go_svc_extn.Hash.Salting.Pieces.{Piece, written, meant, fill-written}
use go_svc_extn.Hash.Compare.{
  compare_password_hash_constant_time, sha_digest, compare_sha_helper, compare_sha, compare,
}
use go_svc_extn.Hash.Compare.Salted.{Digest, ssha, ssha256, ssha512, digest}
use go_svc_extn.Hash.Generate.Scanned.{decode_strict-encode, encode-Lacks}
use go_svc_extn.Hash.Generate.Verified.{split_four}

-- The hasher's name in the text.
abbrev pub hasher : Digest → Bytes
hasher ssha = codes "sha1"
hasher ssha256 = codes "sha256"
hasher ssha512 = codes "sha512"

-- The text of a hash: the hasher, the salting format, the salt and the digest.
abbrev pub formatted : Digest → List Piece → Bytes → Bytes → Bytes
formatted d pieces salt sum =
    dollar ∷ hasher d
    ++ (dollar ∷ (codes "pf=" ++ encode std (written pieces))
        ++ (dollar ∷ encode std salt ++ (dollar ∷ encode std sum)))

compare_sha_text :
    (k : Kdfs) (d : Digest) (pieces : List Piece) (password salt sum : Bytes)
    → compare k password (formatted d pieces salt sum)
      ≡ compare_sha k password (formatted d pieces salt sum)
unfolding compare is_md5_crypt_hash is_bcrypt_hash is_sha256_crypt_hash is_sha512_crypt_hash
    is_argon2id_hash is_argon2i_hash is_pbkdf2_hash is_scrypt_hash is_ssha_hash is_sha_hash
    has_prefix strip_prefix
compare_sha_text k ssha pieces password salt sum = refl
compare_sha_text k ssha256 pieces password salt sum = refl
compare_sha_text k ssha512 pieces password salt sum = refl

hasher-Lacks : (d : Digest) → Lacks dollar (hasher d)
hasher-Lacks ssha = ground arith
hasher-Lacks ssha256 = ground arith
hasher-Lacks ssha512 = ground arith

sha_digest-hasher :
    (k : Kdfs) (d : Digest) (raw : Bytes) → sha_digest k (hasher d) raw ≡ some (digest k d raw)
unfolding sha_digest eq_bytes
sha_digest-hasher k ssha raw = refl
sha_digest-hasher k ssha256 raw = refl
sha_digest-hasher k ssha512 raw = refl

decode_pf-encode :
    (pf : Bytes)
    → IsBytes pf
    → is_empty pf ≡ false
    → decode_pf (codes "pf=" ++ encode std pf) ≡ ok pf
unfolding decode_pf
decode_pf-encode pf h e =
    rw
      (sscanf_word-printable (codes "pf=") (encode std pf)
        (All-map IsPlain IsPrintable (λ c k. (k.4, k.5)) (encode std pf) (encode-IsPlain std pf h))
        (is_empty-encode std pf ∙ e))
      (decode_strict-encode std pf h)

decode_sha_hash-formatted :
    (d : Digest) (pieces : List Piece) (salt sum : Bytes)
    → IsBytes (written pieces)
    → is_empty (written pieces) ≡ false
    → IsBytes salt
    → IsBytes sum
    → decode_sha_hash (formatted d pieces salt sum) ≡ ok (hasher d, written pieces, salt, sum)
unfolding decode_sha_hash
decode_sha_hash-formatted d pieces salt sum wb full sb hb =
    let pf = codes "pf=" ++ encode std (written pieces) in
    rw
      (
        split_four (hasher d) pf (encode std salt) (encode std sum) (hasher-Lacks d)
            (All-append (λ c. c ≢ dollar) (codes "pf=") (encode std (written pieces)) (ground arith)
              (encode-Lacks std (written pieces) wb))
            (encode-Lacks std salt sb) (encode-Lacks std sum hb),
        sha_parts,
        decode_pf-encode (written pieces) wb full,
        decode_strict-encode std salt sb,
        decode_strict-encode std sum hb,
      )
      refl

encode_injective : (s t : Bytes) → IsBytes s → IsBytes t → encode std s ≡ encode std t → s ≡ t
encode_injective s t h k e =
    some_text (sym (decode-encode std s h) ∙ ap (decode std) e ∙ decode-encode std t k)
  where
    some_text : {a b : Bytes} → some a ≡ some b → a ≡ b
    some_text e = cc

constant_time_iff : (s t : Bytes) → (compare_password_hash_constant_time s t ≡ ok tt) ↔ (s ≡ t)
unfolding compare_password_hash_constant_time
constant_time_iff s t = ground (arith, eq_bytes_iff s t)

compare_sha-formatted :
    (k : Kdfs) (d : Digest) (pieces : List Piece) (password salt sum : Bytes)
    → IsBytes (written pieces)
    → is_empty (written pieces) ≡ false
    → Pieces.IsPlain pieces
    → IsBytes salt
    → IsBytes sum
    → compare k password (formatted d pieces salt sum)
      ≡ compare_password_hash_constant_time
          (encode std sum)
          (encode std (digest k d (meant salt password pieces)))
unfolding compare_sha compare_sha_helper
compare_sha-formatted k d pieces password salt sum wb full plain sb hb =
    compare_sha_text k d pieces password salt sum
    ∙ rw
        (
          compare_sha,
          decode_sha_hash-formatted d pieces salt sum wb full sb hb,
          fill-written salt password pieces plain,
          sha_digest-hasher k d (meant salt password pieces),
        )
        refl

-- A hash of SHA with a salting format accepts exactly the passwords for which it holds the digest of the
-- text that the format stands for: the salt and the password at their words, and the texts between them,
-- which have no opening brace. The format is not empty, and all texts are bytes.
pub compare-formatted_iff :
    (k : Kdfs) (d : Digest) (pieces : List Piece) (password salt sum : Bytes)
    → IsBytes (written pieces)
    → is_empty (written pieces) ≡ false
    → Pieces.IsPlain pieces
    → IsBytes salt
    → IsBytes sum
    → IsBytes (digest k d (meant salt password pieces))
    → (compare k password (formatted d pieces salt sum) ≡ ok tt)
      ↔ (sum ≡ digest k d (meant salt password pieces))
compare-formatted_iff k d pieces password salt sum wb full plain sb hb db =
    let shown = compare_sha-formatted k d pieces password salt sum wb full plain sb hb in
    let (sound, complete) =
      constant_time_iff (encode std sum) (encode std (digest k d (meant salt password pieces))) in
    (
      λ e. encode_injective sum _ hb db (sound (sym shown ∙ e)),
      λ e. shown ∙ complete (ap (encode std) e),
    )
