-- ===== src/Crypto/Signature/Tests.antt =====
-- Signed calls over toy digests: the theorems at concrete headers and secrets.
use go_svc_extn.Prelude.{
  ℕ, ◌<◌, ◌%◌, ◌≡◌, ◌↔◌, refl, List, [], ◌∷◌, ◌++◌, map, none, some, Bytes, codes, eq_bytes, ok,
  lookup, insert, get, arith, if◌then◌else◌,
}
use go_svc_extn.Strings.{cut_at, split}
use go_svc_extn.Crypto.Signature.{
  Digests, Database, add_pair, add_pairs, split_key_value, compute_signature, get_access_secret,
  verify_signature,
}
use go_svc_extn.Crypto.Signature.Secrets.{answer, get_all, new_provider, get_all-answer}
use go_svc_extn.Crypto.Signature.Verify.{
  IsDigests, token_header, verify_signature_iff, verify_signature_unknown_key,
}

-- The toy digests keep one byte of the text, or of the key and the text.
abbrev first : Bytes → ℕ
first [] = 0
first (b ∷ _) = b % 256

abbrev toy : Digests
toy = record {
  sha256 = λ text. first text ∷ [];
  hmac_sha256 = λ text key. first (key ++ text) ∷ [];
}

first-lt : (s : Bytes) → first s < 256
first-lt [] = omega arith
first-lt (b ∷ s) = omega arith

toy-IsDigests : IsDigests toy
toy-IsDigests text key = (first-lt (key ++ text), tt)

-- A database with one key.
abbrev db : Database
db id = some (if eq_bytes id (codes "k1") then codes "s3" else [])

get_all-answer_example :
    get_all db new_provider (codes "k1" ∷ codes "zz" ∷ codes "k1" ∷ [])
    ≡ map (answer db) (codes "k1" ∷ codes "zz" ∷ codes "k1" ∷ [])
get_all-answer_example = get_all-answer db (codes "k1" ∷ codes "zz" ∷ codes "k1" ∷ [])

known : (get_access_secret db new_provider (codes "k1")).0 ≡ ok (codes "s3")
unfolding get_access_secret lookup eq_bytes
known = refl

abbrev headers : Bytes
headers = codes "ts=5/api=pay/ver=1/chnl=web/usrid=u7"

verify_signature_iff_example :
    ((verify_signature toy
        (get_access_secret db)
        new_provider
        (token_header (codes "k1") (codes "00"))
        headers
        (codes "{}")).0
      ≡ ok tt)
    ↔ (compute_signature toy (codes "s3") (codes "{}") (split_key_value headers b'/' b'=')
        ≡ codes "00")
verify_signature_iff_example =
    verify_signature_iff toy db new_provider (codes "k1") (codes "00") headers (codes "{}")
      (codes "s3") (omega arith) (omega arith) known

no_entry : lookup (codes "zz") new_provider.access_keys ≡ none
unfolding lookup
no_entry = refl

no_row : db (codes "zz") ≡ some []
unfolding eq_bytes
no_row = refl

verify_signature_unknown_key_example :
    (verify_signature toy
      (get_access_secret db)
      new_provider
      (token_header
        (codes "zz")
        (compute_signature toy [] (codes "{}") (split_key_value headers b'/' b'=')))
      headers
      (codes "{}")).0
    ≡ ok tt
verify_signature_unknown_key_example =
    verify_signature_unknown_key toy db new_provider (codes "zz") headers (codes "{}") toy-IsDigests
      (omega arith) no_entry no_row

abbrev user_bc : List (Bytes × Bytes)
user_bc = (codes "chnl", codes "a") ∷ (codes "usrid", codes "bc") ∷ []

abbrev user_c : List (Bytes × Bytes)
user_c = (codes "chnl", codes "ab") ∷ (codes "usrid", codes "c") ∷ []

one_text :
    get (codes "chnl") user_bc ++ get (codes "usrid") user_bc
    ≡ get (codes "chnl") user_c ++ get (codes "usrid") user_c
unfolding get lookup eq_bytes
one_text = refl

no_ts : get (codes "ts") user_bc ≡ get (codes "ts") user_c
unfolding get lookup eq_bytes
no_ts = refl

no_api : get (codes "api") user_bc ≡ get (codes "api") user_c
unfolding get lookup eq_bytes
no_api = refl

no_ver : get (codes "ver") user_bc ≡ get (codes "ver") user_c
unfolding get lookup eq_bytes
no_ver = refl

header_is_read :
    split_key_value (codes "ts=5/api=pay/x/ver=1=2") b'/' b'='
    ≡ (codes "ts", codes "5") ∷ (codes "api", codes "pay") ∷ (codes "ver", codes "1=2") ∷ []
unfolding split_key_value add_pairs add_pair cut_at split insert eq_bytes
header_is_read = refl
