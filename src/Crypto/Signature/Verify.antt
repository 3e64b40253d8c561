-- ===== src/Crypto/Signature/Verify.antt =====
-- When a signed call is accepted.
use go_svc_extn.Prelude.{
  ℕ, ◌<◌, ◌/◌, ◌%◌, ◌≡◌, ◌≢◌, ◌↔◌, refl, sym, ap, ◌∙◌, none, some, [], ◌∷◌, ◌++◌, append_assoc,
  Bytes, IsBytes, Lacks, All-append, codes, eq_bytes, eq_bytes_iff, if◌then◌else◌, ok, err, Dict,
  lookup, insert, get, arith,
}
use go_svc_extn.Strings.Split.{cut_at-append, split_of_Lacks}
use go_svc_extn.Crypto.Signature.{
  Digests, hex_digit, hex, signature_mismatch, add_pair, add_pairs, split_key_value,
  compute_signature, access_key_id, check_signature, verify_signature, Provider, Database,
  get_access_secret,
}
use go_svc_extn.Crypto.Signature.Secrets.{get_access_secret_queried}
use go_svc_extn.Crypto.Signature.Headers.{render, split_key_value-render}

-- The token header of a client: its credentials and its signature.
abbrev pub credentials : Bytes → Bytes
credentials id = codes "access-key:" ++ id

abbrev pub token_header : Bytes → Bytes → Bytes
token_header id signature =
    render b'/' b'=' ((codes "creds", credentials id) ∷ (codes "signature", signature) ∷ [])

-- An id that may stand in the header.
abbrev pub IsId : Bytes → Type 0
IsId id = Lacks b'/' id × Lacks 10 id

abbrev tokens : Bytes → Bytes → Dict Bytes
tokens id signature =
    insert (codes "signature") signature (insert (codes "creds") (credentials id) [])

tokens-of_header :
    (id signature : Bytes)
    → IsId id
    → Lacks b'/' signature
    → split_key_value (token_header id signature) b'/' b'=' ≡ tokens id signature
tokens-of_header id signature (h, _) k =
    let creds = All-append (λ c. c ≢ b'/') (codes "access-key:") id (omega arith) h in
    split_key_value-render b'/' b'=' (omega arith) (codes "creds", credentials id)
      ((codes "signature", signature) ∷ [])
      ((omega arith, omega arith, creds), ((omega arith, omega arith, k), tt))

creds_of_tokens :
    (id signature : Bytes) → get (codes "creds") (tokens id signature) ≡ credentials id
unfolding get lookup insert eq_bytes
creds_of_tokens id signature = refl

signature_of_tokens :
    (id signature : Bytes) → get (codes "signature") (tokens id signature) ≡ signature
unfolding get lookup insert eq_bytes
signature_of_tokens id signature = refl

pair_of_credentials :
    (id : Bytes) → add_pair b':' (credentials id) [] ≡ insert (codes "access-key") id []
unfolding add_pair
pair_of_credentials id = rw (cut_at-append b':' (codes "access-key") id (omega arith), add_pair)

id_of_credentials :
    (id : Bytes)
    → Lacks 10 id
    → get (codes "access-key") (split_key_value (credentials id) 10 b':') ≡ id
unfolding split_key_value add_pairs
id_of_credentials id h =
    rw
      (
        split_of_Lacks 10 (credentials id)
            (All-append (λ c. c ≢ 10) (codes "access-key:") id (omega arith) h),
        pair_of_credentials id,
      )
      (unfold get lookup insert eq_bytes in refl)

access_key_id_of_tokens :
    (id signature : Bytes) → Lacks 10 id → access_key_id (tokens id signature) ≡ id
unfolding access_key_id
access_key_id_of_tokens id signature h = rw (creds_of_tokens id signature) (id_of_credentials id h)

check_signature_of_tokens :
    (d : Digests) (id signature security_header payload secret : Bytes)
    → check_signature d (tokens id signature) security_header payload secret ≡ (
        if eq_bytes
          (compute_signature d secret payload (split_key_value security_header b'/' b'='))
          signature
        then ok tt
        else err signature_mismatch)
unfolding check_signature
check_signature_of_tokens d id signature security_header payload secret =
    rw (signature_of_tokens id signature)

module _ (d : Digests) (db : Database) (p : Provider)
    (id signature security_header payload : Bytes) where
  -- The check of a header that a client wrote, for each answer of the provider.
  verify_signature-ok :
      (secret : Bytes)
      → IsId id
      → Lacks b'/' signature
      → (get_access_secret db p id).0 ≡ ok secret
      → (verify_signature d
          (get_access_secret db)
          p
          (token_header id signature)
          security_header
          payload).0
        ≡ check_signature d (tokens id signature) security_header payload secret
  unfolding verify_signature
  verify_signature-ok secret h k e =
      rw
        (
          tokens-of_header id signature h k,
          access_key_id_of_tokens id signature h.1,
          e,
          verify_signature,
        )
        (rw (tokens-of_header id signature h k))

  -- A header that names a key, and whose id and signature hold no separator, is accepted exactly
  -- when its signature is the one computed with the key's secret, from the payload and the
  -- security header.
  pub verify_signature_iff :
      (secret : Bytes)
      → IsId id
      → Lacks b'/' signature
      → (get_access_secret db p id).0 ≡ ok secret
      → ((verify_signature d
            (get_access_secret db)
            p
            (token_header id signature)
            security_header
            payload).0
          ≡ ok tt)
        ↔ (compute_signature d secret payload (split_key_value security_header b'/' b'=')
            ≡ signature)
  verify_signature_iff secret h k e =
      let computed =
        compute_signature d secret payload (split_key_value security_header b'/' b'=') in
      rw
        (
          verify_signature-ok secret h k e,
          check_signature_of_tokens d id signature security_header payload secret,
        )
        (
          ground (arith, eq_bytes_iff computed signature),
          ground (arith, eq_bytes_iff computed signature),
        )

-- `Sum` returns bytes.
abbrev pub IsDigests : Digests → Type 0
IsDigests d = (text key : Bytes) → IsBytes (d.hmac_sha256 text key)

hex_digit-ne-slash : (v : ℕ) → v < 16 → hex_digit v ≢ b'/'
hex_digit-ne-slash v h = ground arith

hex-Lacks : (s : Bytes) → IsBytes s → Lacks b'/' (hex s)
unfolding hex
hex-Lacks [] _ = tt
hex-Lacks (b ∷ s) (h, hs) = (
  hex_digit-ne-slash (b / 16) (omega arith),
  (hex_digit-ne-slash (b % 16) (omega arith), hex-Lacks s hs),
)

compute_signature-Lacks :
    (d : Digests) (secret payload : Bytes) (headers : Dict Bytes)
    → IsDigests d
    → Lacks b'/' (compute_signature d secret payload headers)
unfolding compute_signature
compute_signature-Lacks d secret payload headers h = hex-Lacks _ (h _ _)

-- A key id that the database does not hold, and for which it answers the empty text, has the empty
-- secret: what anyone signs with the empty secret is accepted for that id, for every payload and
-- every security header.
pub verify_signature_unknown_key :
    (d : Digests) (db : Database) (p : Provider) (id security_header payload : Bytes)
    → IsDigests d
    → IsId id
    → lookup id p.access_keys ≡ none
    → db id ≡ some []
    → (verify_signature d
        (get_access_secret db)
        p
        (token_header id
          (compute_signature d [] payload (split_key_value security_header b'/' b'=')))
        security_header
        payload).0
      ≡ ok tt
verify_signature_unknown_key d db p id security_header payload lawful h missing unknown =
    let signature = compute_signature d [] payload (split_key_value security_header b'/' b'=') in
    (verify_signature_iff d db p id signature security_header payload [] h
        (compute_signature-Lacks d [] payload _ lawful)
        (ap (λ r. r.0) (get_access_secret_queried db p id [] missing unknown))).1
      refl

-- The signature depends on the channel and the user id only through their concatenation: two calls
-- that agree on it, on the time stamp, the api, the version, the payload and the secret have one
-- signature.
pub compute_signature_boundary :
    (d : Digests) (secret payload : Bytes) (h k : Dict Bytes)
    → get (codes "ts") h ≡ get (codes "ts") k
    → get (codes "api") h ≡ get (codes "api") k
    → get (codes "ver") h ≡ get (codes "ver") k
    → get (codes "chnl") h ++ get (codes "usrid") h ≡ get (codes "chnl") k ++ get (codes "usrid") k
    → compute_signature d secret payload h ≡ compute_signature d secret payload k
unfolding compute_signature
compute_signature_boundary d secret payload h k ts api ver both =
    let tail = hex (d.sha256 payload) in
    let request : get (codes "chnl") h ++ (get (codes "usrid") h ++ tail)
        ≡ get (codes "chnl") k ++ (get (codes "usrid") k ++ tail) =
      sym (append_assoc (get (codes "chnl") h) (get (codes "usrid") h) tail)
      ∙ ap (λ s. s ++ tail) both
      ∙ append_assoc (get (codes "chnl") k) (get (codes "usrid") k) tail in
    rw (ts, api, ver, request)
