-- ===== src/Crypto/Kms/Keys.antt =====
-- The URIs of keys, and what an AEAD is made of.
use go_svc_extn.Prelude.{
  ok_injective, ◌≡◌, ◌≢◌, refl, sym, ap, ◌∙◌, Bool, true, false, some, ◌++◌, Bytes, IsBytes, Dict,
  lookup, Result, ok, err, or_err, or_err-ok, bind-ok, Bool-cases, inl, inr,
}
use go_svc_extn.Base64.{raw_url, encode}
use go_svc_extn.Base64.RoundTrip.{decode-encode}
use go_svc_extn.Strings.{has_prefix, trim_prefix}
use go_svc_extn.Strings.Split.{strip_prefix-append}
use go_svc_extn.Crypto.Kms.{
  Tink, Error, unsupported_uri, key_not_found, no_handle, bad_keyset, no_aead, caas_kms_prefix,
  custom_kms_prefix, caas_supported, custom_supported, new_custom_kms_client, caas_get_aead,
  key_uri_of, new_key_uri, aead_of, custom_get_aead,
}

has_prefix-append : (p s : Bytes) → has_prefix (p ++ s) p ≡ true
unfolding has_prefix
has_prefix-append p s = rw (strip_prefix-append p s, has_prefix) refl

trim_prefix-append : (p s : Bytes) → trim_prefix (p ++ s) p ≡ s
unfolding trim_prefix
trim_prefix-append p s = rw (strip_prefix-append p s, trim_prefix) refl

module _ {Keyset Aead World : Type 0} (t : Tink Keyset Aead World) where
  -- Binary keysets are bytes, and are read as they were written.
  pub record IsStored : Type 0 where
    pub text_bytes : (h : Keyset) (s : Bytes) → t.write_cleartext h ≡ some s → IsBytes s
    pub read-write :
        (h : Keyset) (s : Bytes) → t.write_cleartext h ≡ some s → t.read_cleartext s ≡ some h

  -- The AEAD that a client of the documented prefix gets by a URI of `NewKeyURI` is that of the key which
  -- was made for the URI.
  pub get_aead-new_key_uri :
      IsStored
      → (w : World) (uri : Bytes) → (new_key_uri t w).0 ≡ ok uri
      → (h : Keyset) × ((t.new_handle w).0 ≡ some h)
        × (caas_get_aead t caas_kms_prefix uri ≡ or_err (t.new_aead h) no_aead)
  unfolding new_key_uri key_uri_of caas_get_aead caas_supported
  get_aead-new_key_uri stored w uri e =
      let (h, made, e1) = bind-ok (or_err (t.new_handle w).0 no_handle) _ uri e in
      let (text, written, shown) = bind-ok (or_err (t.write_cleartext h) bad_keyset) _ uri e1 in
      let kept = or_err-ok (t.write_cleartext h) bad_keyset text written in
      let same : uri ≡ caas_kms_prefix ++ encode raw_url text = sym (ok_injective shown) in
      (
        h,
        or_err-ok (t.new_handle w).0 no_handle h made,
        rw
            (
              same,
              has_prefix-append caas_kms_prefix (encode raw_url text),
              trim_prefix-append caas_kms_prefix (encode raw_url text),
              decode-encode raw_url text (stored.text_bytes h text kept),
              stored.read-write h text kept,
            )
            refl,
      )

  fresh :
      (keys : Dict Bytes) (id key : Bytes) (w : World)
      → lookup id keys ≡ some key
      → custom_get_aead t keys (custom_kms_prefix ++ id) w
        ≡ (aead_of t (t.new_handle w).0, (t.new_handle w).1)
  unfolding custom_get_aead custom_supported
  fresh keys id key w held =
      rw (has_prefix-append custom_kms_prefix id, trim_prefix-append custom_kms_prefix id, held)
        refl

  -- Two custom clients that hold the key of a URI, whatever bytes each of them keeps for it, answer
  -- alike: with the AEAD of a fresh key. The bytes that were kept are not used.
  custom_get_aead_ignores_keys :
      (keys others : Dict Bytes) (id key other : Bytes) (w : World)
      → lookup id keys ≡ some key
      → lookup id others ≡ some other
      → (custom_get_aead t keys (custom_kms_prefix ++ id) w
          ≡ (aead_of t (t.new_handle w).0, (t.new_handle w).1))
        × (custom_get_aead t others (custom_kms_prefix ++ id) w
            ≡ custom_get_aead t keys (custom_kms_prefix ++ id) w)
  unfolding custom_supported
  custom_get_aead_ignores_keys keys others id key other w held also =
      (fresh keys id key w held, fresh others id other w also ∙ sym (fresh keys id key w held))

  abbrev refusal : Bool → World → Result Error Aead × World
  refusal true w = (err key_not_found, w)
  refusal false w = (err unsupported_uri, w)

  refusal_fails : (b : Bool) (w : World) (a : Aead) → (refusal b w).0 ≢ ok a
  refusal_fails true w a e = cc
  refusal_fails false w a e = cc

  get_aead_new :
      (uri : Bytes) (w : World)
      → custom_get_aead t new_custom_kms_client uri w ≡ refusal (custom_supported uri) w
  unfolding custom_get_aead lookup
  get_aead_new uri w = elim (Bool-cases (custom_supported uri)) [
    | inl e ↦ rw e refl
    | inr e ↦ rw e refl
  ]

  -- A client that was just made, as `RegisterCustomKMS` registers it, has an AEAD for no URI.
  pub custom_get_aead_new :
      (uri : Bytes) (w : World) (a : Aead)
      → (custom_get_aead t new_custom_kms_client uri w).0 ≢ ok a
  custom_get_aead_new uri w a e =
      refusal_fails (custom_supported uri) w a (sym (ap (λ r. r.0) (get_aead_new uri w)) ∙ e)
