-- ===== src/Crypto/Service/Aliases.antt =====
-- Aliases are recognised, and what is encrypted is decrypted.
use go_svc_extn.Prelude.{
  ok_injective, ◌≡◌, refl, sym, ap, ◌∙◌, ◌↔◌, true, some, Bytes, IsBytes, eq_bytes_iff,
  eq_bytes_self, ok, or_err, or_err-ok, bind-ok,
}
use go_svc_extn.Base64.{raw_std, encode}
use go_svc_extn.Base64.RoundTrip.{decode-encode}
use go_svc_extn.Hash.{Kdfs}
use go_svc_extn.Crypto.Kms.{Tink, encryption_failed, handler_encrypt, handler_decrypt}
use go_svc_extn.Crypto.Service.{CryptoUtil, create_alias, compare_hash, armored, encrypt, decrypt}

-- A stored hash is recognised as that of a text exactly where it is the alias that is made of the text
-- again, empty texts included; and where no alias can be made, the comparison has no answer either.
pub compare_hash_iff :
    {Aead : Type 0} (k : Kdfs) (u : CryptoUtil Aead) (plain stored : Bytes)
    → (compare_hash k u plain stored ≡ ok true) ↔ (create_alias k u plain ≡ ok stored)
unfolding compare_hash
compare_hash_iff k u plain stored = (
  λ h.
      (let (new, made, same) = bind-ok (create_alias k u plain) _ true h in
        made ∙ ap ok (sym ((eq_bytes_iff stored new).0 (ok_injective same)))),
  λ made. rw made (ap ok (eq_bytes_self stored)),
)

-- What the documentation of Tink promises of an AEAD.
pub record IsAead {Keyset Aead World : Type 0} (t : Tink Keyset Aead World) : Type 0 where
  pub cipher_bytes :
      (a : Aead) (plain ad cipher : Bytes) (w : World)
      → (t.encrypt a plain ad w).0 ≡ some cipher
      → IsBytes cipher
  pub decrypt-encrypt :
      (a : Aead) (plain ad cipher : Bytes) (w : World)
      → (t.encrypt a plain ad w).0 ≡ some cipher
      → t.decrypt a cipher ad ≡ some plain

module _ {Keyset Aead World : Type 0} (t : Tink Keyset Aead World) (lawful : IsAead t) where
  -- A text that the service encrypted is decrypted by it under the same associated data, whatever nonce
  -- was drawn.
  pub decrypt-encrypt_text :
      (u : CryptoUtil Aead) (plain ad text : Bytes) (w : World)
      → (encrypt t u plain ad w).0 ≡ ok text
      → decrypt t u text ad ≡ ok plain
  unfolding encrypt decrypt handler_encrypt handler_decrypt armored
  decrypt-encrypt_text u plain ad text w e =
      let (cipher, made, shown) =
        bind-ok (or_err (t.encrypt u.crypto_provider plain ad w).0 encryption_failed) _ text e in
      let drawn =
        or_err-ok (t.encrypt u.crypto_provider plain ad w).0 encryption_failed cipher made in
      let same : text ≡ encode raw_std cipher = sym (ok_injective shown) in
      rw
        (
          same,
          decode-encode raw_std cipher
              (lawful.cipher_bytes u.crypto_provider plain ad cipher w drawn),
          lawful.decrypt-encrypt u.crypto_provider plain ad cipher w drawn,
        )
        refl
