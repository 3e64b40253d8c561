-- ===== src/Crypto/Symmetric/RoundTrip.antt =====
-- What is encrypted under a key is decrypted under it.
use go_svc_extn.Prelude.{
  ◌≡◌, ◌≢◌, refl, true, some, [], ◌∷◌, ◌++◌, Bytes, IsBytes, Lacks, All-map, length, ok, panic,
  arith, Option-cases, inl, inr,
}
use go_svc_extn.Base64.{raw_std, encode, decode}
use go_svc_extn.Base64.RoundTrip.{IsPlain, decode-encode, encode-IsPlain}
use go_svc_extn.Strings.Split.{split_double-append}
use go_svc_extn.Crypto.Symmetric.{
  Primitives, IsLawful, is_key_size, check_key, nonce_size, dollar, generate_key, encrypt_with_key,
  open_sealed, decrypt_parts, decrypt_with_key,
}

encode-Lacks : (s : Bytes) → IsBytes s → Lacks dollar (encode raw_std s)
encode-Lacks s h =
    All-map IsPlain (λ c. c ≢ dollar) (λ c k. k.2) (encode raw_std s) (encode-IsPlain raw_std s h)

check_key-ok : (key : Bytes) → is_key_size (length key) ≡ true → check_key key ≡ ok tt
unfolding check_key
check_key-ok key h = rw h

module _ (p : Primitives) (lawful : IsLawful p) where
  open_sealed-seal :
      (key nonce plain : Bytes)
      → is_key_size (length key) ≡ true
      → length nonce ≡ nonce_size
      → open_sealed p key nonce (p.seal key nonce plain) ≡ ok plain
  unfolding open_sealed
  open_sealed-seal key nonce plain sized twelve =
      rw (twelve, lawful.unseal-seal key nonce plain sized twelve)

  -- The parts of a cipher text, read back.
  decrypt_parts-encode :
      (key nonce plain : Bytes)
      → is_key_size (length key) ≡ true
      → length nonce ≡ nonce_size
      → IsBytes nonce
      → IsBytes plain
      → decrypt_parts p key (encode raw_std nonce ∷ encode raw_std (p.seal key nonce plain) ∷ [])
        ≡ ok plain
  unfolding decrypt_parts
  decrypt_parts-encode key nonce plain sized twelve h k =
      rw
        (
          decode-encode raw_std nonce h,
          decode-encode raw_std (p.seal key nonce plain) (lawful.seal_bytes key nonce plain k),
          check_key-ok key sized,
        )
        (open_sealed-seal key nonce plain sized twelve)

  -- The cipher text of a plain text, and its decryption.
  decrypt_with_key-cipher :
      (key key_bytes nonce plain : Bytes)
      → decode raw_std key ≡ some key_bytes
      → is_key_size (length key_bytes) ≡ true
      → length nonce ≡ nonce_size
      → IsBytes nonce
      → IsBytes plain
      → decrypt_with_key p key
          (encode raw_std nonce ++ dollar ∷ dollar ∷ encode raw_std (p.seal key_bytes nonce plain))
        ≡ ok plain
  unfolding decrypt_with_key
  decrypt_with_key-cipher key key_bytes nonce plain e sized twelve h k =
      rw
        (
          e,
          split_double-append dollar (encode raw_std nonce)
              (encode raw_std (p.seal key_bytes nonce plain)) (encode-Lacks nonce h)
              (encode-Lacks _ (lawful.seal_bytes key_bytes nonce plain k)),
        )
        (decrypt_parts-encode key_bytes nonce plain sized twelve h k)

  -- Under every key that is base64 of 16, 24 or 32 bytes, encryption succeeds where the random
  -- source gives a nonce, and decryption under the key gives the plain text back.
  pub decrypt_with_key-encrypt_with_key :
      (key key_bytes nonce plain : Bytes)
      → decode raw_std key ≡ some key_bytes
      → is_key_size (length key_bytes) ≡ true
      → p.random nonce_size ≡ some nonce
      → IsBytes plain
      → (cipher : Bytes) × (encrypt_with_key p key plain ≡ ok cipher)
        × (decrypt_with_key p key cipher ≡ ok plain)
  unfolding encrypt_with_key
  decrypt_with_key-encrypt_with_key key key_bytes nonce plain e sized drawn h =
      let (twelve, bytes) = lawful.random_bytes nonce_size nonce drawn in
      (
        encode raw_std nonce ++ dollar ∷ dollar ∷ encode raw_std (p.seal key_bytes nonce plain),
        rw (e, check_key-ok key_bytes sized, drawn),
        decrypt_with_key-cipher key key_bytes nonce plain e sized twelve bytes h,
      )

  generate_key-ok :
      {key : Bytes}
      → generate_key p ≡ ok key
      → (b : Bytes) × (p.random 32 ≡ some b) × (key ≡ encode raw_std b)
  unfolding generate_key
  generate_key-ok e = elim (Option-cases (p.random 32)) [
    | inl failed ↦ absurd (ground arith)
    | inr (b, made) ↦ (b, made, ground arith)
  ]

  -- A key that `GenerateAesKey` returns serves to encrypt and decrypt every text, where the random
  -- source gives a nonce.
  pub decrypt-encrypt_generated :
      (key nonce plain : Bytes)
      → generate_key p ≡ ok key
      → p.random nonce_size ≡ some nonce
      → IsBytes plain
      → (cipher : Bytes) × (encrypt_with_key p key plain ≡ ok cipher)
        × (decrypt_with_key p key cipher ≡ ok plain)
  decrypt-encrypt_generated key nonce plain e drawn h =
      let (key_bytes, made, same) = generate_key-ok e in
      let (size, bytes) = lawful.random_bytes 32 key_bytes made in
      rw same (
        decrypt_with_key-encrypt_with_key (encode raw_std key_bytes) key_bytes nonce plain
          (decode-encode raw_std key_bytes bytes) (rw size (unfold is_key_size in refl)) drawn h)

-- A nonce of another size than 12 bytes makes `DecryptWithKey` panic, whatever the sealed bytes are:
-- the two parts decode and the key has a size of AES.
pub decrypt_with_key_panics :
    (p : Primitives) (key key_bytes nonce sealed : Bytes)
    → decode raw_std key ≡ some key_bytes
    → is_key_size (length key_bytes) ≡ true
    → IsBytes nonce
    → IsBytes sealed
    → length nonce ≢ nonce_size
    → decrypt_with_key p key (encode raw_std nonce ++ dollar ∷ dollar ∷ encode raw_std sealed)
      ≡ panic
unfolding decrypt_with_key
decrypt_with_key_panics p key key_bytes nonce sealed e sized h k other =
    rw
      (
        e,
        split_double-append dollar (encode raw_std nonce) (encode raw_std sealed)
            (encode-Lacks nonce h) (encode-Lacks sealed k),
        decrypt_parts,
        decode-encode raw_std nonce h,
        decode-encode raw_std sealed k,
        check_key-ok key_bytes sized,
      )
      (unfold open_sealed in ground arith)
