-- ===== src/Hash/Generate/ScryptHash.antt =====
-- A password is compared with the hash that `Scrypt.Generate` made.
use go_svc_extn.Prelude.{
  ◌%◌, ◌<◌, ◌≡◌, refl, some, [], ◌∷◌, ◌++◌, Bytes, IsBytes, codes, length, ok, arith, ◌∙◌,
}
use go_svc_extn.Base64.{std, encode}
use go_svc_extn.Hash.{Kdfs, ScryptConfiguration}
use go_svc_extn.Hash.Formats.{dollar}
use go_svc_extn.Hash.Scan.{u32}
use go_svc_extn.Hash.Decode.{decode_scrypt_hash, scrypt_parts}
use go_svc_extn.Hash.Compare.{compare_password_hash_constant_time, compare_scrypt, compare}
use go_svc_extn.Hash.Compare.Dispatch.{compare_scrypt_text}
use go_svc_extn.Hash.Generate.{print_scrypt, generate_scrypt}
use go_svc_extn.Hash.Generate.Scanned.{
  decode_strict-encode, encode-Lacks, print_scrypt-Lacks, scan_scrypt-print,
}
use go_svc_extn.Hash.Generate.Verified.{IsLawful, split_four, length-kept}

-- The parts of a hash of scrypt are read back; the length of the key is that of the hash.
scrypt_parts-print :
    (c : ScryptConfiguration) (salt key : Bytes)
    → c.cost < u32
    → c.block < u32
    → c.parallelization < u32
    → c.key_length < u32
    → IsBytes salt
    → IsBytes key
    → length key ≡ c.key_length
    → scrypt_parts ([] ∷ codes "scrypt" ∷ print_scrypt c ∷ encode std salt ∷ encode std key ∷ [])
      ≡ ok (record c { salt_length = length salt % u32 }, salt, key)
unfolding scrypt_parts
scrypt_parts-print c salt key costly wide many short sb kb len =
    rw
      (
        scan_scrypt-print c costly wide many,
        decode_strict-encode std salt sb,
        decode_strict-encode std key kb,
      )
      (rw (length-kept key c.key_length len short) refl)

scrypt_text : (c : ScryptConfiguration) (salt key : Bytes) → Bytes
unfolding print_scrypt
scrypt_text c salt key =
    dollar ∷ codes "scrypt"
    ++ (dollar ∷ print_scrypt c ++ (dollar ∷ encode std salt ++ (dollar ∷ encode std key)))

module _ (k : Kdfs) where
  compare-scrypt_text :
      (c : ScryptConfiguration) (other salt key other_key : Bytes)
      → c.cost < u32
      → c.block < u32
      → c.parallelization < u32
      → c.key_length < u32
      → IsBytes salt
      → IsBytes key
      → length key ≡ c.key_length
      → k.scrypt_key other salt c.cost c.block c.parallelization c.key_length ≡ some other_key
      → compare k other (scrypt_text c salt key) ≡ compare_password_hash_constant_time key other_key
  unfolding scrypt_text compare_scrypt
  compare-scrypt_text c other salt key other_key costly wide many short sb kb len derived =
      compare_scrypt_text k other
        (print_scrypt c ++ (dollar ∷ encode std salt ++ (dollar ∷ encode std key)))
      ∙ rw
          (
            compare_scrypt,
            decode_scrypt_hash,
            split_four (codes "scrypt") (print_scrypt c) (encode std salt) (encode std key)
                (ground arith) (print_scrypt-Lacks c) (encode-Lacks std salt sb)
                (encode-Lacks std key kb),
            scrypt_parts-print c salt key costly wide many short sb kb len,
            derived,
          )
          refl

  -- A password is compared with the hash that `Scrypt.Generate` made of one: the hash is made, `Compare`
  -- finds its format and its parameters again, and compares the two derived keys. The counts are of
  -- uint32, the random source gives a salt, and scrypt derives both keys.
  pub compare-generate_scrypt :
      IsLawful k
      → (c : ScryptConfiguration) (password other salt key other_key : Bytes) → c.cost < u32
      → c.block < u32
      → c.parallelization < u32
      → c.key_length < u32
      → k.random c.salt_length ≡ some salt
      → k.scrypt_key password salt c.cost c.block c.parallelization c.key_length ≡ some key
      → k.scrypt_key other salt c.cost c.block c.parallelization c.key_length ≡ some other_key
      → (text : Bytes) × (generate_scrypt k c password ≡ ok text)
        × (compare k other text ≡ compare_password_hash_constant_time key other_key)
  unfolding generate_scrypt
  compare-generate_scrypt lawful c password other salt key other_key costly wide many short drawn
        made derived =
      let (kb, len) =
        lawful.scrypt_bytes password salt c.cost c.block c.parallelization c.key_length key made in
      (
        scrypt_text c salt key,
        unfold scrypt_text in rw (drawn, made),
        compare-scrypt_text c other salt key other_key costly wide many short
            (lawful.random_bytes c.salt_length salt drawn) kb len derived,
      )
