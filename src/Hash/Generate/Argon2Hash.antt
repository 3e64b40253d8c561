-- ===== src/Hash/Generate/Argon2Hash.antt =====
-- A password is compared with the hash that `Argon2.Generate` made.
use go_svc_extn.Prelude.{
  ℕ, ◌%◌, ◌^◌, ◌<◌, ◌≡◌, ◌≢◌, refl, some, [], ◌∷◌, ◌++◌, Bytes, IsBytes, Lacks, All-append, codes,
  length, ok, arith, ◌∙◌,
}
use go_svc_extn.Prelude.Int.{pos}
use go_svc_extn.Base64.{raw_std, encode}
use go_svc_extn.Strconv.{format_uint}
use go_svc_extn.Sscanf.RoundTrip.{sscanf_int-print}
use go_svc_extn.Hash.{Kdfs, Argon2Configuration}
use go_svc_extn.Hash.Formats.{dollar}
use go_svc_extn.Hash.Scan.{u8, u32}
use go_svc_extn.Hash.Decode.{decode_argon2id_hash, argon2_parts, check_version}
use go_svc_extn.Hash.Compare.{compare_password_hash_constant_time, compare_argon2id, compare}
use go_svc_extn.Hash.Compare.Dispatch.{compare_argon2id_text}
use go_svc_extn.Hash.Generate.{print_argon2, generate_argon2, to_kb}
use go_svc_extn.Hash.Generate.Scanned.{
  decode_strict-encode, encode-Lacks, format_uint-Lacks, print_argon2-Lacks, scan_argon2-print,
}
use go_svc_extn.Hash.Generate.Verified.{IsLawful, split_five, length-kept}

version-Lacks : (n : ℕ) → Lacks dollar (codes "v=" ++ format_uint n)
version-Lacks n =
    All-append (λ c. c ≢ dollar) (codes "v=") (format_uint n) (ground arith) (format_uint-Lacks n)

module _ (k : Kdfs) where
  check_version_self : check_version k (pos k.argon2_version) ≡ ok tt
  unfolding check_version
  check_version_self = ground arith

  -- The parts of a hash of Argon2 are read back; the memory is the printed one, the length of the key
  -- that of the hash.
  argon2_parts-print :
      (memory : ℕ) (c : Argon2Configuration) (salt key : Bytes)
      → k.argon2_version < 2 ^ 63
      → memory < u32
      → c.iterations < u32
      → c.parallelism < u8
      → c.key_length < u32
      → IsBytes salt
      → IsBytes key
      → length key ≡ c.key_length
      → argon2_parts k (
          []
          ∷ codes "argon2id"
          ∷ (codes "v=" ++ format_uint k.argon2_version)
          ∷ print_argon2 memory c
          ∷ encode raw_std salt
          ∷ encode raw_std key
          ∷ [])
        ≡ ok (record c { memory = memory; salt_length = length salt % u8 }, salt, key)
  unfolding argon2_parts
  argon2_parts-print memory c salt key old small short few brief sb kb len =
      rw
        (
          sscanf_int-print (codes "v=") k.argon2_version old,
          check_version_self,
          scan_argon2-print memory c small short few,
          decode_strict-encode raw_std salt sb,
          decode_strict-encode raw_std key kb,
        )
        (rw (length-kept key c.key_length len brief) refl)

  argon2_text : (memory : ℕ) (c : Argon2Configuration) (salt key : Bytes) → Bytes
  unfolding print_argon2
  argon2_text memory c salt key =
      dollar ∷ codes "argon2id"
      ++ (dollar ∷ (codes "v=" ++ format_uint k.argon2_version)
          ++ (dollar ∷ print_argon2 memory c
              ++ (dollar ∷ encode raw_std salt ++ (dollar ∷ encode raw_std key))))

  compare-argon2_text :
      (memory : ℕ) (c : Argon2Configuration) (other salt key other_key : Bytes)
      → k.argon2_version < 2 ^ 63
      → memory < u32
      → c.iterations < u32
      → c.parallelism < u8
      → c.key_length < u32
      → IsBytes salt
      → IsBytes key
      → length key ≡ c.key_length
      → k.id_key other salt c.iterations memory c.parallelism c.key_length ≡ some other_key
      → compare k other (argon2_text memory c salt key)
        ≡ compare_password_hash_constant_time key other_key
  unfolding argon2_text compare_argon2id
  compare-argon2_text memory c other salt key other_key old small short few brief sb kb len
        derived =
      let same : memory % u32 ≡ memory = omega arith in
      compare_argon2id_text k other (
        (codes "v=" ++ format_uint k.argon2_version)
        ++ (dollar ∷ print_argon2 memory c
            ++ (dollar ∷ encode raw_std salt ++ (dollar ∷ encode raw_std key))))
      ∙ rw
          (
            compare_argon2id,
            decode_argon2id_hash,
            split_five (codes "argon2id") (codes "v=" ++ format_uint k.argon2_version)
                (print_argon2 memory c) (encode raw_std salt) (encode raw_std key) (ground arith)
                (version-Lacks k.argon2_version) (print_argon2-Lacks memory c)
                (encode-Lacks raw_std salt sb) (encode-Lacks raw_std key kb),
            argon2_parts-print memory c salt key old small short few brief sb kb len,
            same,
            derived,
          )
          refl

  -- A password is compared with the hash that `Argon2.Generate` made of one: the hash is made, `Compare`
  -- finds its format and its parameters again, the memory in KB, and compares the two derived keys.
  -- The counts are in the range of their types, the version is an int, the random source gives a
  -- salt, and Argon2id derives both keys.
  pub compare-generate_argon2 :
      IsLawful k
      → (c : Argon2Configuration) (password other salt key other_key : Bytes)
      → k.argon2_version < 2 ^ 63
      → c.iterations < u32
      → c.parallelism < u8
      → c.key_length < u32
      → k.random c.salt_length ≡ some salt
      → k.id_key password salt c.iterations (to_kb k c.memory) c.parallelism c.key_length ≡ some key
      → k.id_key other salt c.iterations (to_kb k c.memory) c.parallelism c.key_length
        ≡ some other_key
      → (text : Bytes) × (generate_argon2 k c password ≡ ok text)
        × (compare k other text ≡ compare_password_hash_constant_time key other_key)
  unfolding generate_argon2
  compare-generate_argon2 lawful c password other salt key other_key old short few brief drawn made
        derived =
      let (kb, len) =
        lawful.id_bytes password salt c.iterations (to_kb k c.memory) c.parallelism c.key_length key
          made in
      (
        argon2_text (to_kb k c.memory) c salt key,
        unfold argon2_text in rw (drawn, made),
        compare-argon2_text (to_kb k c.memory) c other salt key other_key old
            (unfold to_kb in omega arith) short few brief
            (lawful.random_bytes c.salt_length salt drawn) kb len derived,
      )
