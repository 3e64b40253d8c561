-- ===== src/Hash/Generate/Pbkdf2Hash.antt =====
-- A password is compared with the hash that `Pbkdf2.Generate` made.
use go_svc_extn.Prelude.{
  eq_bytes_self, ◌%◌, ◌≤◌, ◌<◌, ◌≡◌, ◌≢◌, refl, true, some, [], ◌∷◌, ◌++◌, Bytes, IsBytes, Lacks,
  All, All-append, All-map, codes, length, ok, arith, ◌∙◌,
}
use go_svc_extn.Base64.{raw_std, encode}
use go_svc_extn.Strconv.RoundTrip.{IsDigit}
use go_svc_extn.Strings.{cut_at}
use go_svc_extn.Hash.{Kdfs, Pbkdf2}
use go_svc_extn.Hash.Formats.{dollar, pbkdf2_tail}
use go_svc_extn.Hash.Scan.{u32}
use go_svc_extn.Hash.Decode.{decode_pbkdf2_hash, pbkdf2_parts}
use go_svc_extn.Hash.Compare.{
  prf_name, compare_password_hash_constant_time, compare_pbkdf2, compare,
}
use go_svc_extn.Hash.Compare.Dispatch.{compare_pbkdf2_text}
use go_svc_extn.Hash.Generate.{print_pbkdf2, generate_pbkdf2}
use go_svc_extn.Hash.Generate.Scanned.{
  decode_strict-encode, encode-Lacks, print_pbkdf2-Lacks, scan_pbkdf2-print,
}
use go_svc_extn.Hash.Generate.Verified.{IsLawful, split_four, length-kept}

-- The digits of a name such as `sha256`: one to three.
abbrev pub IsShaDigits : Bytes → Type 0
IsShaDigits ds = All IsDigit ds × (1 ≤ length ds) × (length ds ≤ 3)

pbkdf2_tail_of_digits : (ds s : Bytes) → IsShaDigits ds → pbkdf2_tail (ds ++ dollar ∷ s) ≡ true
unfolding pbkdf2_tail
pbkdf2_tail_of_digits [] s (_, h, _) = absurd (omega arith)
pbkdf2_tail_of_digits (a ∷ []) [] ((h, _), _, _) = ground arith
pbkdf2_tail_of_digits (a ∷ []) (x ∷ []) ((h, _), _, _) = ground arith
pbkdf2_tail_of_digits (a ∷ []) (x ∷ y ∷ s) ((h, _), _, _) = ground arith
pbkdf2_tail_of_digits (a ∷ b ∷ []) [] ((h, (k, _)), _, _) = ground arith
pbkdf2_tail_of_digits (a ∷ b ∷ []) (x ∷ s) ((h, (k, _)), _, _) = ground arith
pbkdf2_tail_of_digits (a ∷ b ∷ c ∷ []) s ((h, (k, (l, _))), _, _) = ground arith
pbkdf2_tail_of_digits (a ∷ b ∷ c ∷ d ∷ ds) s (_, _, h) = absurd (omega arith)

IsShaDigits-Lacks : (ds : Bytes) → IsShaDigits ds → Lacks dollar (codes "pbkdf2-sha" ++ ds)
IsShaDigits-Lacks ds (h, _, _) =
    All-append (λ c. c ≢ dollar) (codes "pbkdf2-sha") ds (ground arith)
      (All-map IsDigit (λ c. c ≢ dollar) (λ c k. omega arith) ds h)

-- The parts of a hash of PBKDF2 are read back; the length of the key is that of the hash.
pbkdf2_parts-print :
    (h : Pbkdf2) (ds salt key : Bytes)
    → h.iterations < u32
    → h.key_length < u32
    → IsBytes salt
    → IsBytes key
    → length key ≡ h.key_length
    → pbkdf2_parts (
        []
        ∷ (codes "pbkdf2-sha" ++ ds)
        ∷ print_pbkdf2 h
        ∷ encode raw_std salt
        ∷ encode raw_std key
        ∷ [])
      ≡ ok (
        record {
          algorithm = codes "sha" ++ ds;
          iterations = h.iterations;
          salt_length = length salt % u32;
          key_length = h.key_length;
        },
        salt,
        key,
      )
unfolding pbkdf2_parts cut_at
pbkdf2_parts-print h ds salt key small short sb kb len =
    rw
      (
        scan_pbkdf2-print h small short,
        decode_strict-encode raw_std salt sb,
        decode_strict-encode raw_std key kb,
      )
      (rw (length-kept key h.key_length len short) refl)

constant_time_of_nil :
    (s t : Bytes) → length s ≡ 0 → length t ≡ 0 → compare_password_hash_constant_time s t ≡ ok tt
unfolding compare_password_hash_constant_time
constant_time_of_nil [] [] _ _ = rw (eq_bytes_self []) refl
constant_time_of_nil (a ∷ s) t h _ = absurd (omega (arith, h))
constant_time_of_nil [] (b ∷ t) _ h = absurd (omega (arith, h))

pbkdf2_text : (h : Pbkdf2) (ds salt key : Bytes) → Bytes
unfolding print_pbkdf2
pbkdf2_text h ds salt key =
    dollar ∷ (codes "pbkdf2-sha" ++ ds)
    ++ (dollar ∷ print_pbkdf2 h ++ (dollar ∷ encode raw_std salt ++ (dollar ∷ encode raw_std key)))

module _ (k : Kdfs) where
  compare-pbkdf2_text :
      (h : Pbkdf2) (ds other salt key : Bytes)
      → IsShaDigits ds
      → h.iterations < u32
      → h.key_length < u32
      → IsBytes salt
      → IsBytes key
      → length key ≡ h.key_length
      → compare k other (pbkdf2_text h ds salt key)
        ≡ compare_password_hash_constant_time key
            (k.pbkdf2_key other salt h.iterations h.key_length (prf_name (codes "sha" ++ ds)))
  unfolding pbkdf2_text compare_pbkdf2
  compare-pbkdf2_text h ds other salt key digits small short sb kb len =
      compare_pbkdf2_text k other
        (ds
          ++ (dollar ∷ print_pbkdf2 h
              ++ (dollar ∷ encode raw_std salt ++ (dollar ∷ encode raw_std key))))
        (pbkdf2_tail_of_digits ds
          (print_pbkdf2 h ++ (dollar ∷ encode raw_std salt ++ (dollar ∷ encode raw_std key)))
          digits)
      ∙ rw
          (
            compare_pbkdf2,
            decode_pbkdf2_hash,
            split_four (codes "pbkdf2-sha" ++ ds) (print_pbkdf2 h) (encode raw_std salt)
                (encode raw_std key) (IsShaDigits-Lacks ds digits) (print_pbkdf2-Lacks h)
                (encode-Lacks raw_std salt sb) (encode-Lacks raw_std key kb),
            pbkdf2_parts-print h ds salt key small short sb kb len,
          )
          refl

  -- A password is compared with the hash that `Pbkdf2.Generate` made of one: the hash is made, `Compare`
  -- finds its format and its parameters again, and compares the two derived keys. The algorithm is
  -- `sha` and one to three digits, the counts are of uint32, and the random source gives a salt.
  pub compare-generate_pbkdf2 :
      IsLawful k
      → (h : Pbkdf2) (ds password other salt : Bytes) → h.algorithm ≡ codes "sha" ++ ds
      → IsShaDigits ds
      → h.iterations < u32
      → h.key_length < u32
      → k.random h.salt_length ≡ some salt
      → (text : Bytes) × (generate_pbkdf2 k h password ≡ ok text)
        × (compare k other text
            ≡ compare_password_hash_constant_time
                (k.pbkdf2_key password salt h.iterations h.key_length (prf_name h.algorithm))
                (k.pbkdf2_key other salt h.iterations h.key_length (prf_name h.algorithm)))
  unfolding generate_pbkdf2
  compare-generate_pbkdf2 lawful h ds password other salt named digits small short drawn =
      let key = k.pbkdf2_key password salt h.iterations h.key_length (prf_name h.algorithm) in
      let (kb, len) =
        lawful.pbkdf2_bytes password salt h.iterations h.key_length (prf_name h.algorithm) in
      (
        pbkdf2_text h ds salt key,
        unfold pbkdf2_text in rw (drawn, named),
        compare-pbkdf2_text h ds other salt key digits small short
              (lawful.random_bytes h.salt_length salt drawn) kb len
            ∙ rw named refl,
      )

  -- A hash that `Pbkdf2.Generate` makes with the key length 0 is compared as equal with every password:
  -- under the same conditions, whatever password it was made of.
  pub compare_keyless :
      IsLawful k
      → (h : Pbkdf2) (ds password other salt : Bytes) → h.algorithm ≡ codes "sha" ++ ds
      → IsShaDigits ds
      → h.iterations < u32
      → h.key_length ≡ 0
      → k.random h.salt_length ≡ some salt
      → (text : Bytes) × (generate_pbkdf2 k h password ≡ ok text) × (compare k other text ≡ ok tt)
  compare_keyless lawful h ds password other salt named digits small keyless drawn =
      let prf = prf_name h.algorithm in
      let (text, made, e) =
        compare-generate_pbkdf2 lawful h ds password other salt named digits small (omega arith)
          drawn in
      let (_, len) = lawful.pbkdf2_bytes password salt h.iterations h.key_length prf in
      let (_, other_len) = lawful.pbkdf2_bytes other salt h.iterations h.key_length prf in
      (text, made, e ∙ constant_time_of_nil _ _ (len ∙ keyless) (other_len ∙ keyless))
