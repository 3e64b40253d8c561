-- ===== src/Hash/Generate/Verified.antt =====
-- What is promised of the packages that the hashers call, and the parts of a text between dollars.
use go_svc_extn.Prelude.{
  ℕ, ◌%◌, ◌<◌, ◌≡◌, some, [], ◌∷◌, ◌++◌, Bytes, IsBytes, Lacks, length, arith,
}
use go_svc_extn.Strings.{split, join}
use go_svc_extn.Strings.Split.{split-join}
use go_svc_extn.Hash.{Kdfs}
use go_svc_extn.Hash.Formats.{dollar}
use go_svc_extn.Hash.Scan.{u32}

-- What the documentation of the packages promises.
pub record IsLawful (k : Kdfs) : Type 0 where
  pub random_bytes : (n : ℕ) (b : Bytes) → k.random n ≡ some b → IsBytes b
  pub pbkdf2_bytes :
      (password salt : Bytes) (i l : ℕ) (prf : Bytes)
      → IsBytes (k.pbkdf2_key password salt i l prf)
        × (length (k.pbkdf2_key password salt i l prf) ≡ l)
  pub id_bytes :
      (password salt : Bytes) (t m p l : ℕ) (key : Bytes)
      → k.id_key password salt t m p l ≡ some key
      → IsBytes key × (length key ≡ l)
  pub scrypt_bytes :
      (password salt : Bytes) (n r p l : ℕ) (key : Bytes)
      → k.scrypt_key password salt n r p l ≡ some key
      → IsBytes key × (length key ≡ l)

-- Four parts behind dollars.
pub split_four :
    (a b c d : Bytes)
    → Lacks dollar a
    → Lacks dollar b
    → Lacks dollar c
    → Lacks dollar d
    → split (dollar ∷ a ++ (dollar ∷ b ++ (dollar ∷ c ++ (dollar ∷ d)))) dollar
      ≡ [] ∷ a ∷ b ∷ c ∷ d ∷ []
split_four a b c d ha hb hc hd =
    unfold join in split-join dollar [] (a ∷ b ∷ c ∷ d ∷ []) (tt, (ha, (hb, (hc, (hd, tt)))))

-- Five parts behind dollars.
pub split_five :
    (a b c d e : Bytes)
    → Lacks dollar a
    → Lacks dollar b
    → Lacks dollar c
    → Lacks dollar d
    → Lacks dollar e
    → split (dollar ∷ a ++ (dollar ∷ b ++ (dollar ∷ c ++ (dollar ∷ d ++ (dollar ∷ e))))) dollar
      ≡ [] ∷ a ∷ b ∷ c ∷ d ∷ e ∷ []
split_five a b c d e ha hb hc hd he =
    unfold join in
    split-join dollar [] (a ∷ b ∷ c ∷ d ∷ e ∷ []) (tt, (ha, (hb, (hc, (hd, (he, tt))))))

pub length-kept : (key : Bytes) (n : ℕ) → length key ≡ n → n < u32 → length key % u32 ≡ n
length-kept key n len short = rw len (omega arith)
