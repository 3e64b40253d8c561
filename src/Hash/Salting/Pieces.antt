-- ===== src/Hash/Salting/Pieces.antt =====
-- What a salting format stands for.
use go_svc_extn.Prelude.{
  ℕ, ◌≡◌, refl, ap, ◌∙◌, ◌≢◌, false, List, [], ◌∷◌, ◌++◌, Bytes, codes, Lacks, arith,
}
use go_svc_extn.Strings.{has_prefix, strip_prefix}
use go_svc_extn.Hash.Salting.{replace_from, fill}

-- A format: the salt, the password, and texts between them.
pub data Piece : Type 0 where
  salt password : Piece
  text : Bytes → Piece

-- The format as it is written.
unfoldable pub written : List Piece → Bytes
written [] = []
written (salt ∷ ps) = codes "{SALT}" ++ written ps
written (password ∷ ps) = codes "{PASSWORD}" ++ written ps
written (text t ∷ ps) = t ++ written ps

-- What it stands for.
unfoldable pub meant : Bytes → Bytes → List Piece → Bytes
meant s p [] = []
meant s p (salt ∷ ps) = s ++ meant s p ps
meant s p (password ∷ ps) = p ++ meant s p ps
meant s p (text t ∷ ps) = t ++ meant s p ps

-- No text has an opening brace.
abbrev pub IsPlain : List Piece → Type 0
IsPlain [] = Unit {0}
IsPlain (text t ∷ ps) = Lacks b'{' t × IsPlain ps
IsPlain (_ ∷ ps) = IsPlain ps

no_brace : (c : ℕ) (s w : Bytes) → c ≢ b'{' → has_prefix (c ∷ s) (b'{' ∷ w) ≡ false
unfolding has_prefix strip_prefix
no_brace c s w h = ground arith

module _ (s p : Bytes) where
  replace_from-plain :
      (t rest : Bytes)
      → Lacks b'{' t
      → replace_from 0 s p (t ++ rest) ≡ t ++ replace_from 0 s p rest
  unfolding replace_from
  replace_from-plain [] rest h = refl
  replace_from-plain (c ∷ t) rest (h, hs) =
      rw
        (
          no_brace c (t ++ rest) (codes "SALT}") h,
          no_brace c (t ++ rest) (codes "PASSWORD}") h,
          replace_from,
        )
        (ap (λ r. c ∷ r) (replace_from-plain t rest hs))

  -- A format is filled piece by piece: the salt and the password stand for their words, and the texts
  -- for themselves, if no text has an opening brace; braces in the salt and in the password do not
  -- count.
  pub fill-written : (ps : List Piece) → IsPlain ps → fill s p (written ps) ≡ meant s p ps
  unfolding fill written meant replace_from has_prefix strip_prefix
  fill-written [] h = refl
  fill-written (salt ∷ ps) h = ap (λ r. s ++ r) (fill-written ps h)
  fill-written (password ∷ ps) h = ap (λ r. p ++ r) (fill-written ps h)
  fill-written (text t ∷ ps) (h, hs) =
      replace_from-plain t (written ps) h ∙ ap (λ r. t ++ r) (fill-written ps hs)
