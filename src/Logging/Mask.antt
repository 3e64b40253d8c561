-- ===== src/Logging/Mask.antt =====
-- What a masked text shows.
use go_svc_extn.Prelude.{
  ℕ, zero, suc, ◌-◌, ◌≤◌, ◌<◌, ◌≡◌, ◌⊎◌, refl, ap, [], ◌∷◌, ◌++◌, Bytes, length, take, drop,
  replicate, length-append, length-replicate, length-drop, leb, if◌then◌else◌, arith,
}
use go_svc_extn.Logging.{mask_string}

-- The bytes of a text that its mask shows: the last four, of a text longer than four.
abbrev pub shown : Bytes → Bytes
shown s = if leb (length s) 4 then [] else drop (length s - 4) s

mask_string_long :
    (s : Bytes)
    → 4 < length s
    → mask_string s ≡ replicate (length s - 4) b'*' ++ drop (length s - 4) s
unfolding mask_string
mask_string_long s h = ground arith

take-replicate : (n c : ℕ) (ys : Bytes) → take n (replicate n c ++ ys) ≡ replicate n c
take-replicate zero c ys = refl
take-replicate (suc n) c ys = ap (λ l. c ∷ l) (take-replicate n c ys)

drop-replicate : (n c : ℕ) (ys : Bytes) → drop n (replicate n c ++ ys) ≡ ys
drop-replicate zero c ys = refl
drop-replicate (suc n) c ys = drop-replicate n c ys

-- A text longer than four bytes keeps its length under the mask and its last four bytes, and all
-- before them are stars.
pub mask_string_lem :
    (s : Bytes)
    → 4 < length s
    → (length (mask_string s) ≡ length s)
      × (take (length s - 4) (mask_string s) ≡ replicate (length s - 4) b'*')
      × (drop (length s - 4) (mask_string s) ≡ drop (length s - 4) s)
mask_string_lem s h =
    let hidden = length s - 4 in
    let rest = drop hidden s in
    rw (mask_string_long s h) (
      omega (
        arith,
        length-append (replicate hidden b'*') rest,
        length-replicate {A = ℕ} hidden b'*',
        length-drop hidden s,
      ),
      take-replicate hidden b'*' rest,
      drop-replicate hidden b'*' rest,
    )

-- The mask of a text is determined by what it shows and by its length, cut off at four: texts that
-- agree in these have one mask.
pub mask_string_secret :
    (s t : Bytes)
    → (length s ≡ length t) ⊎ ((length s ≤ 4) × (length t ≤ 4))
    → shown s ≡ shown t
    → mask_string s ≡ mask_string t
unfolding mask_string
mask_string_secret s t h e = ground (arith, h)
