-- ===== src/Pagination/Walk.antt =====
-- `ToPageToken`, `ParsePageToken` and `Paginate` for a client that follows the page tokens.
use mathlib.Core.Path.{ap₂}
use go_svc_extn.Prelude.{
  ℕ, zero, suc, ◌+◌, ◌-◌, ◌*◌, ◌^◌, ◌≤◌, ◌<◌, ◌≡◌, refl, sym, ap, ◌∙◌, List, [], ◌∷◌, ◌++◌, Bytes,
  length, take, drop, arith,
}
use go_svc_extn.Prelude.Int.{ℤ, pos, pos_part, IsInt64, ◌+ℤ◌}
use go_svc_extn.Pagination.{to_page_token, parse_page_token, Window, paginate}
use go_svc_extn.Pagination.Bounds.{page_number, page_limit, paginate_exact}
use go_svc_extn.Pagination.Token.{parse_page_token-to_page_token}

module _ {ℓ} {A : Type ℓ} where
  drop-nil : (n : ℕ) → drop {A = A} n [] ≡ []
  drop-nil zero = refl
  drop-nil (suc n) = refl

  take-nil : (n : ℕ) → take {A = A} n [] ≡ []
  take-nil zero = refl
  take-nil (suc n) = refl

  drop-add : (a b : ℕ) (xs : List A) → drop (a + b) xs ≡ drop b (drop a xs)
  drop-add zero b xs = ap (λ n. drop n xs) (omega arith)
  drop-add (suc a) b [] = rw (drop-nil (suc a + b), drop-nil b) refl
  drop-add (suc a) b (x ∷ xs) =
      let up : suc a + b ≡ suc (a + b) = omega arith in rw up (drop-add a b xs)

  take-add : (a b : ℕ) (xs : List A) → take (a + b) xs ≡ take a xs ++ take b (drop a xs)
  take-add zero b xs = ap (λ n. take n xs) (omega arith)
  take-add (suc a) b [] = rw (take-nil (suc a + b), take-nil b) refl
  take-add (suc a) b (x ∷ xs) =
      let up : suc a + b ≡ suc (a + b) = omega arith in rw up (ap (λ ys. x ∷ ys) (take-add a b xs))

  -- A page of `l` rows, and `f` pages behind it.
  take_pages :
      (f n l : ℕ) (xs : List A)
      → take l (drop (n * l) xs) ++ take (f * l) (drop ((n + 1) * l) xs)
        ≡ take (suc f * l) (drop (n * l) xs)
  take_pages f n l xs =
      let one_more : (n + 1) * l ≡ n * l + l = omega arith in
      let all : suc f * l ≡ l + f * l = omega arith in
      rw (one_more, all, drop-add (n * l) l xs) (sym (take-add l (f * l) (drop (n * l) xs)))

  take_all : (n : ℕ) (xs : List A) → length xs ≤ n → take n xs ≡ xs
  take_all zero [] h = refl
  take_all zero (x ∷ xs) h = absurd (omega arith)
  take_all (suc n) [] h = refl
  take_all (suc n) (x ∷ xs) h = ap (λ ys. x ∷ ys) (take_all n xs (omega arith))

  -- The rows of a table that a query sets out with an offset and a limit gives.
  abbrev pub rows : Window → List A → List A
  rows w xs = take (pos_part w.limit) (drop (pos_part w.offset) xs)

  -- What the server answers to a token, and the token that it sends along.
  unfoldable pub page : Bytes → List A → List A
  page token xs = rows (paginate (parse_page_token token).0 (parse_page_token token).1) xs

pub next_token : Bytes → Bytes
next_token token = to_page_token (parse_page_token token).0 (parse_page_token token).1

+ℤ-one : (n : ℕ) → n + 1 < 2 ^ 56 → pos n +ℤ pos 1 ≡ pos (n + 1)
unfolding ◌+ℤ◌
+ℤ-one n h = ground arith

parse_next :
    (n : ℕ) (size : ℤ)
    → n + 1 < 2 ^ 56
    → IsInt64 size
    → parse_page_token (to_page_token (pos n) size) ≡ (pos (n + 1), size)
parse_next n size h k =
    parse_page_token-to_page_token (pos n) size k ∙ ap (λ z. (z, size)) (+ℤ-one n h)

module _ {ℓ} {A : Type ℓ} where
  -- A client that asks for a number of pages, each by the token that came with the last.
  unfoldable pub walk : ℕ → Bytes → List A → List A
  unfolding page next_token
  walk zero token xs = []
  walk (suc n) token xs = page token xs ++ walk n (next_token token) xs

  page-to_page_token :
      (n : ℕ) (size : ℤ) (xs : List A)
      → n + 1 < 2 ^ 56
      → IsInt64 size
      → page (to_page_token (pos n) size) xs
        ≡ take (page_limit size) (drop (n * page_limit size) xs)
  unfolding page
  page-to_page_token n size xs h k =
      let (at_offset, at_limit, _, _) = paginate_exact (pos (n + 1)) size h in
      let before : page_number (pos (n + 1)) - 1 ≡ n = ground arith in
      ap (λ (p : ℤ × ℤ). rows (paginate p.0 p.1) xs) (parse_next n size h k)
      ∙ ap₂ (λ limit offset. take (pos_part limit) (drop (pos_part offset) xs)) at_limit
          (at_offset ∙ ap (λ m. pos (m * page_limit size)) before)

  walk-from :
      (f n : ℕ) (size : ℤ) (xs : List A)
      → n + f < 2 ^ 56
      → IsInt64 size
      → walk f (to_page_token (pos n) size) xs
        ≡ take (f * page_limit size) (drop (n * page_limit size) xs)
  unfolding walk
  walk-from zero n size xs h k =
      let none_asked : 0 * page_limit size ≡ 0 = omega arith in rw none_asked refl
  walk-from (suc f) n size xs h k =
      let small : n + 1 < 2 ^ 56 = omega arith in
      let next : next_token (to_page_token (pos n) size) ≡ to_page_token (pos (n + 1)) size =
        unfold next_token in
        ap (λ (p : ℤ × ℤ). to_page_token p.0 p.1) (parse_next n size small k) in
      ap₂ ◌++◌ (page-to_page_token n size xs small k)
        (ap (λ t. walk f t xs) next ∙ walk-from f (n + 1) size xs (omega arith) k)
      ∙ take_pages f n (page_limit size) xs

  -- A client that starts with the token of the first page, and follows the tokens, has seen every row
  -- exactly once and in order, as soon as the pages that it asked for have room for all of them. The
  -- size is any int, and the pages number less than 2^56.
  pub walk_sees_all :
      (n : ℕ) (size : ℤ) (xs : List A)
      → n < 2 ^ 56
      → IsInt64 size
      → length xs ≤ n * page_limit size
      → walk n (to_page_token (pos 0) size) xs ≡ xs
  walk_sees_all n size xs h k room =
      let first : 0 * page_limit size ≡ 0 = omega arith in
      walk-from n 0 size xs (omega arith) k
      ∙ ap (λ m. take (n * page_limit size) (drop m xs)) first
      ∙ take_all (n * page_limit size) xs room
