-- ===== src/Pagination/Bounds.antt =====
-- The rows that a page covers.
use go_svc_extn.Prelude.{
  ℕ, zero, suc, ◌+◌, ◌-◌, ◌*◌, ◌^◌, ◌≤◌, ◌<◌, ◌≡◌, ap, arith, ltb, leb, if◌then◌else◌,
}
use go_svc_extn.Prelude.Int.{ℤ, pos, negsuc, pos_part, ◌-ℤ◌, ◌*ℤ◌}
use go_svc_extn.Pagination.{clamp_page, clamp_size, paginate}

-- The page and the size that `Paginate` works with, as natural numbers.
abbrev pub page_number : ℤ → ℕ
page_number page = if leb (pos_part page) 0 then 1 else pos_part page

abbrev pub page_limit : ℤ → ℕ
page_limit size =
    if leb (pos_part size) 0 then 10 else if ltb 100 (pos_part size) then 100 else pos_part size

clamp_page_lem : (page : ℤ) → clamp_page page ≡ pos (page_number page)
unfolding clamp_page
clamp_page_lem page = ground arith

clamp_size_lem : (size : ℤ) → clamp_size size ≡ pos (page_limit size)
unfolding clamp_size
clamp_size_lem size = ground arith

-ℤ-pos : (a b : ℕ) → b ≤ a → a < 2 ^ 63 → pos a -ℤ pos b ≡ pos (a - b)
unfolding ◌-ℤ◌
-ℤ-pos a b h k = ground arith

*ℤ-pos : (a b : ℕ) → a * b < 2 ^ 63 → pos a *ℤ pos b ≡ pos (a * b)
unfolding ◌*ℤ◌
*ℤ-pos a b h = ground arith

page_limit_bounds : (size : ℤ) → (1 ≤ page_limit size) × (page_limit size ≤ 100)
page_limit_bounds size = ground arith

offset_bound : (n l : ℕ) → n < 2 ^ 56 → l ≤ 100 → n * l < 2 ^ 63
offset_bound n l h k = grind arith

-- For every page below 2^56, and every size, `Paginate` asks for between 1 and 100 rows, and skips
-- exactly the rows of the pages before; pages below 1 count as 1, sizes below 1 as 10.
pub paginate_exact :
    (page size : ℤ)
    → pos_part page < 2 ^ 56
    → ((paginate page size).offset ≡ pos ((page_number page - 1) * page_limit size))
      × ((paginate page size).limit ≡ pos (page_limit size))
      × (1 ≤ page_limit size)
      × (page_limit size ≤ 100)
unfolding paginate
paginate_exact page size h =
    let (low, high) = page_limit_bounds size in
    let small : page_number page - 1 < 2 ^ 56 = ground arith in
    let exact = offset_bound (page_number page - 1) (page_limit size) small high in
    (
      rw
          (
            clamp_page_lem page,
            clamp_size_lem size,
            -ℤ-pos (page_number page) 1 (ground arith) (ground arith),
          )
          (*ℤ-pos (page_number page - 1) (page_limit size) exact),
      clamp_size_lem size,
      low,
      high,
    )

rows_step : (n l : ℕ) → 1 ≤ n → (n + 1 - 1) * l ≡ (n - 1) * l + l
rows_step zero l h = absurd (omega arith)
rows_step (suc n) l h =
    let up : suc n + 1 - 1 ≡ suc n = omega arith in
    let down : suc n - 1 ≡ n = omega arith in rw (up, down) (omega arith)

-- The window of the next page starts right behind the window of this one: from a page between 1 and
-- 2^56 - 2, the next offset is this offset plus this limit.
pub paginate_adjacent :
    (n : ℕ) (size : ℤ)
    → 1 ≤ n
    → n + 1 < 2 ^ 56
    → (paginate (pos (n + 1)) size).offset
      ≡ pos (pos_part (paginate (pos n) size).offset + pos_part (paginate (pos n) size).limit)
paginate_adjacent n size h k =
    let (this_offset, this_limit, _, _) = paginate_exact (pos n) size (omega arith) in
    let (next_offset, _, _, _) = paginate_exact (pos (n + 1)) size k in
    let next : page_number (pos (n + 1)) ≡ n + 1 = ground arith in
    let this : page_number (pos n) ≡ n = ground arith in
    rw (next_offset, this_offset, this_limit, next, this) (ap pos (rows_step n (page_limit size) h))

-- The offset is computed in 64 bits: where the rows before a page of full size number between 2^63
-- and 2^64, the offset is negative.
pub paginate_overflow :
    (n : ℕ)
    → 2 ^ 63 ≤ n * 100
    → n * 100 < 2 ^ 64
    → (paginate (pos (n + 1)) (pos 100)).offset ≡ negsuc (2 ^ 64 - 1 - n * 100)
unfolding paginate
paginate_overflow n h k =
    let first : page_number (pos (n + 1)) ≡ n + 1 = ground arith in
    let before : n + 1 - 1 ≡ n = omega arith in
    rw
      (
        clamp_page_lem (pos (n + 1)),
        clamp_size_lem (pos 100),
        first,
        -ℤ-pos (n + 1) 1 (omega arith) (omega arith),
        before,
      )
      (unfold ◌*ℤ◌ in ground arith)
