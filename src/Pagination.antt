-- ===== src/Pagination.antt =====
-- pkg/util/db/pagination_util.go and `Paginate` of pkg/data/gorm.go. A page token is base64 of
-- "page|size"; `int` has 64 bits.
pub mod Token
pub mod Bounds
pub mod Walk
mod Tests
use go_svc_extn.Prelude.{
  ℕ, ◌+◌, ◌-◌, ◌*◌, Bool, true, false, Option, none, some, List, [], ◌∷◌, ◌++◌, Bytes, is_empty,
  if◌then◌else◌,
}
use go_svc_extn.Prelude.Int.{ℤ, pos, negsuc, ◌+ℤ◌, ◌-ℤ◌, ◌*ℤ◌, ltb_ℤ, leb_ℤ}
use go_svc_extn.Base64.{raw_std, encode, decode}
use go_svc_extn.Strconv.{Parsed, number, bad_syntax, out_of_range, itoa, atoi}
use go_svc_extn.Strings.{split}

-- `ToPageToken`: the token of the page after `page`.
pub to_page_token : ℤ → ℤ → Bytes
to_page_token page page_size = encode raw_std (itoa (page +ℤ pos 1) ++ b'|' ∷ itoa page_size)

abbrev defaults : ℤ × ℤ
defaults = (pos 1, pos 10)

-- What `Atoi` leaves in the variable that it is assigned to, and whether it failed.
pub assigned : Parsed ℤ → ℤ × Bool
assigned (number z) = (z, true)
assigned bad_syntax = (pos 0, false)
assigned (out_of_range z) = (z, false)

-- The two assignments of `ParsePageToken`, with their early returns.
pub parse_fields : Bytes → Bytes → ℤ × ℤ
unfolding assigned
parse_fields first second =
    let (page, page_ok) = assigned (atoi first) in
    if page_ok then (page, (assigned (atoi second)).0) else (page, pos 10)

pub parse_parts : List Bytes → ℤ × ℤ
unfolding parse_fields
parse_parts (first ∷ second ∷ []) = parse_fields first second
parse_parts _ = defaults

-- `ParsePageToken`
pub parse_page_token : Bytes → ℤ × ℤ
unfolding parse_parts
parse_page_token token =
    if is_empty token
    then defaults
    else elim (decode raw_std token) [ none ↦ defaults | some b ↦ parse_parts (split b b'|') ]

-- What `Paginate` sets on the query.
pub record Window : Type 0 where
  pub offset : ℤ
  pub limit : ℤ

-- The two guards of `Paginate`.
pub clamp_page : ℤ → ℤ
clamp_page page = if leb_ℤ page (pos 0) then pos 1 else page

pub clamp_size : ℤ → ℤ
clamp_size page_size =
    if ltb_ℤ (pos 100) page_size
    then pos 100
    else if leb_ℤ page_size (pos 0)
    then pos 10
    else page_size

-- `Paginate`
pub paginate : ℤ → ℤ → Window
paginate page page_size =
    let p = clamp_page page in
    let s = clamp_size page_size in record { offset = (p -ℤ pos 1) *ℤ s; limit = s }
