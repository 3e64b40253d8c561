-- ===== src/Pagination/Token.antt =====
-- What a page token carries.
use go_svc_extn.Prelude.{
  ◌≡◌, ◌≢◌, [], ◌∷◌, ◌++◌, Bytes, IsByte, IsBytes, Lacks, All-append, All-map, arith, is_empty,
  is_empty-append, false, ◌∙◌,
}
use go_svc_extn.Prelude.Int.{ℤ, pos, IsInt64, ◌+ℤ◌, +ℤ-IsInt64}
use go_svc_extn.Base64.{raw_std, encode}
use go_svc_extn.Base64.RoundTrip.{decode-encode, is_empty-encode}
use go_svc_extn.Strconv.{itoa, atoi, number, bad_syntax}
use go_svc_extn.Strconv.RoundTrip.{IsSigned, atoi-itoa, itoa-IsSigned}
use go_svc_extn.Strings.{split}
use go_svc_extn.Strings.Split.{split-append, split_of_Lacks}
use go_svc_extn.Pagination.{to_page_token, parse_page_token, parse_parts, parse_fields}

itoa-Lacks : (z : ℤ) → Lacks b'|' (itoa z)
itoa-Lacks z = All-map IsSigned (λ c. c ≢ b'|') (λ c h. h.0) (itoa z) (itoa-IsSigned z)

itoa-IsBytes : (z : ℤ) → IsBytes (itoa z)
itoa-IsBytes z = All-map IsSigned IsByte (λ c h. h.1) (itoa z) (itoa-IsSigned z)

abbrev payload : ℤ → ℤ → Bytes
payload page size = itoa page ++ b'|' ∷ itoa size

payload-IsBytes : (page size : ℤ) → IsBytes (payload page size)
payload-IsBytes page size =
    All-append IsByte (itoa page) (b'|' ∷ itoa size) (itoa-IsBytes page)
      (omega arith, itoa-IsBytes size)

split-payload : (page size : ℤ) → split (payload page size) b'|' ≡ itoa page ∷ itoa size ∷ []
split-payload page size = rw (
  split-append b'|' (itoa page) (itoa size) (itoa-Lacks page),
  split_of_Lacks b'|' (itoa size) (itoa-Lacks size),
)

parse_parts-itoa :
    (page size : ℤ)
    → IsInt64 page
    → IsInt64 size
    → parse_parts (itoa page ∷ itoa size ∷ []) ≡ (page, size)
unfolding parse_parts
parse_parts-itoa page size h k = rw (atoi-itoa page h, atoi-itoa size k)

-- A token is never the empty text, which `ParsePageToken` reads as "no token".
token-ne-empty : (page size : ℤ) → is_empty (encode raw_std (payload page size)) ≡ false
token-ne-empty page size =
    is_empty-encode raw_std (payload page size) ∙ is_empty-append (itoa page) b'|' (itoa size)

-- A token of two texts, whatever they spell.
abbrev pub token : Bytes → Bytes → Bytes
token first second = encode raw_std (first ++ b'|' ∷ second)

parse_token :
    (first second : Bytes)
    → IsBytes first
    → IsBytes second
    → Lacks b'|' first
    → Lacks b'|' second
    → parse_page_token (token first second) ≡ parse_fields first second
unfolding parse_page_token parse_parts
parse_token first second h k l m =
    let whole = first ++ b'|' ∷ second in
    rw (
      is_empty-encode raw_std whole,
      is_empty-append first b'|' second,
      decode-encode raw_std whole (All-append IsByte first (b'|' ∷ second) h (omega arith, k)),
      split-append b'|' first second l,
      split_of_Lacks b'|' second m,
    )

-- Where a part of a token is no number: if it is the first, the result is page 0 with the default
-- size; if it is the second, the result is the page read and size 0. The default page 1 and the
-- default size of that place are not kept.
pub parse_page_token_bad_syntax :
    (first other : Bytes) (page : ℤ)
    → IsBytes first
    → IsBytes other
    → Lacks b'|' first
    → Lacks b'|' other
    → atoi first ≡ number page
    → atoi other ≡ bad_syntax
    → (parse_page_token (token other first) ≡ (pos 0, pos 10))
      × (parse_page_token (token first other) ≡ (page, pos 0))
parse_page_token_bad_syntax first other page h k l m good bad =
    rw (parse_token first other h k l m, parse_token other first k h m l)
      (unfold parse_fields in (rw bad, rw (good, bad)))

-- For every page and page size of type int, parsing a token gives the next page and the same size.
pub parse_page_token-to_page_token :
    (page size : ℤ)
    → IsInt64 size
    → parse_page_token (to_page_token page size) ≡ (page +ℤ pos 1, size)
unfolding parse_page_token to_page_token
parse_page_token-to_page_token page size h =
    rw
      (
        token-ne-empty (page +ℤ pos 1) size,
        decode-encode raw_std (payload (page +ℤ pos 1) size) (payload-IsBytes (page +ℤ pos 1) size),
        split-payload (page +ℤ pos 1) size,
      )
      (parse_parts-itoa (page +ℤ pos 1) size (+ℤ-IsInt64 page (pos 1)) h)
