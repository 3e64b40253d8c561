-- ===== src/Pagination/Tests.antt =====
-- Runs of the pagination functions, and the theorems at concrete pages.
use go_svc_extn.Prelude.{ℕ, [], ◌∷◌, ◌-◌, ◌*◌, ◌≤◌, ◌≡◌, refl, codes, is_empty, arith}
use go_svc_extn.Prelude.Int.{pos, negsuc, ◌+ℤ◌}
use go_svc_extn.Base64.{char, encode, decode, decode_groups, strip_newlines}
use go_svc_extn.Strconv.{itoa, atoi, number, bad_syntax}
use go_svc_extn.Pagination.{to_page_token, parse_page_token, paginate}
use go_svc_extn.Pagination.Token.{parse_page_token-to_page_token}
use go_svc_extn.Pagination.Walk.{walk, walk_sees_all}
use go_svc_extn.Pagination.Bounds.{page_number, page_limit, paginate_exact}

no_number : atoi (codes "x") ≡ bad_syntax
unfolding atoi
no_number = refl

a_number : atoi (codes "-3") ≡ number (negsuc 2)
unfolding atoi
a_number = refl

parse_page_token-to_page_token_example :
    parse_page_token (to_page_token (pos 4) (pos 20)) ≡ (pos 4 +ℤ pos 1, pos 20)
parse_page_token-to_page_token_example =
    parse_page_token-to_page_token (pos 4) (pos 20) (omega arith)

paginate_exact_example :
    ((paginate (pos 3) (pos 250)).offset ≡ pos ((page_number (pos 3) - 1) * page_limit (pos 250)))
    × ((paginate (pos 3) (pos 250)).limit ≡ pos (page_limit (pos 250)))
    × (1 ≤ page_limit (pos 250))
    × (page_limit (pos 250) ≤ 100)
paginate_exact_example = paginate_exact (pos 3) (pos 250) (omega arith)

token_of_page_1 : to_page_token (pos 1) (pos 25) ≡ codes "MnwyNQ"
unfolding to_page_token encode itoa ◌+ℤ◌ char
token_of_page_1 = refl

defaults_of_garbage : parse_page_token (codes "?") ≡ (pos 1, pos 10)
unfolding parse_page_token decode decode_groups strip_newlines is_empty
defaults_of_garbage = refl

-- Five rows in pages of two.
walk_sees_all_example :
    walk {A = ℕ} 3 (to_page_token (pos 0) (pos 2)) (1 ∷ 2 ∷ 3 ∷ 4 ∷ 5 ∷ []) ≡ 1 ∷ 2 ∷ 3 ∷ 4 ∷ 5 ∷ []
walk_sees_all_example =
    walk_sees_all 3 (pos 2) (1 ∷ 2 ∷ 3 ∷ 4 ∷ 5 ∷ []) (omega arith) (omega arith) (omega arith)
