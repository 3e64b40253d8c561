-- ===== src/Security/Tests.antt =====
-- Requests with headers as dictionaries and ids from a counter: the theorems at concrete requests.
use go_svc_extn.Prelude.{
  ℕ, suc, ◌≡◌, refl, none, some, List, [], ◌∷◌, map, Bytes, codes, is_empty, ok, Dict, get, insert,
  lookup, eq_bytes,
}
use go_svc_extn.Security.{
  Header, Context, Handler, correlation_id_key, signed_headers_key, authorization_key,
  server_security_header_validator, incoming_id, server_correlation_id_injector,
}
use go_svc_extn.Security.Laws.{call_all, server-call_all}

abbrev headers : Header (Dict Bytes)
headers = record { get = λ h k. get k h; set = λ h k v. insert k v h }

abbrev new_id : ℕ → Bytes × ℕ
new_id n = (n ∷ [], suc n)

abbrev signed : Dict Bytes
signed =
    (authorization_key, codes "t")
    ∷ (signed_headers_key, codes "s")
    ∷ (correlation_id_key, codes "c1")
    ∷ []

abbrev request : Dict Bytes → Context (Dict Bytes)
request h = record { server = some h; client = none; correlation_id = none }

abbrev answer : Handler (Dict Bytes) Bytes Bytes ℕ
answer ctx req w = (ok req, suc w)

passes :
    (server_security_header_validator headers answer (request signed) (codes "q") 0).0
    ≡ ok (codes "q")
unfolding server_security_header_validator is_empty get lookup eq_bytes
passes = refl

abbrev calls : List (Dict Bytes)
calls = [] ∷ ((correlation_id_key, codes "old") ∷ []) ∷ []

server-call_all_example :
    server_correlation_id_injector headers new_id
      (call_all headers new_id calls)
      (request signed)
      (codes "q")
      5
    ≡ (
      ok (
          map
            (λ header. insert correlation_id_key (incoming_id headers new_id signed 5).0 header)
            calls),
      (incoming_id headers new_id signed 5).1,
    )
server-call_all_example =
    server-call_all headers new_id calls (request signed) (codes "q") 5 signed refl
