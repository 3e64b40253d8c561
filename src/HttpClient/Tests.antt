-- ===== src/HttpClient/Tests.antt =====
-- A client that counts: the theorems at a concrete chain of middlewares.
use go_svc_extn.Prelude.{
  ℕ, ◌+◌, ◌≡◌, refl, sym, ap, ok_injective, none, some, List, [], ◌∷◌, Bytes, codes, ok, panic,
}
use go_svc_extn.Prelude.Int.{pos}
use go_svc_extn.Security.{
  Header, Context, unauthorized, incoming_id, server_correlation_id_injector,
}
use go_svc_extn.Security
use go_svc_extn.Logging.Middleware.{stringer, Prints}
use go_svc_extn.Chain.{IsChain}
use go_svc_extn.HttpClient.{
  HttpClientConfig, Call, Middleware, Logger, client_logger, ClientOptions, Parts, HttpClient,
  client_answered, middlewares_with, new_http_client_with_middleware,
}
use go_svc_extn.HttpClient.Correlated.{recovered, Traces, calling, call_carries_id}
use go_svc_extn.HttpClient.Pipeline.{Chains}

-- A header is its correlation id, and the world the number of entries and of ids so far.
abbrev World : Type 0
World = ℕ × ℕ

abbrev header : Header Bytes
header = record { get = λ h k. h; set = λ h k v. v }

abbrev prints : Prints Security.Error
prints = record {
  of_message = λ m. codes "message";
  code = λ e. 500;
  reason = λ e. codes "ERROR";
  of_error = λ e. codes "error";
}

abbrev logger : Logger Bytes World
logger = record {
  prints = prints;
  transports = λ ctx. record { server = none; client = none };
  log = λ entry w. (w.0 + 1, w.1);
}

abbrev chain : List (Middleware Bytes World) → Middleware Bytes World
chain [] f = f
chain (m ∷ ms) f = m (chain ms f)

chain-IsChain : IsChain chain
chain-IsChain = record { chain-nil = λ f. refl; chain-cons = λ m ms f. refl }

-- A middleware that passes every call on.
abbrev pass : Middleware Bytes World
pass f = f

-- A span is written over the header.
abbrev begin : Bytes → World → Bytes × World
begin h w = (codes "span", w)

abbrev tracing : Middleware Bytes World
tracing f ctx req w = elim ctx.client [
  | none ↦ f ctx req w
  | some h ↦ f (record ctx { client = some (begin h w).0 }) req (begin h w).1
]

abbrev parts : Parts Bytes World ℕ (ClientOptions (Middleware Bytes World))
parts = record {
  recovery = λ f ctx req w. recovered unauthorized (f ctx req w);
  tracing = tracing;
  header = header;
  new_id = λ w. (codes "new", (w.0, w.1 + 1));
  new_client = λ options. ok options;
}

abbrev config : HttpClientConfig
config = record { endpoint = codes "http://localhost:8000"; timeout = pos 5000000000 }

-- The transport, which answers with the id that it sent.
abbrev send : Call Bytes World
send ctx req w = elim ctx.client [ none ↦ (panic, w) | some id ↦ (ok (stringer id), w) ]

abbrev client : HttpClient (ClientOptions (Middleware Bytes World))
client = record {
  conn = record {
    endpoint = codes "http://localhost:8000";
    middlewares = middlewares_with parts config logger (pass ∷ []);
    timeout = pos 5000000000;
  };
}

made : new_http_client_with_middleware parts config logger (pass ∷ []) ≡ ok client
unfolding new_http_client_with_middleware client_answered
made = refl

abbrev invoke : ClientOptions (Middleware Bytes World) → Middleware Bytes World
invoke options f = chain options.middlewares f

chains : Chains parts chain invoke
chains options c f e =
    ap (λ (o : ClientOptions (Middleware Bytes World)). chain o.middlewares f)
      (sym (ok_injective e))

parts-Traces : Traces tracing begin (λ o. o)
parts-Traces f ctx req w h e = rw e refl

abbrev incoming : Context Bytes
incoming = record { server = some (codes "abc"); client = none; correlation_id = none }

call_carries_id_example :
    server_correlation_id_injector header parts.new_id
      (calling parts logger invoke client send [])
      incoming
      (stringer (codes "req"))
      (0, 0)
    ≡ recovered unauthorized (
        chain
          (pass ∷ [])
          (client_logger logger send)
          (record {
            server = some (codes "abc");
            client = some (incoming_id header parts.new_id (codes "abc") (0, 0)).0;
            correlation_id = some (incoming_id header parts.new_id (codes "abc") (0, 0)).0;
          })
          (stringer (codes "req"))
          (incoming_id header parts.new_id (codes "abc") (0, 0)).1)
call_carries_id_example =
    call_carries_id parts logger invoke config chain (pass ∷ []) client send unauthorized begin
      (λ o. o) incoming (stringer (codes "req")) (0, 0) (codes "abc") [] chain-IsChain chains made
      (λ f ctx req w. refl) parts-Traces refl
