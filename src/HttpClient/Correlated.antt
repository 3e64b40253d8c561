-- ===== src/HttpClient/Correlated.antt =====
-- A handler of an incoming request that calls out by a client: which id the call carries.
use go_svc_extn.Prelude.{◌≡◌, refl, ap, ◌∙◌, some, List, Bytes, Result, ok, err, panic, arith}
use go_svc_extn.Security.{
  Header, Context, correlation_id_key, get_correlation_id_from_ctx, incoming_id,
  server_correlation_id_injector, client_correlation_id_injector,
}
use go_svc_extn.Security
use go_svc_extn.Logging.Middleware.{Arg}
use go_svc_extn.Chain.{IsChain}
use go_svc_extn.HttpClient.{
  HttpClientConfig, Call, Middleware, Logger, client_logger, Parts, HttpClient,
  new_http_client_with_middleware,
}
use go_svc_extn.HttpClient.Pipeline.{Chains, invoke-with_middleware}

abbrev pub Answer {ℓ} : Type ℓ → Type ℓ
Answer W = Result Security.Error Arg × W

-- A panic becomes an error.
pub recovered {ℓ} : {W : Type ℓ} → Security.Error → Answer W → Answer W
recovered e (panic, w) = (err e, w)
recovered e (r, w) = (r, w)

module _ {ℓ} {H W : Type ℓ} where
  -- `recovery.Recovery`
  abbrev pub Recovers : Middleware H W → Security.Error → Type ℓ
  Recovers m e =
      (f : Call H W) (ctx : Context H) (req : Arg) (w : W)
      → m f ctx req w ≡ recovered e (f ctx req w)

  -- `tracing.Client`: a span begins, and is written into the header of the request; when the handler is
  -- done the span ends.
  abbrev pub Traces : Middleware H W → (H → W → H × W) → (Answer W → Answer W) → Type ℓ
  Traces m begin finish =
      (f : Call H W) (ctx : Context H) (req : Arg) (w : W) (header : H)
      → ctx.client ≡ some header
      → m f ctx req w
        ≡ finish (f (record ctx { client = some (begin header w).0 }) req (begin header w).1)

  client_injector_at :
      (h : Header H) (new_id : W → Bytes × W) (f : Call H W) (ctx : Context H) (req : Arg) (w : W)
      (header : H) (id : Bytes)
      → ctx.client ≡ some header
      → ctx.correlation_id ≡ some id
      → client_correlation_id_injector h new_id f ctx req w
        ≡ f (record ctx { client = some (h.set header correlation_id_key id) }) req w
  unfolding client_correlation_id_injector get_correlation_id_from_ctx
  client_injector_at h new_id f ctx req w header id e g =
      rw (e, client_correlation_id_injector, g, get_correlation_id_from_ctx) refl

  server_injector_at :
      (h : Header H) (new_id : W → Bytes × W) (f : Call H W) (ctx : Context H) (req : Arg) (w : W)
      (incoming : H)
      → ctx.server ≡ some incoming
      → server_correlation_id_injector h new_id f ctx req w
        ≡ f
            (record ctx { correlation_id = some (incoming_id h new_id incoming w).0 })
            req
            (incoming_id h new_id incoming w).1
  unfolding server_correlation_id_injector
  server_injector_at h new_id f ctx req w incoming e = ground arith

module _ {ℓ} {H W E C : Type ℓ} (p : Parts H W E C) (l : Logger H W)
    (invoke : C → Middleware H W) where
  -- A handler that makes one call by the client, with a header of its own, and answers with its reply.
  abbrev pub calling : HttpClient C → Call H W → H → Call H W
  calling c send header ctx req w = invoke c.conn send (record ctx { client = some header }) req w

  -- While an incoming request is handled behind the server's injector, a call by a client reaches the
  -- caller's middlewares, the logger and the transport with the id of the incoming request in its
  -- header, or with one new id if the request has none: the client was made with these middlewares,
  -- recovery and tracing do what they document, and a span is begun after the id was found.
  pub call_carries_id :
      (cfg : HttpClientConfig) (chain : List (Middleware H W) → Middleware H W)
      (custom : List (Middleware H W)) (c : HttpClient C) (send : Call H W) (e : Security.Error)
      (begin : H → W → H × W) (finish : Answer W → Answer W) (ctx : Context H) (req : Arg) (w : W)
      (incoming header : H)
      → IsChain chain
      → Chains p chain invoke
      → new_http_client_with_middleware p cfg l custom ≡ ok c
      → Recovers p.recovery e
      → Traces p.tracing begin finish
      → ctx.server ≡ some incoming
      → (let (id, v) = incoming_id p.header p.new_id incoming w in
          let (sent, u) = begin header v in
          server_correlation_id_injector p.header p.new_id (calling c send header) ctx req w
          ≡ recovered e (
              finish (
                chain custom
                  (client_logger l send)
                  (record {
                    server = ctx.server;
                    client = some (p.header.set sent correlation_id_key id);
                    correlation_id = some id;
                  })
                  req
                  u)))
  call_carries_id cfg chain custom c send e begin finish ctx req w incoming header laws chains made
        recovers traces arrives =
      let (id, v) = incoming_id p.header p.new_id incoming w in
      let (sent, u) = begin header v in
      let inside : Context H = record {
        server = ctx.server;
        client = some header;
        correlation_id = some id;
      } in
      let rest : Call H W = chain custom (client_logger l send) in
      let injected : Call H W = client_correlation_id_injector p.header p.new_id rest in
      server_injector_at p.header p.new_id (calling c send header) ctx req w incoming arrives
      ∙ ap (λ (f : Call H W). f inside req v)
          (invoke-with_middleware p cfg l chain invoke custom c send laws chains made)
      ∙ recovers (p.tracing injected) inside req v
      ∙ ap (recovered e) (
          traces injected inside req v header refl
          ∙ ap finish (
              client_injector_at p.header p.new_id rest (record inside { client = some sent }) req u
                sent id refl refl))
