-- ===== src/HttpClient/Pipeline.antt =====
-- The order of a client's middlewares, and what the logger leaves as it was.
use mathlib.Core.Path.{ap₂}
use go_svc_extn.Prelude.{
  ◌≡◌, refl, ap, ◌∙◌, ◌⊎◌, inl, inr, Option, none, some, List, [], ◌∷◌, codes, Result, ok, err,
  panic,
}
use go_svc_extn.Security.{Header, Context, client_correlation_id_injector}
use go_svc_extn.Security
use go_svc_extn.Chain.{IsChain, chain-append}
use go_svc_extn.Logging.Middleware.{
  Arg, other, Entry, Outcome, returned, panicked, client, log_reply,
}
use go_svc_extn.Logging.Middleware.Transparency.{log_reply-returned}
use go_svc_extn.HttpClient.{
  HttpClientConfig, Call, Middleware, Logger, logged, log_result, client_logger, ClientOptions,
  Parts, HttpClient, client_answered, new_http_client, middlewares_with,
  new_http_client_with_middleware,
}

module _ {ℓ} {H W E C : Type ℓ} (p : Parts H W E C) (cfg : HttpClientConfig) (l : Logger H W) where
  -- Without middlewares of the caller's, the two constructors make the same client.
  pub new_http_client-with_none :
      new_http_client_with_middleware p cfg l [] ≡ new_http_client p cfg l
  unfolding new_http_client new_http_client_with_middleware middlewares_with
  new_http_client-with_none = refl

client_answered-ok {ℓ} :
    {E C : Type ℓ} (x : Result E C) (c : HttpClient C) → client_answered x ≡ ok c → x ≡ ok c.conn
unfolding client_answered
client_answered-ok (ok x) c e = cc
client_answered-ok (err x) c e = absurd cc
client_answered-ok panic c e = absurd cc

module _ {ℓ} {H W E C : Type ℓ} (p : Parts H W E C) (chain : List (Middleware H W) → Middleware H W)
    (invoke : C → Middleware H W) where
  -- A connection passes its calls through the chain of the middlewares that it was made with.
  abbrev pub Chains : Type ℓ
  Chains =
      (options : ClientOptions (Middleware H W)) (c : C) (send : Call H W)
      → p.new_client options ≡ ok c
      → invoke c send ≡ chain options.middlewares send

module _ {ℓ} {H W E C : Type ℓ} (p : Parts H W E C) (cfg : HttpClientConfig) (l : Logger H W)
    (chain : List (Middleware H W) → Middleware H W) (invoke : C → Middleware H W) where
  -- A call of the client recovers from panics and traces on the outside; then the correlation id is
  -- set, so the caller's middlewares, in their order, find it in the request; and the logger is on the
  -- inside, so it logs what they send.
  pub invoke-with_middleware :
      (custom : List (Middleware H W)) (c : HttpClient C) (send : Call H W)
      → IsChain chain
      → Chains p chain invoke
      → new_http_client_with_middleware p cfg l custom ≡ ok c
      → invoke c.conn send
        ≡ p.recovery (
            p.tracing (
              client_correlation_id_injector p.header p.new_id
                (chain custom (client_logger l send))))
  unfolding new_http_client_with_middleware middlewares_with
  invoke-with_middleware custom c send laws chains made =
      let injector : Middleware H W = client_correlation_id_injector p.header p.new_id in
      let logger : Middleware H W = client_logger l in
      let outer : List (Middleware H W) = p.recovery ∷ p.tracing ∷ injector ∷ custom in
      chains _ c.conn send (client_answered-ok _ c made)
      ∙ chain-append laws outer (logger ∷ []) send
      ∙ ap (chain outer) (laws.chain-cons logger [] send ∙ ap logger (laws.chain-nil send))
      ∙ laws.chain-cons p.recovery (p.tracing ∷ injector ∷ custom) (logger send)
      ∙ ap p.recovery (
          laws.chain-cons p.tracing (injector ∷ custom) (logger send)
          ∙ ap p.tracing (laws.chain-cons injector custom (logger send)))

module _ {ℓ} {H W : Type ℓ} (l : Logger H W) where
  -- A result, from a reply and an error as Go returns them.
  abbrev as_result : Arg → Option Security.Error → Result Security.Error Arg
  as_result reply none = ok reply
  as_result reply (some e) = err e

  logged-returned :
      (reply : Arg) (e : Option Security.Error) (n : Entry) (w : W)
      → (logged l (returned reply e n, w)).0 ≡ as_result reply e
  unfolding logged
  logged-returned reply none n w = refl
  logged-returned reply (some e) n w = refl

  logged-log_reply :
      (ctx : Context H) (req reply : Arg) (e : Option Security.Error) (w : W)
      (o : Outcome Security.Error)
      → log_reply l.prints client (l.transports ctx) req reply e ≡ o
      → ((logged l (o, w)).0 ≡ as_result reply e) ⊎ ((logged l (o, w)).0 ≡ panic)
  unfolding logged
  logged-log_reply ctx req reply e w (returned r f n) made =
      let (_, _, _, _, _, same_reply, same_error) =
        log_reply-returned l.prints client (l.transports ctx) req reply r e f n made in
      inl (logged-returned r f n w ∙ ap₂ as_result same_reply same_error)
  logged-log_reply ctx req reply e w panicked made = inr refl

  log_result_transparent :
      (ctx : Context H) (req : Arg) (r : Result Security.Error Arg) (w : W)
      → ((log_result l ctx req (r, w)).0 ≡ r) ⊎ ((log_result l ctx req (r, w)).0 ≡ panic)
  unfolding log_result
  log_result_transparent ctx req (ok reply) w = logged-log_reply ctx req reply none w _ refl
  log_result_transparent ctx req (err e) w =
      logged-log_reply ctx req (other (codes "<nil>")) (some e) w _ refl
  log_result_transparent ctx req panic w = inr refl

  -- The logger of a client returns what the handler returned, a reply or an error, or else panics.
  pub client_logger_transparent :
      (handler : Call H W) (ctx : Context H) (req : Arg) (w : W)
      → ((client_logger l handler ctx req w).0 ≡ (handler ctx req w).0)
        ⊎ ((client_logger l handler ctx req w).0 ≡ panic)
  unfolding client_logger
  client_logger_transparent handler ctx req w =
      log_result_transparent ctx req (handler ctx req w).0 (handler ctx req w).1
