-- ===== src/HttpClient.antt =====
-- pkg/util/http/http_client.go: a client whose calls pass a chain of middlewares. Two of them are Kratos's
-- and parameters; the others are the injector of Security and the logger of Logging.
pub mod Pipeline
pub mod Correlated
mod Tests
use go_svc_extn.Prelude.{
  Option, none, some, List, [], ◌∷◌, ◌++◌, Bytes, codes, Result, ok, err, panic,
}
use go_svc_extn.Prelude.Int.{ℤ}
use go_svc_extn.Security.{Header, Handler, client_correlation_id_injector}
use go_svc_extn.Security
use go_svc_extn.Logging.Middleware.{
  Arg, other, Entry, Prints, Outcome, returned, panicked, client, log_reply,
}
use go_svc_extn.Logging

-- `time.Duration` is in nanoseconds.
pub record HttpClientConfig : Type 0 where
  pub endpoint : Bytes
  pub timeout : ℤ

-- The handlers of a client, whose requests and replies are what the logger tells apart, and middlewares.
abbrev pub Call {ℓ} : Type ℓ → Type ℓ → Type ℓ
Call H W = Handler H Arg Arg W

abbrev pub Middleware {ℓ} : Type ℓ → Type ℓ → Type ℓ
Middleware H W = Call H W → Call H W

-- What a client logs with: the prints of arguments and errors, the transport that a context carries, and
-- the logger, which adds an entry to the world.
pub record Logger {ℓ} (H W : Type ℓ) : Type ℓ where
  pub prints : Prints Security.Error
  pub transports : Security.Context H → Logging.Middleware.Context
  pub log : Entry → W → W

module _ {ℓ} {H W : Type ℓ} (l : Logger H W) where
  -- The entry is logged, and the reply is returned with the error, if there is one.
  pub logged : Outcome Security.Error × W → Result Security.Error Arg × W
  logged (returned reply none entry, w) = (ok reply, l.log entry w)
  logged (returned reply (some e) entry, w) = (err e, l.log entry w)
  logged (panicked, w) = (panic, w)

  pub log_result :
      Security.Context H → Arg → Result Security.Error Arg × W → Result Security.Error Arg × W
  unfolding logged
  log_result ctx req (ok reply, w) =
      logged (log_reply l.prints client (l.transports ctx) req reply none, w)
  log_result ctx req (err e, w) =
      logged (log_reply l.prints client (l.transports ctx) req (other (codes "<nil>")) (some e), w)
  log_result ctx req (panic, w) = (panic, w)

  -- `Client` of the middlewares, where a handler returns a reply, an error, or panics.
  pub client_logger : Middleware H W
  unfolding log_result
  client_logger handler ctx req w = log_result ctx req (handler ctx req w)

-- The options of `khttp.NewClient`.
pub record ClientOptions {ℓ} (M : Type ℓ) : Type ℓ where
  pub endpoint : Bytes
  pub middlewares : List M
  pub timeout : ℤ

-- What the clients are made of: `recovery.Recovery`, `tracing.Client`, the header of a request, new ids,
-- and `khttp.NewClient`, which makes a connection `C`.
pub record Parts {ℓ} (H W E C : Type ℓ) : Type ℓ where
  pub recovery : Middleware H W
  pub tracing : Middleware H W
  pub header : Header H
  pub new_id : W → Bytes × W
  pub new_client : ClientOptions (Middleware H W) → Result E C

-- `HttpClient`
pub record HttpClient {ℓ} (C : Type ℓ) : Type ℓ where
  pub conn : C

pub client_answered {ℓ} : {E C : Type ℓ} → Result E C → Result E (HttpClient C)
client_answered (ok c) = ok (record { conn = c })
client_answered (err e) = err e
client_answered panic = panic

module _ {ℓ} {H W E C : Type ℓ} (p : Parts H W E C) (cfg : HttpClientConfig) (l : Logger H W) where
  -- `NewHttpClient`
  pub new_http_client : Result E (HttpClient C)
  unfolding client_answered client_logger
  new_http_client = client_answered (
      p.new_client (record {
        endpoint = cfg.endpoint;
        middlewares =
            p.recovery
            ∷ p.tracing
            ∷ client_correlation_id_injector p.header p.new_id
            ∷ client_logger l
            ∷ [];
        timeout = cfg.timeout;
      }))

  -- The list that `NewHttpClientWithMiddleware` grows.
  pub middlewares_with : List (Middleware H W) → List (Middleware H W)
  unfolding client_logger
  middlewares_with custom =
      ((p.recovery ∷ p.tracing ∷ client_correlation_id_injector p.header p.new_id ∷ []) ++ custom)
      ++ (client_logger l ∷ [])

  -- `NewHttpClientWithMiddleware`
  pub new_http_client_with_middleware : List (Middleware H W) → Result E (HttpClient C)
  unfolding client_answered middlewares_with
  new_http_client_with_middleware custom = client_answered (
      p.new_client (record {
        endpoint = cfg.endpoint;
        middlewares = middlewares_with custom;
        timeout = cfg.timeout;
      }))
