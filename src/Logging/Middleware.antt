-- ===== src/Logging/Middleware.antt =====
-- `logMiddleware`, `extractArgs` and `extractError`: what is logged around a handler.
pub mod Transparency
use go_svc_extn.Prelude.{
  ℕ, ◌≡◌, refl, Bool, true, false, Option, none, some, List, [], ◌∷◌, Bytes, codes, Option-cases,
  inl, inr, arith,
}
use go_svc_extn.Logging.{Fields, handle_sensitive_data}

-- A request or a reply, by the first interface that `extractArgs` finds.
pub data Arg : Type 0 where
  proto : Fields → Arg
  redacter : Bytes → Arg
  stringer : Bytes → Arg
  other : Bytes → Arg

pub data Level : Type 0 where
  info error : Level

-- The transport that a context carries: its kind and the operation.
pub record Transport : Type 0 where
  pub kind : Bytes
  pub operation : Bytes

pub record Context : Type 0 where
  pub server : Option Transport
  pub client : Option Transport

pub data Kind : Type 0 where
  server client : Kind

pub record Entry : Type 0 where
  pub level : Level
  pub kind : Kind
  pub component : Bytes
  pub op : Bytes
  pub req : Bytes
  pub resp : Bytes
  pub code : ℕ
  pub reason : Bytes
  pub stack : Bytes

-- What the middleware needs of the packages that it calls: the print of a message, and the code, the
-- reason and the print of an error.
pub record Prints {ℓ} (E : Type ℓ) : Type ℓ where
  pub of_message : Fields → Bytes
  pub code : E → ℕ
  pub reason : E → Bytes
  pub of_error : E → Bytes

-- The middleware returns the handler's reply and error beside the entry that it logs, or panics.
pub data Outcome {ℓ} (E : Type ℓ) : Type ℓ where
  returned : Arg → Option E → Entry → Outcome E
  panicked : Outcome E

-- `FromServerContext` or `FromClientContext`, by the kind.
pub transport_of : Kind → Context → Option Transport
transport_of server ctx = ctx.server
transport_of client ctx = ctx.client

module _ {ℓ} {E : Type ℓ} (p : Prints E) where
  -- `extractArgs`; `none` is a panic.
  pub extract_args : Arg → Option Bytes
  extract_args (proto m) = elim (handle_sensitive_data m) [
    | none ↦ none
    | some clone ↦ some (p.of_message clone)
  ]
  extract_args (redacter s) = some s
  extract_args (stringer s) = some s
  extract_args (other s) = some s

  -- `extractError`
  pub extract_error : Option E → Level × Bytes
  extract_error none = (info, [])
  extract_error (some e) = (error, p.of_error e)

  -- The entry, less the latency.
  pub entry_of : Kind → Context → Option E → Bytes → Bytes → Entry
  unfolding extract_error transport_of
  entry_of k ctx e req resp =
      let (level, stack) = extract_error e in
      record {
        level = level;
        kind = k;
        component = elim (transport_of k ctx) [ none ↦ [] | some t ↦ t.kind ];
        op = elim (transport_of k ctx) [ none ↦ [] | some t ↦ t.operation ];
        req = req;
        resp = resp;
        code = elim e [ none ↦ 0 | some x ↦ p.code x ];
        reason = elim e [ none ↦ [] | some x ↦ p.reason x ];
        stack = stack;
      }

  -- The prints of the request and of the reply, in the order in which they are made.
  pub log_reply : Kind → Context → Arg → Arg → Option E → Outcome E
  unfolding extract_args entry_of
  log_reply k ctx req reply e = elim (extract_args req) [
    | none ↦ panicked
    | some shown_req ↦ elim (extract_args reply) [
      | none ↦ panicked
      | some shown_reply ↦ returned reply e (entry_of k ctx e shown_req shown_reply)
    ]
  ]

  -- `logMiddleware`: the handler runs first, and may change the world.
  unfoldable pub log_middleware {κ} :
      {W : Type κ}
      → Kind
      → (Context → Arg → W → Arg × Option E × W)
      → Context
      → Arg
      → W
      → Outcome E × W
  unfolding log_reply
  log_middleware k handler ctx req w =
      let (reply, e, w') = handler ctx req w in (log_reply k ctx req reply e, w')
