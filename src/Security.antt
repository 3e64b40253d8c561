-- ===== src/Security.antt =====
-- pkg/extn/middleware/security.go: required headers, and correlation ids from an incoming request to
-- the outgoing ones. The header of a transport and the source of new ids are parameters.
pub mod Laws
mod Tests
use go_svc_extn.Prelude.{
  ◌≡◌, Bool, ◌||◌, Option, none, some, List, [], ◌∷◌, Bytes, codes, is_empty, if◌then◌else◌, Result,
  ok, err,
}

-- The request header of a transport.
pub record Header {ℓ} (H : Type ℓ) : Type ℓ where
  pub get : H → Bytes → Bytes
  pub set : H → Bytes → Bytes → H

-- The header names, which are also the keys of the context.
abbrev pub correlation_id_key : Bytes
correlation_id_key = codes "x-correlation-id"

abbrev pub signed_headers_key : Bytes
signed_headers_key = codes "x-signed-headers"

abbrev pub authorization_key : Bytes
authorization_key = codes "Authorization"

-- What the middlewares read of a context: the header of the server's and of the client's transport,
-- and the value of `CtxCorrelationIdKey`.
pub record Context {ℓ} (H : Type ℓ) : Type ℓ where
  pub server : Option H
  pub client : Option H
  pub correlation_id : Option Bytes

pub data Error : Type 0 where
  unauthorized : Error
  other : Bytes → Error

-- The last parts are the state of the world and what is left of it.
abbrev pub Handler {ℓ κ μ ν} : Type ℓ → Type κ → Type μ → Type ν → Type (ℓ ⊔ κ ⊔ μ ⊔ ν)
Handler H Req Reply W = Context H → Req → W → Result Error Reply × W

-- `ServerSecurityHeaderValidator`
pub server_security_header_validator {ℓ κ μ ν} :
    {H : Type ℓ} {Req : Type κ} {Reply : Type μ} {W : Type ν}
    → Header H
    → Handler H Req Reply W
    → Handler H Req Reply W
server_security_header_validator h handler ctx req w = elim ctx.server [
  | none ↦ handler ctx req w
  | some header ↦
      if is_empty (h.get header authorization_key) || is_empty (h.get header signed_headers_key)
      then (err unauthorized, w)
      else handler ctx req w
]

-- Ids: the header's operations, and `idgen.NewId`.
module _ {ℓ ν} {H : Type ℓ} {W : Type ν} (h : Header H) (new_id : W → Bytes × W) where
  -- `getCorrelationIdFromCtx`
  unfoldable pub get_correlation_id_from_ctx : Context H → W → Bytes × W
  get_correlation_id_from_ctx ctx w = elim ctx.correlation_id [
    | some id ↦ (id, w)
    | none ↦ new_id w
  ]

  -- The id of an incoming request: its header's, or a new one.
  pub incoming_id : H → W → Bytes × W
  incoming_id header w =
      let id = h.get header correlation_id_key in if is_empty id then new_id w else (id, w)

  -- `ServerCorrelationIdInjector`
  unfoldable pub server_correlation_id_injector {κ μ} :
      {Req : Type κ} {Reply : Type μ} → Handler H Req Reply W → Handler H Req Reply W
  unfolding incoming_id
  server_correlation_id_injector handler ctx req w = elim ctx.server [
    | none ↦ handler ctx req w
    | some header ↦
        let (id, w') = incoming_id header w in
        handler (record ctx { correlation_id = some id }) req w'
  ]

  -- `ClientCorrelationIdInjector`
  unfoldable pub client_correlation_id_injector {κ μ} :
      {Req : Type κ} {Reply : Type μ} → Handler H Req Reply W → Handler H Req Reply W
  unfolding get_correlation_id_from_ctx
  client_correlation_id_injector handler ctx req w = elim ctx.client [
    | none ↦ handler ctx req w
    | some header ↦
        let (id, w') = get_correlation_id_from_ctx ctx w in
        handler (record ctx { client = some (h.set header correlation_id_key id) }) req w'
  ]
