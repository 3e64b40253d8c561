-- ===== src/Security/Laws.antt =====
-- What passes the validator, and which id an outgoing call carries.
use go_svc_extn.Prelude.{
  ◌≡◌, refl, ◌∙◌, true, false, ◌||◌, none, some, List, [], ◌∷◌, ◌++◌, map, Bytes, is_empty,
  if◌then◌else◌, Result, ok, err, arith,
}
use go_svc_extn.Security.{
  Header, Context, Error, unauthorized, Handler, correlation_id_key, signed_headers_key,
  authorization_key, server_security_header_validator, get_correlation_id_from_ctx, incoming_id,
  server_correlation_id_injector, client_correlation_id_injector,
}

module _ {ℓ κ μ ν} {H : Type ℓ} {Req : Type κ} {Reply : Type μ} {W : Type ν} (h : Header H) where
  validator_at :
      (handler : Handler H Req Reply W) (ctx : Context H) (req : Req) (w : W) (header : H)
      → ctx.server ≡ some header
      → server_security_header_validator h handler ctx req w ≡ (
          if is_empty (h.get header authorization_key) || is_empty (h.get header signed_headers_key)
          then (err unauthorized, w)
          else handler ctx req w)
  unfolding server_security_header_validator
  validator_at handler ctx req w header e = ground arith

  -- Behind the validator a handler runs only on requests that carry both headers: a reply to a
  -- request of a transport means that neither header was empty, and that it is the handler's own.
  pub validator_sound :
      (handler : Handler H Req Reply W) (ctx : Context H) (req : Req) (w : W) (header : H)
      (reply : Reply)
      → ctx.server ≡ some header
      → (server_security_header_validator h handler ctx req w).0 ≡ ok reply
      → (is_empty (h.get header authorization_key) ≡ false)
        × (is_empty (h.get header signed_headers_key) ≡ false)
        × (server_security_header_validator h handler ctx req w ≡ handler ctx req w)
  validator_sound handler ctx req w header reply e f =
      ground (arith, validator_at handler ctx req w header e)

  -- A request of a transport that lacks one of the headers is refused with `unauthorized`, whatever
  -- the handler is, and the world stays as it was.
  pub validator_refuses :
      (handler : Handler H Req Reply W) (ctx : Context H) (req : Req) (w : W) (header : H)
      → ctx.server ≡ some header
      → (is_empty (h.get header authorization_key) || is_empty (h.get header signed_headers_key))
        ≡ true
      → server_security_header_validator h handler ctx req w ≡ (err unauthorized, w)
  validator_refuses handler ctx req w header e f = rw (validator_at handler ctx req w header e, f)

-- What two calls sent, one after the other.
abbrev add_sent {ℓ} :
    {H : Type ℓ} → Result Error (List H) → Result Error (List H) → Result Error (List H)
add_sent (ok xs) (ok ys) = ok (xs ++ ys)
add_sent (ok xs) r = r
add_sent r s = r

get_correlation_id_from_ctx_at {ℓ ν} :
    {H : Type ℓ} {W : Type ν} (h : Header H) (new_id : W → Bytes × W) (ctx : Context H) (w : W)
    (id : Bytes)
    → ctx.correlation_id ≡ some id
    → get_correlation_id_from_ctx h new_id ctx w ≡ (id, w)
unfolding get_correlation_id_from_ctx
get_correlation_id_from_ctx_at h new_id ctx w id e = ground arith

module _ {ℓ κ ν} {H : Type ℓ} {Req : Type κ} {W : Type ν} (h : Header H)
    (new_id : W → Bytes × W) where
  injector_at :
      (ctx : Context H) (req : Req) (w : W) (incoming : H) (handler : Handler H Req (List H) W)
      → ctx.server ≡ some incoming
      → server_correlation_id_injector h new_id handler ctx req w
        ≡ handler
            (record ctx { correlation_id = some (incoming_id h new_id incoming w).0 })
            req
            (incoming_id h new_id incoming w).1
  unfolding server_correlation_id_injector
  injector_at ctx req w incoming handler e = ground arith

  -- The last handler of a client: it sends the request, and answers with the header that it sent.
  abbrev pub send : Handler H Req (List H) W
  send ctx req w = elim ctx.client [ none ↦ (ok [], w) | some header ↦ (ok (header ∷ []), w) ]

  -- A handler that makes outgoing calls one after the other, each through the client's middleware and
  -- with a header of its own; it answers with the headers that were sent.
  abbrev pub call_all : List H → Handler H Req (List H) W
  call_all [] ctx req w = (ok [], w)
  call_all (header ∷ headers) ctx req w =
      let (sent, w') =
        client_correlation_id_injector h new_id send (record ctx { client = some header }) req w in
      let (rest, w'') = call_all headers ctx req w' in (add_sent sent rest, w'')

  call_all-id :
      (headers : List H) (ctx : Context H) (req : Req) (w : W) (id : Bytes)
      → ctx.correlation_id ≡ some id
      → call_all headers ctx req w
        ≡ (ok (map (λ header. h.set header correlation_id_key id) headers), w)
  unfolding client_correlation_id_injector
  call_all-id [] ctx req w id e = refl
  call_all-id (header ∷ headers) ctx req w id e =
      rw
        (
          get_correlation_id_from_ctx_at h new_id (record ctx { client = some header }) w id e,
          call_all-id headers ctx req w id e,
        )
        (rw (get_correlation_id_from_ctx_at h new_id (record ctx { client = some header }) w id e))

  -- Every outgoing call that is made while an incoming request is handled carries one id: the
  -- request's own, or, if it has none, one new id, made once.
  pub server-call_all :
      (headers : List H) (ctx : Context H) (req : Req) (w : W) (incoming : H)
      → ctx.server ≡ some incoming
      → server_correlation_id_injector h new_id (call_all headers) ctx req w ≡ (
        ok (
            map
              (λ header. h.set header correlation_id_key (incoming_id h new_id incoming w).0)
              headers),
        (incoming_id h new_id incoming w).1,
      )
  unfolding server_correlation_id_injector
  server-call_all headers ctx req w incoming e =
      let (id, w') = incoming_id h new_id incoming w in
      injector_at ctx req w incoming (call_all headers) e
      ∙ call_all-id headers (record ctx { correlation_id = some id }) req w' id refl
