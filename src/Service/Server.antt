-- ===== src/Service/Server.antt =====
-- How a gRPC service handles its requests, where it listens, and what registration does.
use go_svc_extn.Prelude.{◌≡◌, refl, ap, ◌∙◌, none, some, Option, List, [], ◌∷◌, Bytes, codes, All}
use go_svc_extn.Prelude.Int.{ℤ, IsInt64}
use go_svc_extn.Strconv.{atoi, Parsed, number}
use go_svc_extn.Strconv.RoundTrip.{atoi-itoa}
use go_svc_extn.Strings.{strip_prefix}
use go_svc_extn.Chain.{IsChain}
use go_svc_extn.Service.{
  ApiService, register_services, ServerOptions, Parts, address_of, new_grpc_service,
}

-- The port in the address of a server, if there is one.
pub port_in : Bytes → Option (Parsed ℤ)
port_in address = elim (strip_prefix (codes ":") address) [ none ↦ none | some s ↦ some (atoi s) ]

module _ {ℓ} {F G W : Type ℓ} (p : Parts (F → F) G W) where
  -- A server passes its requests through the chain of its middlewares: `handle` is what it does with
  -- a request, by the handler of a service, and `listens` the address.
  pub record IsServer (chain : List (F → F) → F → F) (handle : G → F → F) (listens : G → Bytes)
      : Type ℓ where
    pub handles :
        (options : ServerOptions (F → F)) (f : F)
        → handle (p.new_server options) f ≡ chain options.middlewares f
    pub at_address :
        (options : ServerOptions (F → F)) → listens (p.new_server options) ≡ options.address

  -- A gRPC service recovers from panics on the outside, then reads the metadata and traces, and only
  -- then come the caller's middlewares, in their order; and it listens at the port that was asked for,
  -- a 64-bit number.
  pub new_grpc_service_lem :
      (chain : List (F → F) → F → F) (handle : G → F → F) (listens : G → Bytes) (port : ℤ)
      (mw : List (F → F)) (f : F)
      → IsChain chain
      → IsServer chain handle listens
      → IsInt64 port
      → (handle (new_grpc_service p port mw).0 f ≡ p.recovery (p.metadata (p.tracing (chain mw f))))
        × (port_in (listens (new_grpc_service p port mw).0) ≡ some (number port))
  unfolding new_grpc_service address_of port_in strip_prefix
  new_grpc_service_lem chain handle listens port mw f laws server range = (
    server.handles _ f
        ∙ laws.chain-cons p.recovery (p.metadata ∷ p.tracing ∷ mw) f
        ∙ ap p.recovery (
            laws.chain-cons p.metadata (p.tracing ∷ mw) f
            ∙ ap p.metadata (laws.chain-cons p.tracing mw f)),
    ap port_in (server.at_address _) ∙ ap some (atoi-itoa port range),
  )

module _ {ℓ} {G H W : Type ℓ} (grpc_server : G) (http_server : H) where
  -- The gRPC registrations alone, and those of HTTP alone.
  pub register_all_grpc : List (ApiService G H W) → W → W
  register_all_grpc [] w = w
  register_all_grpc (s ∷ services) w = register_all_grpc services (s.register_grpc grpc_server w)

  pub register_all_http : List (ApiService G H W) → W → W
  register_all_http [] w = w
  register_all_http (s ∷ services) w = register_all_http services (s.register_http http_server w)

  -- Registering `s` for HTTP and `t` for gRPC, in either order, is the same.
  abbrev pub Apart : ApiService G H W → ApiService G H W → Type ℓ
  Apart s t =
      (w : W)
      → t.register_grpc grpc_server (s.register_http http_server w)
        ≡ s.register_http http_server (t.register_grpc grpc_server w)

  -- Each service and those after it.
  abbrev pub AllApart : List (ApiService G H W) → Type ℓ
  AllApart [] = Unit {ℓ}
  AllApart (s ∷ services) = All (Apart s) services × AllApart services

  register_all_grpc-register_http :
      (s : ApiService G H W) (services : List (ApiService G H W)) (w : W)
      → All (Apart s) services
      → register_all_grpc services (s.register_http http_server w)
        ≡ s.register_http http_server (register_all_grpc services w)
  unfolding register_all_grpc
  register_all_grpc-register_http s [] w apart = refl
  register_all_grpc-register_http s (t ∷ services) w apart =
      ap (register_all_grpc services) (apart.0 w)
      ∙ register_all_grpc-register_http s services (t.register_grpc grpc_server w) apart.1

  -- All services are registered with both servers, in their order: where what a service registers with
  -- the HTTP server and what a later one registers with the gRPC server do not depend on one another, it
  -- is as if all were registered with the gRPC server and then all with the HTTP server.
  pub register_services_lem :
      (services : List (ApiService G H W)) (w : W)
      → AllApart services
      → register_services grpc_server http_server services w
        ≡ register_all_http services (register_all_grpc services w)
  unfolding register_services register_all_grpc register_all_http
  register_services_lem [] w apart = refl
  register_services_lem (s ∷ services) w apart =
      register_services_lem services (s.register_http http_server (s.register_grpc grpc_server w))
        apart.1
      ∙ ap (register_all_http services)
          (register_all_grpc-register_http s services (s.register_grpc grpc_server w) apart.0)
