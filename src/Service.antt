-- ===== src/Service.antt =====
-- pkg/extn/service.go: registration of services, and a gRPC server with default middlewares. The servers
-- and the three default middlewares are Kratos's and parameters.
pub mod Server
mod Tests
use go_svc_extn.Prelude.{List, [], ◌∷◌, ◌++◌, Bytes, codes}
use go_svc_extn.Prelude.Int.{ℤ}
use go_svc_extn.Strconv.{itoa}

-- The interface `ApiService`; `G` and `H` are the two servers.
pub record ApiService {ℓ} (G H W : Type ℓ) : Type ℓ where
  pub register_grpc : G → W → W
  pub register_http : H → W → W

-- `RegisterServices`
pub register_services {ℓ} : {G H W : Type ℓ} → G → H → List (ApiService G H W) → W → W
register_services grpc_server http_server [] w = w
register_services grpc_server http_server (s ∷ services) w =
    register_services grpc_server http_server services
      (s.register_http http_server (s.register_grpc grpc_server w))

-- The options of `grpc.NewServer`. `M` are middlewares.
pub record ServerOptions {ℓ} (M : Type ℓ) : Type ℓ where
  pub middlewares : List M
  pub address : Bytes

-- `recovery.Recovery`, `metadata.Server` and `tracing.Server`, and a server, which can be stopped.
pub record Parts {ℓ} (M G W : Type ℓ) : Type ℓ where
  pub recovery : M
  pub metadata : M
  pub tracing : M
  pub new_server : ServerOptions M → G
  pub graceful_stop : G → W → W

-- `":" + strconv.Itoa(port)`
pub address_of : ℤ → Bytes
address_of port = codes ":" ++ itoa port

module _ {ℓ} {M G W : Type ℓ} (p : Parts M G W) where
  -- `NewGrpcService`: the server and its shutdown function. There is no error.
  pub new_grpc_service : ℤ → List M → G × (W → W)
  unfolding address_of
  new_grpc_service port mw =
      let srv = p.new_server (record {
        middlewares = (p.recovery ∷ p.metadata ∷ p.tracing ∷ []) ++ mw;
        address = address_of port;
      }) in
      (srv, p.graceful_stop srv)
