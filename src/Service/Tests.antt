-- ===== src/Service/Tests.antt =====
-- Servers as records of what they were made with: the theorems at concrete services.
use go_svc_extn.Prelude.{ℕ, ◌+◌, ◌*◌, ◌≡◌, refl, List, [], ◌∷◌, Bytes}
use go_svc_extn.Chain.{IsChain}
use go_svc_extn.Service.{ApiService, register_services, ServerOptions, Parts}
use go_svc_extn.Service.Server.{
  IsServer, register_all_grpc, register_all_http, register_services_lem,
}

-- A handler is a function on numbers.
abbrev Handler : Type 0
Handler = ℕ → ℕ

abbrev chain : List (Handler → Handler) → Handler → Handler
chain [] f = f
chain (m ∷ ms) f = m (chain ms f)

chain-IsChain : IsChain chain
chain-IsChain = record { chain-nil = λ f. refl; chain-cons = λ m ms f. refl }

abbrev parts : Parts (Handler → Handler) (ServerOptions (Handler → Handler)) ℕ
parts = record {
  recovery = λ f n. f n + 1;
  metadata = λ f n. f (n * 2);
  tracing = λ f n. f (n + 5);
  new_server = λ options. options;
  graceful_stop = λ g w. w + 1;
}

abbrev handle : ServerOptions (Handler → Handler) → Handler → Handler
handle g f = chain g.middlewares f

abbrev listens : ServerOptions (Handler → Handler) → Bytes
listens g = g.address

parts-IsServer : IsServer parts chain handle listens
parts-IsServer = record { handles = λ options f. refl; at_address = λ options. refl }

abbrev triple : Handler → Handler
triple f n = f (n * 3)

abbrev double : Handler
double n = n * 2

-- The numbers of the services that are registered with the gRPC server and with the HTTP server.
abbrev Registered : Type 0
Registered = List ℕ × List ℕ

abbrev numbered : ℕ → ApiService (Unit {0}) (Unit {0}) Registered
numbered n = record { register_grpc = λ g w. (n ∷ w.0, w.1); register_http = λ h w. (w.0, n ∷ w.1) }

abbrev two : List (ApiService (Unit {0}) (Unit {0}) Registered)
two = numbered 1 ∷ numbered 2 ∷ []

register_services_lem_example :
    register_services tt tt two ([], [])
    ≡ register_all_http tt tt two (register_all_grpc tt tt two ([], []))
register_services_lem_example = register_services_lem tt tt two ([], []) ((λ w. refl, tt), (tt, tt))

two_registered : register_services tt tt two ([], []) ≡ (2 ∷ 1 ∷ [], 2 ∷ 1 ∷ [])
unfolding register_services
two_registered = refl
