-- ===== src/Cache/Shared/Tests.antt =====
-- Two addresses, of which one has no server.
use go_svc_extn.Prelude.{
  ℕ, ◌+◌, ◌≡◌, refl, true, false, none, some, [], ◌∷◌, Bytes, codes, eq_bytes, if◌then◌else◌,
  Result, ok, err,
}
use go_svc_extn.Prelude.Int.{pos}
use go_svc_extn.Cache.{CacheConfig}
use go_svc_extn.Cache.Shared.{fresh, initialized, make_cache, remote, RistrettoConfig}
use go_svc_extn.Cache.Shared.Once.{after_all, first_address_wins, first_error_stays}

abbrev users : CacheConfig
users = record {
  mode = codes "remote";
  cache_name = codes "users";
  remote_cache_addr = codes "localhost:6379";
  max_elements = 100;
  default_ttl = pos 0;
  apply_touch = true;
}

abbrev orders : CacheConfig
orders = record users { remote_cache_addr = codes "a:6379" }

-- A server of Valkey at `a`, and none elsewhere; the world counts the attempts.
abbrev new_client : Bytes → ℕ → Result ℕ Bytes × ℕ
new_client addr w = if eq_bytes addr (codes "a:6379") then (ok addr, w + 1) else (err 111, w + 1)

abbrev new_ristretto : RistrettoConfig → ℕ → Result ℕ ℕ × ℕ
new_ristretto options w = (ok w, w)

users_remote : eq_bytes (codes "remote") (codes "remote") ≡ true
unfolding eq_bytes
users_remote = refl

refused : (new_client (codes "localhost:6379") 0).0 ≡ err 111
unfolding eq_bytes
refused = refl

first_address_wins_example :
    (after_all new_client new_ristretto (users ∷ orders ∷ []) fresh 0).0
    ≡ (initialized (new_client (codes "localhost:6379") 0)).1
first_address_wins_example =
    first_address_wins new_client new_ristretto users (orders ∷ []) 0 users_remote

first_error_stays_example :
    (make_cache new_client new_ristretto orders
      (after_all new_client new_ristretto (users ∷ orders ∷ []) fresh 0).0
      5).0
    ≡ some (record { cache = remote none; error = some 111; has_cleanup = false })
first_error_stays_example =
    first_error_stays new_client new_ristretto users orders (orders ∷ []) 111 0 5 users_remote
      users_remote refused
