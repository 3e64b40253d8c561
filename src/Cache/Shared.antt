-- ===== src/Cache/Shared.antt =====
-- The constructors of pkg/cache, and the client that all remote caches of a process share: it is made
-- once. The clients' own constructors are parameters.
pub mod Once
mod Tests
use go_svc_extn.Prelude.{
  ℕ, ◌*◌, ◌^◌, Bool, true, false, Option, none, some, List, [], ◌∷◌, Bytes, codes, eq_bytes,
  if◌then◌else◌, Result, ok, err, panic,
}
use go_svc_extn.Cache.{Duration, CacheConfig}

-- `vkClientOnce`, `vkClient` and `vkClientErr`.
pub record Process {ℓ} (E V : Type ℓ) : Type ℓ where
  pub done : Bool
  pub client : Option V
  pub error : Option E

pub fresh {ℓ} : {E V : Type ℓ} → Process E V
fresh = record { done = false; client = none; error = none }

pub record RemoteCacheValkey : Type 0 where
  pub name : Bytes
  pub ttl : Duration
  pub max_elements : ℕ
  pub apply_touch : Bool

pub record LocalCacheRistretto {ℓ} (R : Type ℓ) : Type ℓ where
  pub cache : R
  pub ttl : Duration

-- `ristretto.Config`
pub record RistrettoConfig : Type 0 where
  pub num_counters : ℕ
  pub max_cost : ℕ
  pub buffer_items : ℕ

module _ {ℓ} {E V W : Type ℓ} where
  -- What the function that runs once leaves; `true` is a panic, which counts as a run.
  pub initialized : Result E V × W → Bool × Process E V × W
  initialized (ok v, w) = (false, record { done = true; client = some v; error = none }, w)
  initialized (err e, w) = (false, record { done = true; client = none; error = some e }, w)
  initialized (panic, w) = (true, record { done = true; client = none; error = none }, w)

  -- `vkClientOnce.Do`
  pub do_once : (Bytes → W → Result E V × W) → Bytes → Process E V → W → Bool × Process E V × W
  unfolding initialized
  do_once new_client addr p w = if p.done then (false, p, w) else initialized (new_client addr w)

pub remote_answered {ℓ} : {E : Type ℓ} → CacheConfig → Option E → Result E RemoteCacheValkey
remote_answered c (some e) = err e
remote_answered c none = ok (record {
  name = c.cache_name;
  ttl = c.default_ttl;
  max_elements = c.max_elements;
  apply_touch = c.apply_touch;
})

module _ {ℓ} {E V W : Type ℓ} (new_client : Bytes → W → Result E V × W) where
  -- `NewRemoteCacheValkey`, less its cleanup function, which does nothing.
  pub new_remote_cache_valkey :
      CacheConfig → Process E V → W → Result E RemoteCacheValkey × Process E V × W
  unfolding do_once remote_answered
  new_remote_cache_valkey c p w =
      let (panicked, q, v) = do_once new_client c.remote_cache_addr p w in
      (if panicked then panic else remote_answered c q.error, q, v)

module _ {ℓ} {E R W : Type ℓ} where
  pub local_answered : CacheConfig → Result E R × W → Result E (LocalCacheRistretto R) × W
  local_answered c (ok r, w) = (ok (record { cache = r; ttl = c.default_ttl }), w)
  local_answered c (err e, w) = (err e, w)
  local_answered c (panic, w) = (panic, w)

  -- `NewLocalCacheRistretto`, less its cleanup function.
  pub new_local_cache_ristretto :
      (RistrettoConfig → W → Result E R × W)
      → CacheConfig
      → W
      → Result E (LocalCacheRistretto R) × W
  unfolding local_answered
  new_local_cache_ristretto new_ristretto c w =
      local_answered c
        (new_ristretto (record { num_counters = 10 ^ 7; max_cost = 2 ^ 30; buffer_items = 64 }) w)

-- The interface `Cache`, as a constructor fills it: the pointer in it may be nil, the interface is not.
pub data Interface {ℓ} (R : Type ℓ) : Type ℓ where
  remote : Option RemoteCacheValkey → Interface R
  local : Option (LocalCacheRistretto R) → Interface R

-- What `NewCache` returns: a cache, an error, and whether there is a cleanup function.
pub record Returned {ℓ} (E R : Type ℓ) : Type ℓ where
  pub cache : Interface R
  pub error : Option E
  pub has_cleanup : Bool

module _ {ℓ} {E R : Type ℓ} where
  pub remote_returned : Result E RemoteCacheValkey → Option (Returned E R)
  remote_returned (ok c) =
      some (record { cache = remote (some c); error = none; has_cleanup = true })
  remote_returned (err e) =
      some (record { cache = remote none; error = some e; has_cleanup = false })
  remote_returned panic = none

  pub local_returned : Result E (LocalCacheRistretto R) → Option (Returned E R)
  local_returned (ok c) = some (record { cache = local (some c); error = none; has_cleanup = true })
  local_returned (err e) = some (record { cache = local none; error = some e; has_cleanup = false })
  local_returned panic = none

-- `NewCache`, with its errors; `none` is a panic.
pub make_cache {ℓ} :
    {E V R W : Type ℓ}
    → (Bytes → W → Result E V × W)
    → (RistrettoConfig → W → Result E R × W)
    → CacheConfig
    → Process E V
    → W
    → Option (Returned E R) × Process E V × W
unfolding remote_returned local_returned new_remote_cache_valkey new_local_cache_ristretto
make_cache new_client new_ristretto c p w =
    if eq_bytes c.mode (codes "remote")
    then (let (r, q, v) = new_remote_cache_valkey new_client c p w in (remote_returned r, q, v))
    else (let (r, v) = new_local_cache_ristretto new_ristretto c w in (local_returned r, p, v))
