-- ===== src/Cache.antt =====
-- pkg/cache: a cache in the process (Ristretto) or at a server (Valkey), behind one interface. The two
-- stores are parameters; every operation takes their state and returns it.
pub mod Isolation
pub mod Reads
pub mod Spec
pub mod Refine
pub mod Shared
mod Tests
use go_svc_extn.Prelude.{
  ℕ, ◌-◌, ◌/◌, ◌*◌, ◌^◌, Bool, true, false, not, ◌&&◌, Option, none, some, List, [], ◌∷◌, ◌++◌,
  Bytes, codes, eq_bytes, is_empty, ltb, if◌then◌else◌,
}
use go_svc_extn.Prelude.Int.{ℤ, pos, negsuc, neg_part}

-- `time.Duration`: nanoseconds.
abbrev pub Duration : Type 0
Duration = ℤ

-- `d.Seconds() > 0`
pub is_positive : Duration → Bool
is_positive (pos n) = ltb 0 n
is_positive (negsuc n) = false

-- `int64(d.Seconds())`, which cuts off the fraction. Below 2 ^ 22 seconds, a month and a half, a float64
-- holds the nanoseconds; beyond that it may round up where the fraction is nearly one.
pub whole_seconds : Duration → ℤ
whole_seconds (pos n) = pos (n / 1000000000)
whole_seconds (negsuc n) =
    if ltb n 999999999 then pos 0 else negsuc (neg_part (negsuc n) / 1000000000 - 1)

-- The commands of a Valkey server with the state `W`. A Boolean result is `true` where the reply is no
-- error; `none` is a missing key, or an error.
pub record Server {ℓ} (W : Type ℓ) : Type ℓ where
  pub get : Bytes → W → Option Bytes × W
  pub set : Bytes → Bytes → W → Bool × W
  -- `SET` with `EX`
  pub set_ex : Bytes → Bytes → Duration → W → Bool × W
  -- `EXPIRE`, in seconds
  pub expire : Bytes → ℤ → W → Bool × W
  pub del : Bytes → W → Bool × W

-- What the repository calls of Ristretto. `Set` tells whether the entry was taken, and is not asked.
pub record Ristretto {ℓ} (W : Type ℓ) : Type ℓ where
  pub get : Bytes → W → Option Bytes × W
  pub set : Bytes → Bytes → W → Bool × W
  pub set_with_ttl : Bytes → Bytes → Duration → W → Bool × W
  pub del : Bytes → W → W

-- The interface `Cache`.
pub record Cache {ℓ} (W : Type ℓ) : Type ℓ where
  pub get : Bytes → W → Option Bytes × W
  pub set : Bytes → Bytes → W → Bool × W
  pub delete : Bytes → W → Bool × W
  pub expire : Bytes → Duration → W → Bool × W
  pub set_with_ttl : Bytes → Bytes → Duration → W → Bool × W

pub record CacheConfig : Type 0 where
  pub mode : Bytes
  pub cache_name : Bytes
  pub remote_cache_addr : Bytes
  pub default_ttl : Duration
  pub max_elements : ℕ
  pub apply_touch : Bool

-- `makeKey`
pub make_key : Bytes → Bytes → Bytes
make_key name key = name ++ b':' ∷ key

module _ {ℓ} {W : Type ℓ} (s : Server W) (c : CacheConfig) where
  -- `RemoteCacheValkey.Expire`
  pub remote_expire : Bytes → Duration → W → Bool × W
  unfolding whole_seconds
  remote_expire key ttl w = s.expire (make_key c.cache_name key) (whole_seconds ttl) w

  -- The touch that follows a hit; its error is dropped.
  pub touch : Bytes → Option Bytes → W → W
  unfolding remote_expire
  touch key none w = w
  touch key (some v) w =
      if not (is_empty v) && c.apply_touch then (remote_expire key c.default_ttl w).1 else w

  -- `RemoteCacheValkey.Get`
  pub remote_get : Bytes → W → Option Bytes × W
  unfolding touch
  remote_get key w =
      let (found, after) = s.get (make_key c.cache_name key) w in (found, touch key found after)

  -- `RemoteCacheValkey.SetWithTTL`
  pub remote_set_with_ttl : Bytes → Bytes → Duration → W → Bool × W
  remote_set_with_ttl key value ttl w = s.set_ex (make_key c.cache_name key) value ttl w

  -- `RemoteCacheValkey.Set`
  pub remote_set : Bytes → Bytes → W → Bool × W
  unfolding is_positive remote_set_with_ttl
  remote_set key value w =
      if is_positive c.default_ttl
      then remote_set_with_ttl key value c.default_ttl w
      else s.set (make_key c.cache_name key) value w

  -- `RemoteCacheValkey.Delete`
  pub remote_delete : Bytes → W → Bool × W
  remote_delete key w = s.del (make_key c.cache_name key) w

  -- `NewRemoteCacheValkey`, once the client is made.
  pub remote_cache : Cache W
  unfolding remote_get remote_set remote_delete remote_expire remote_set_with_ttl
  remote_cache = record {
    get = remote_get;
    set = remote_set;
    delete = remote_delete;
    expire = remote_expire;
    set_with_ttl = remote_set_with_ttl;
  }

module _ {ℓ} {W : Type ℓ} (r : Ristretto W) (ttl : Duration) where
  -- `LocalCacheRistretto.SetWithTTL`
  pub local_set_with_ttl : Bytes → Bytes → Duration → W → Bool × W
  local_set_with_ttl key value d w = (true, (r.set_with_ttl key value d w).1)

  -- `LocalCacheRistretto.Set`
  pub local_set : Bytes → Bytes → W → Bool × W
  unfolding is_positive local_set_with_ttl
  local_set key value w =
      if is_positive ttl then local_set_with_ttl key value ttl w else (true, (r.set key value w).1)

  -- `LocalCacheRistretto.Get`, `Expire` and `Delete`
  pub local_cache : Cache W
  unfolding local_set local_set_with_ttl
  local_cache = record {
    get = r.get;
    set = local_set;
    delete = λ key w. (true, r.del key w);
    expire = λ key d w. (true, r.del key w);
    set_with_ttl = local_set_with_ttl;
  }

-- `NewCache`, where neither client fails: the state is that of both stores.
pub new_cache {ℓ} : {W : Type ℓ} → Server W → Ristretto W → CacheConfig → Cache W
unfolding remote_cache local_cache
new_cache s r c =
    if eq_bytes c.mode (codes "remote") then remote_cache s c else local_cache r c.default_ttl
