-- ===== src/Cache/Refine.antt =====
-- The operations of the remote cache beside those of the map in Cache/Spec.
use go_svc_extn.Prelude.{◌≡◌, true, false, ◌&&◌, none, some, Bytes, eq_bytes, if◌then◌else◌}
use go_svc_extn.Prelude.Int.{ℤ, pos, leb_ℤ}
use go_svc_extn.Cache.{Duration, Server, CacheConfig, make_key, whole_seconds, is_positive}
use go_svc_extn.Cache.Isolation.{Call, get, set, expire, set_with_ttl}
use go_svc_extn.Cache.Spec.{Map}

module _ {ℓ} {W : Type ℓ} (s : Server W) where
  -- A server that takes every command: what it answers for a key `j` afterwards. A time to live is at
  -- least a second, since Valkey takes whole seconds and refuses 0.
  pub record IsStore : Type ℓ where
    pub set_takes : (k v : Bytes) (w : W) → (s.set k v w).0 ≡ true
    pub set_ex_takes :
        (k v : Bytes) (d : Duration) (w : W)
        → leb_ℤ (whole_seconds d) (pos 0) ≡ false
        → (s.set_ex k v d w).0 ≡ true
    pub expire_takes : (k : Bytes) (d : ℤ) (w : W) → (s.expire k d w).0 ≡ true
    pub del_takes : (k : Bytes) (w : W) → (s.del k w).0 ≡ true
    pub get_get : (k j : Bytes) (w : W) → (s.get j (s.get k w).1).0 ≡ (s.get j w).0
    pub get_set :
        (k j v : Bytes) (w : W)
        → (s.get j (s.set k v w).1).0 ≡ (if eq_bytes k j then some v else (s.get j w).0)
    pub get_set_ex :
        (k j v : Bytes) (d : Duration) (w : W)
        → leb_ℤ (whole_seconds d) (pos 0) ≡ false
        → (s.get j (s.set_ex k v d w).1).0 ≡ (if eq_bytes k j then some v else (s.get j w).0)
    pub get_expire :
        (k j : Bytes) (d : ℤ) (w : W)
        → (s.get j (s.expire k d w).1).0 ≡ (
            if leb_ℤ d (pos 0)
            then (if eq_bytes k j then none else (s.get j w).0)
            else (s.get j w).0)
    pub get_del :
        (k j : Bytes) (w : W)
        → (s.get j (s.del k w).1).0 ≡ (if eq_bytes k j then none else (s.get j w).0)

  module _ (c : CacheConfig) where
    -- The server holds the map under the name of the cache.
    abbrev Holds : W → Map → Type 0
    Holds w m = (key : Bytes) → (s.get (make_key c.cache_name key) w).0 ≡ m key

-- What a configuration must not ask for: a positive default time to live below a second.
abbrev pub WholeSeconds : CacheConfig → Type 0
WholeSeconds c = (is_positive c.default_ttl && leb_ℤ (whole_seconds c.default_ttl) (pos 0)) ≡ false

-- A call whose time to live, if it has one, is a second or more.
abbrev pub IsAllowed : Call → Type 0
IsAllowed (set_with_ttl key v d) = leb_ℤ (whole_seconds d) (pos 0) ≡ false
IsAllowed _ = Unit {0}
