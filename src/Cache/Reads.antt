-- ===== src/Cache/Reads.antt =====
-- What a cache reads of what was written to it.
use go_svc_extn.Prelude.{
  ◌≡◌, refl, true, false, none, some, Bytes, eq_bytes, codes, Bool-cases, inl, inr,
}
use mathlib.Core.Path.{subst}
use go_svc_extn.Cache.{
  Duration, Server, Ristretto, CacheConfig, make_key, is_positive, remote_get, remote_set_with_ttl,
  remote_set, local_cache, new_cache,
}

module _ {ℓ} {W : Type ℓ} where
  -- What the commands of the server promise of the key that they name.
  pub record IsServer (s : Server W) : Type ℓ where
    pub get-set :
        (k v : Bytes) (w : W) → (s.set k v w).0 ≡ true → (s.get k (s.set k v w).1).0 ≡ some v
    pub get-set_ex :
        (k v : Bytes) (d : Duration) (w : W)
        → (s.set_ex k v d w).0 ≡ true
        → (s.get k (s.set_ex k v d w).1).0 ≡ some v

module _ {ℓ} {W : Type ℓ} (s : Server W) (lawful : IsServer s) (c : CacheConfig) where
  remote_set_timed :
      (key value : Bytes) (w : W)
      → is_positive c.default_ttl ≡ true
      → remote_set s c key value w ≡ s.set_ex (make_key c.cache_name key) value c.default_ttl w
  unfolding remote_set remote_set_with_ttl
  remote_set_timed key value w e = rw e refl

  remote_set_plain :
      (key value : Bytes) (w : W)
      → is_positive c.default_ttl ≡ false
      → remote_set s c key value w ≡ s.set (make_key c.cache_name key) value w
  unfolding remote_set
  remote_set_plain key value w e = rw e refl

  -- A value that was set without an error is the one that is read next, whether the set carries a
  -- time to live or not, and whether reads touch or not.
  pub remote_get-set :
      (key value : Bytes) (w : W)
      → (remote_set s c key value w).0 ≡ true
      → (remote_get s c key (remote_set s c key value w).1).0 ≡ some value
  unfolding remote_get
  remote_get-set key value w e = elim (Bool-cases (is_positive c.default_ttl)) [
    | inl timed ↦
        (let set = remote_set_timed key value w timed in
          rw set (
            lawful.get-set_ex (make_key c.cache_name key) value c.default_ttl w
              (subst (λ r. r.0 ≡ true) set e)))
    | inr plain ↦
        (let set = remote_set_plain key value w plain in
          rw set
            (lawful.get-set (make_key c.cache_name key) value w (subst (λ r. r.0 ≡ true) set e)))
  ]

-- In the process, a key whose expiry was set is not found, whatever time it was given: the entry is
-- deleted at once.
pub local_expire_deletes {ℓ} :
    {W : Type ℓ} (r : Ristretto W) (deletes : (k : Bytes) (w : W) → (r.get k (r.del k w)).0 ≡ none)
    (s : Server W) (c : CacheConfig) (key : Bytes) (ttl : Duration) (w : W)
    → eq_bytes c.mode (codes "remote") ≡ false
    → ((new_cache s r c).get key ((new_cache s r c).expire key ttl w).1).0 ≡ none
unfolding new_cache local_cache
local_expire_deletes r deletes s c key ttl w e = rw e (deletes key w)
