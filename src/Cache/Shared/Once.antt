-- ===== src/Cache/Shared/Once.antt =====
-- `vkClientOnce` of remote_cache_valkey.go over the life of a process.
use go_svc_extn.Prelude.{
  ◌≡◌, refl, ap, ◌∙◌, Bool, true, false, Bool-cases, inl, inr, none, some, List, [], ◌∷◌, Bytes,
  codes, eq_bytes, Result, ok, err, panic,
}
use go_svc_extn.Cache.{CacheConfig}
use go_svc_extn.Cache.Shared.{
  Process, fresh, initialized, do_once, remote_answered, new_remote_cache_valkey, RistrettoConfig,
  make_cache, remote, remote_returned,
}

module _ {ℓ} {E V R W : Type ℓ} (new_client : Bytes → W → Result E V × W)
    (new_ristretto : RistrettoConfig → W → Result E R × W) where
  do_once_done :
      (addr : Bytes) (p : Process E V) (w : W)
      → p.done ≡ true
      → do_once new_client addr p w ≡ (false, p, w)
  unfolding do_once
  do_once_done addr p w e = rw e refl

  initialized-done : (x : Result E V × W) → (initialized x).1.done ≡ true
  unfolding initialized
  initialized-done (ok v, w) = refl
  initialized-done (err e, w) = refl
  initialized-done (panic, w) = refl

  -- The process after `NewCache` for each of the configurations.
  pub after_all : List CacheConfig → Process E V → W → Process E V × W
  after_all [] p w = (p, w)
  after_all (c ∷ cs) p w =
      let (_, q, v) = make_cache new_client new_ristretto c p w in after_all cs q v

  make_cache_done :
      (c : CacheConfig) (p : Process E V) (w : W)
      → p.done ≡ true
      → (make_cache new_client new_ristretto c p w).1 ≡ p
  unfolding make_cache new_remote_cache_valkey
  make_cache_done c p w e = elim (Bool-cases (eq_bytes c.mode (codes "remote"))) [
    | inl m ↦
        rw m (ap (λ (x : Bool × Process E V × W). x.1) (do_once_done c.remote_cache_addr p w e))
    | inr m ↦ rw m refl
  ]

  after_all_done :
      (cs : List CacheConfig) (p : Process E V) (w : W) → p.done ≡ true → (after_all cs p w).0 ≡ p
  unfolding after_all
  after_all_done [] p w e = refl
  after_all_done (c ∷ cs) p w e =
      let o = make_cache new_client new_ristretto c p w in
      let same : o.1 ≡ p = make_cache_done c p w e in
      after_all_done cs o.1 o.2 (ap (λ (q : Process E V). q.done) same ∙ e) ∙ same

  make_cache-fresh :
      (c : CacheConfig) (w : W)
      → eq_bytes c.mode (codes "remote") ≡ true
      → (make_cache new_client new_ristretto c fresh w).1
        ≡ (initialized (new_client c.remote_cache_addr w)).1
  unfolding make_cache new_remote_cache_valkey do_once fresh
  make_cache-fresh c w m = rw m refl

  -- The client of a process is the one that its first remote cache was given, by that cache's address,
  -- whatever caches are made after it and whatever addresses they name.
  pub first_address_wins :
      (c : CacheConfig) (cs : List CacheConfig) (w : W)
      → eq_bytes c.mode (codes "remote") ≡ true
      → (after_all (c ∷ cs) fresh w).0 ≡ (initialized (new_client c.remote_cache_addr w)).1
  unfolding after_all
  first_address_wins c cs w m =
      let o = make_cache new_client new_ristretto c fresh w in
      let made : o.1 ≡ (initialized (new_client c.remote_cache_addr w)).1 =
        make_cache-fresh c w m in
      after_all_done cs o.1 o.2 (
        ap (λ (q : Process E V). q.done) made ∙ initialized-done (new_client c.remote_cache_addr w))
      ∙ made

  initialized-err :
      (x : Result E V × W) (e : E)
      → x.0 ≡ err e
      → (initialized x).1 ≡ record { done = true; client = none; error = some e }
  unfolding initialized
  initialized-err (ok v, w) e h = absurd cc
  initialized-err (err f, w) e h = cc
  initialized-err (panic, w) e h = absurd cc

  failed_again :
      (c : CacheConfig) (e : E) (w : W)
      → eq_bytes c.mode (codes "remote") ≡ true
      → (make_cache new_client new_ristretto c
          (record { done = true; client = none; error = some e })
          w).0
        ≡ some (record { cache = remote none; error = some e; has_cleanup = false })
  unfolding make_cache new_remote_cache_valkey do_once remote_answered remote_returned
  failed_again c e w m = rw m refl

  -- Where the first client of a process could not be made, every later remote cache fails with that
  -- error, whatever address it names and whatever the servers do by then; what is returned beside the
  -- error is an interface that holds a nil pointer, and no cleanup function.
  pub first_error_stays :
      (c d : CacheConfig) (cs : List CacheConfig) (e : E) (w v : W)
      → eq_bytes c.mode (codes "remote") ≡ true
      → eq_bytes d.mode (codes "remote") ≡ true
      → (new_client c.remote_cache_addr w).0 ≡ err e
      → (make_cache new_client new_ristretto d (after_all (c ∷ cs) fresh w).0 v).0
        ≡ some (record { cache = remote none; error = some e; has_cleanup = false })
  first_error_stays c d cs e w v m n h =
      ap (λ (p : Process E V). (make_cache new_client new_ristretto d p v).0)
        (first_address_wins c cs w m ∙ initialized-err (new_client c.remote_cache_addr w) e h)
      ∙ failed_again d e v n
