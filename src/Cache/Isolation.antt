-- ===== src/Cache/Isolation.antt =====
-- Remote caches of different names at one server do not see each other.
use go_svc_extn.Prelude.{
  ◌≡◌, ◌≢◌, refl, sym, ap, ◌∙◌, none, some, Option, List, [], ◌∷◌, Bytes, Lacks, not, is_empty,
  ◌&&◌, Bool-cases, inl, inr,
}
use go_svc_extn.Strings.{cut_at}
use go_svc_extn.Strings.Split.{cut_at-append}
use go_svc_extn.Prelude.Int.{ℤ}
use go_svc_extn.Cache.{
  Duration, Server, CacheConfig, make_key, whole_seconds, is_positive, touch, remote_expire,
  remote_get, remote_set_with_ttl, remote_set, remote_delete,
}

same_cut :
    {a b c d : Bytes}
    → ◌≡◌ {A = Option (Bytes × Bytes)} (some (a, b)) (some (c, d))
    → (a ≡ c) × (b ≡ d)
same_cut e = (cc, cc)

-- Names without a colon: a key at the server tells the name and the key in the cache.
pub make_key_injective :
    (name other key other_key : Bytes)
    → Lacks b':' name
    → Lacks b':' other
    → make_key name key ≡ make_key other other_key
    → (name ≡ other) × (key ≡ other_key)
unfolding make_key
make_key_injective name other key other_key h k e = same_cut (
    sym (cut_at-append b':' name key h)
    ∙ ap (λ s. cut_at s b':') e
    ∙ cut_at-append b':' other other_key k)

module _ {ℓ} {W : Type ℓ} where
  -- No command changes what the server answers for another key.
  pub record KeepsOthers (s : Server W) : Type ℓ where
    pub after_get : (k j : Bytes) (w : W) → k ≢ j → (s.get j (s.get k w).1).0 ≡ (s.get j w).0
    pub after_set : (k j v : Bytes) (w : W) → k ≢ j → (s.get j (s.set k v w).1).0 ≡ (s.get j w).0
    pub after_set_ex :
        (k j v : Bytes) (d : Duration) (w : W)
        → k ≢ j
        → (s.get j (s.set_ex k v d w).1).0 ≡ (s.get j w).0
    pub after_expire :
        (k j : Bytes) (d : ℤ) (w : W) → k ≢ j → (s.get j (s.expire k d w).1).0 ≡ (s.get j w).0
    pub after_del : (k j : Bytes) (w : W) → k ≢ j → (s.get j (s.del k w).1).0 ≡ (s.get j w).0

-- A call of a cache.
pub data Call : Type 0 where
  get : Bytes → Call
  set : Bytes → Bytes → Call
  delete : Bytes → Call
  expire : Bytes → Duration → Call
  set_with_ttl : Bytes → Bytes → Duration → Call

module _ {ℓ} {W : Type ℓ} (s : Server W) (c : CacheConfig) where
  -- The state after a call of the remote cache.
  unfoldable pub call : Call → W → W
  call (get key) w = (remote_get s c key w).1
  call (set key value) w = (remote_set s c key value w).1
  call (delete key) w = (remote_delete s c key w).1
  call (expire key d) w = (remote_expire s c key d w).1
  call (set_with_ttl key value d) w = (remote_set_with_ttl s c key value d w).1

  pub calls : List Call → W → W
  unfolding call
  calls [] w = w
  calls (o ∷ os) w = calls os (call o w)

module _ {ℓ} {W : Type ℓ} (s : Server W) (c : CacheConfig) (keeps : KeepsOthers s) (j : Bytes)
    (apart : (key : Bytes) → make_key c.cache_name key ≢ j) where
  touch_keeps :
      (key : Bytes) (found : Option Bytes) (w : W)
      → (s.get j (touch s c key found w)).0 ≡ (s.get j w).0
  unfolding touch remote_expire
  touch_keeps key none w = refl
  touch_keeps key (some v) w = elim (Bool-cases (not (is_empty v) && c.apply_touch)) [
    | inl e ↦ rw e (
        keeps.after_expire (make_key c.cache_name key) j (whole_seconds c.default_ttl) w
          (apart key))
    | inr e ↦ rw e refl
  ]

  set_keeps :
      (key value : Bytes) (w : W) → (s.get j (remote_set s c key value w).1).0 ≡ (s.get j w).0
  unfolding remote_set remote_set_with_ttl
  set_keeps key value w = elim (Bool-cases (is_positive c.default_ttl)) [
    | inl e ↦
        rw e (keeps.after_set_ex (make_key c.cache_name key) j value c.default_ttl w (apart key))
    | inr e ↦ rw e (keeps.after_set (make_key c.cache_name key) j value w (apart key))
  ]

  call_keeps : (o : Call) (w : W) → (s.get j (call s c o w)).0 ≡ (s.get j w).0
  unfolding call remote_get remote_set remote_delete remote_expire remote_set_with_ttl
  call_keeps (get key) w =
      touch_keeps key (s.get (make_key c.cache_name key) w).0
        (s.get (make_key c.cache_name key) w).1
      ∙ keeps.after_get (make_key c.cache_name key) j w (apart key)
  call_keeps (set key value) w = set_keeps key value w
  call_keeps (delete key) w = keeps.after_del (make_key c.cache_name key) j w (apart key)
  call_keeps (expire key d) w =
      keeps.after_expire (make_key c.cache_name key) j (whole_seconds d) w (apart key)
  call_keeps (set_with_ttl key value d) w =
      keeps.after_set_ex (make_key c.cache_name key) j value d w (apart key)

  calls_keep : (os : List Call) (w : W) → (s.get j (calls s c os w)).0 ≡ (s.get j w).0
  unfolding calls
  calls_keep [] w = refl
  calls_keep (o ∷ os) w = calls_keep os (call s c o w) ∙ call_keeps o w

-- Whatever is called of one remote cache, in whatever order, another one of another name reads what
-- it read before: neither name holds a colon, and no command of the server changes what it answers
-- for another key.
pub caches_isolated {ℓ} :
    {W : Type ℓ} (s : Server W) (keeps : KeepsOthers s) (c d : CacheConfig) (os : List Call)
    (key : Bytes) (w : W)
    → Lacks b':' c.cache_name
    → Lacks b':' d.cache_name
    → c.cache_name ≢ d.cache_name
    → (remote_get s d key (calls s c os w)).0 ≡ (remote_get s d key w).0
unfolding remote_get
caches_isolated s keeps c d os key w h k differ =
    calls_keep s c keeps (make_key d.cache_name key)
      (λ own e. differ (make_key_injective c.cache_name d.cache_name own key h k e).0) os w
