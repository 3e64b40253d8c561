-- ===== src/Cache/Tests.antt =====
-- A server and a process cache that keep their entries in a list: the theorems at concrete caches.
use go_svc_extn.Prelude.{
  List, eq_bytes_apart, ◌≡◌, ◌≢◌, refl, Bool, true, false, none, some, [], ◌∷◌, Bytes, Dict, lookup,
  insert, lookup-insert, lookup-insert_self, eq_bytes, eq_bytes_iff, is_empty, codes, if◌then◌else◌,
  arith,
}
use go_svc_extn.Prelude.Int.{pos, leb_ℤ}
use go_svc_extn.Cache.{
  Server, CacheConfig, whole_seconds, is_positive, remote_get, remote_set, remote_set_with_ttl,
}
use go_svc_extn.Cache.Isolation.{
  Call, KeepsOthers, get, set, delete, expire, calls, caches_isolated,
}
use go_svc_extn.Cache.Spec.{reads_once, value, succeeded, map_call, map_replies}
use go_svc_extn.Cache.Reads.{IsServer}

remove : Bytes → Dict Bytes → Dict Bytes
remove k [] = []
remove k ((j, v) ∷ m) = if eq_bytes j k then remove k m else (j, v) ∷ remove k m

lookup-remove :
    (k j : Bytes) (m : Dict Bytes)
    → lookup j (remove k m) ≡ (if eq_bytes k j then none else lookup j m)
unfolding remove lookup
lookup-remove k j [] = ground arith
lookup-remove k j ((i, w) ∷ m) =
    ground (arith, eq_bytes_iff k j, eq_bytes_iff i k, eq_bytes_iff i j, lookup-remove k j m)

abbrev server : Server (Dict Bytes)
server = record {
  get = λ k w. (lookup k w, w);
  set = λ k v w. (true, insert k v w);
  set_ex = λ k v d w. (true, insert k v w);
  expire = λ k d w. (true, if leb_ℤ d (pos 0) then remove k w else w);
  del = λ k w. (true, remove k w);
}

insert_apart : (k j v : Bytes) (w : Dict Bytes) → k ≢ j → lookup j (insert k v w) ≡ lookup j w
insert_apart k j v w h = rw (lookup-insert k j v w, eq_bytes_apart k j h) refl

remove_apart : (k j : Bytes) (w : Dict Bytes) → k ≢ j → lookup j (remove k w) ≡ lookup j w
remove_apart k j w h = rw (lookup-remove k j w, eq_bytes_apart k j h) refl

expire_apart :
    (k j : Bytes) (b : Bool) (w : Dict Bytes)
    → k ≢ j
    → lookup j (if b then remove k w else w) ≡ lookup j w
expire_apart k j true w h = remove_apart k j w h
expire_apart k j false w h = refl

server-KeepsOthers : KeepsOthers server
server-KeepsOthers = record {
  after_get = λ k j w h. refl;
  after_set = λ k j v w h. insert_apart k j v w h;
  after_set_ex = λ k j v d w h. insert_apart k j v w h;
  after_expire = λ k j d w h. expire_apart k j (leb_ℤ d (pos 0)) w h;
  after_del = λ k j w h. remove_apart k j w h;
}

server-IsServer : IsServer server
server-IsServer = record {
  get-set = λ k v w _. lookup-insert_self k v w;
  get-set_ex = λ k v d w _. lookup-insert_self k v w;
}

abbrev users : CacheConfig
users = record {
  mode = codes "remote";
  cache_name = codes "users";
  remote_cache_addr = codes "localhost:6379";
  max_elements = 100;
  default_ttl = pos 0;
  apply_touch = true;
}

abbrev orders : CacheConfig
orders = record {
  mode = codes "remote";
  cache_name = codes "orders";
  remote_cache_addr = codes "localhost:6379";
  max_elements = 100;
  default_ttl = pos 5000000000;
  apply_touch = false;
}

names_differ : codes "users" ≢ codes "orders"
names_differ e = cc

caches_isolated_example :
    (remote_get server orders (codes "1") (
      calls server users
        (set (codes "1") (codes "x") ∷ get (codes "1") ∷ delete (codes "1") ∷ [])
        [])).0
    ≡ (remote_get server orders (codes "1") []).0
caches_isolated_example =
    caches_isolated server server-KeepsOthers users orders
      (set (codes "1") (codes "x") ∷ get (codes "1") ∷ delete (codes "1") ∷ []) (codes "1") []
      (ground arith) (ground arith) names_differ

set_ok : (remote_set server orders (codes "1") (codes "x") []).0 ≡ true
unfolding remote_set remote_set_with_ttl is_positive
set_ok = refl

abbrev stored : Dict Bytes
stored = (codes "users:1", codes "x") ∷ []

abbrev some_calls : List Call
some_calls =
    get (codes "1")
    ∷ get (codes "1")
    ∷ set (codes "1") (codes "y")
    ∷ set (codes "1") (codes "z")
    ∷ expire (codes "1") (pos 1500000000)
    ∷ get (codes "1")
    ∷ delete (codes "1")
    ∷ []

-- The second get finds nothing.
replies_run :
    map_replies (reads_once users) some_calls (λ key. some (codes "x"))
    ≡ value (some (codes "x"))
      ∷ value none
      ∷ succeeded true
      ∷ succeeded true
      ∷ succeeded true
      ∷ value (some (codes "z"))
      ∷ succeeded true
      ∷ []
unfolding map_replies map_call whole_seconds eq_bytes is_empty
replies_run = refl

-- A short expiry deletes the entry.
expiry_run :
    map_replies
      (reads_once orders)
      (set (codes "1") (codes "x") ∷ expire (codes "1") (pos 500000000) ∷ get (codes "1") ∷ [])
      (λ key. none)
    ≡ succeeded true ∷ succeeded true ∷ value none ∷ []
unfolding map_replies map_call whole_seconds eq_bytes is_empty
expiry_run = refl
