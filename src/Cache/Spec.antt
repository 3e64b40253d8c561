-- ===== src/Cache/Spec.antt =====
-- What a cache is to its caller: a map from keys to values, while no time passes.
use go_svc_extn.Prelude.{
  Bool, true, not, ◌&&◌, is_empty, Option, none, some, List, [], ◌∷◌, Bytes, eq_bytes,
  if◌then◌else◌,
}
use go_svc_extn.Prelude.Int.{pos, leb_ℤ}
use go_svc_extn.Cache.{
  Server, CacheConfig, whole_seconds, remote_get, remote_set, remote_delete, remote_expire,
  remote_set_with_ttl,
}
use go_svc_extn.Cache.Isolation.{Call, get, set, delete, expire, set_with_ttl, call}

-- What a call returns: a value, or whether there was no error.
pub data Reply : Type 0 where
  value : Option Bytes → Reply
  succeeded : Bool → Reply

abbrev pub Map : Type 0
Map = Bytes → Option Bytes

abbrev pub put : Bytes → Option Bytes → Map → Map
put key v m j = if eq_bytes key j then v else m j

-- What a get leaves of the map. A map that is read once gives up a value that is not empty.
abbrev pub taken : Bool → Bytes → Option Bytes → Map → Map
taken once key none m = m
taken once key (some v) m = if once && not (is_empty v) then put key none m else m

-- A call of the map; it never fails: a set replaces the value that is there, and a delete of a missing
-- key changes nothing. To expire now, or in less than a second, is to delete.
unfoldable pub map_call : Bool → Call → Map → Reply × Map
unfolding whole_seconds
map_call once (get key) m = (value (m key), taken once key (m key) m)
map_call once (set key v) m = (succeeded true, put key (some v) m)
map_call once (delete key) m = (succeeded true, put key none m)
map_call once (expire key d) m =
    (succeeded true, if leb_ℤ (whole_seconds d) (pos 0) then put key none m else m)
map_call once (set_with_ttl key v d) m = (succeeded true, put key (some v) m)

unfoldable pub map_replies : Bool → List Call → Map → List Reply
unfolding map_call
map_replies once [] m = []
map_replies once (o ∷ os) m = (map_call once o m).0 ∷ map_replies once os (map_call once o m).1

-- Whether reads of a cache take what they find: with touch, and a default time to live below a second.
abbrev pub reads_once : CacheConfig → Bool
reads_once c = c.apply_touch && leb_ℤ (whole_seconds c.default_ttl) (pos 0)

module _ {ℓ} {W : Type ℓ} (s : Server W) (c : CacheConfig) where
  unfoldable pub reply : Call → W → Reply
  unfolding remote_get remote_set remote_delete remote_expire remote_set_with_ttl
  reply (get key) w = value (remote_get s c key w).0
  reply (set key v) w = succeeded (remote_set s c key v w).0
  reply (delete key) w = succeeded (remote_delete s c key w).0
  reply (expire key d) w = succeeded (remote_expire s c key d w).0
  reply (set_with_ttl key v d) w = succeeded (remote_set_with_ttl s c key v d w).0

  unfoldable pub replies : List Call → W → List Reply
  unfolding reply call
  replies [] w = []
  replies (o ∷ os) w = reply o w ∷ replies os (call s c o w)
