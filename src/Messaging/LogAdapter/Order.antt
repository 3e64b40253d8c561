-- ===== src/Messaging/LogAdapter/Order.antt =====
-- What an entry's attributes tell, and what an adapter leaves out.
use mathlib.Core.List.{Perm}
use go_svc_extn.Prelude.{
  ◌≡◌, refl, sym, ap, ◌∙◌, Option, none, some, List, [], ◌∷◌, ◌++◌, append_assoc, append-nil, Bytes,
  Dict,
}
use go_svc_extn.Messaging.LogAdapter.{
  Any, text, value, Adapter, append_attrs, log_attrs_from_fields, log_debug, log_error, log_info,
  log_trace, with_fields,
}

add_pair {ℓ} : {V : Type ℓ} → Bytes → V → Option (Dict V) → Option (Dict V)
add_pair k v none = none
add_pair k v (some m) = some ((k, v) ∷ m)

-- The fields that are read off a list of attributes, a name and a value at a time.
pub pairs {ℓ} : {V : Type ℓ} → List (Any V) → Option (Dict V)
unfolding add_pair
pairs [] = some []
pairs (text k ∷ value v ∷ rest) = add_pair k v (pairs rest)
pairs _ = none

module _ {ℓ} {V : Type ℓ} where
  -- The attributes, without the list that grows at its end.
  attrs_of : Dict V → List (Any V)
  attrs_of [] = []
  attrs_of ((k, v) ∷ m) = text k ∷ value v ∷ attrs_of m

  append_attrs_lem :
      (result : List (Any V)) (m : Dict V) → append_attrs result m ≡ result ++ attrs_of m
  unfolding append_attrs attrs_of
  append_attrs_lem result [] = sym (append-nil result)
  append_attrs_lem result ((k, v) ∷ m) =
      append_attrs_lem (result ++ (text k ∷ value v ∷ [])) m
      ∙ append_assoc result (text k ∷ value v ∷ []) (attrs_of m)

  pairs-attrs_of : (m : Dict V) → pairs (attrs_of m) ≡ some m
  unfolding pairs attrs_of add_pair
  pairs-attrs_of [] = refl
  pairs-attrs_of ((k, v) ∷ m) = rw (pairs-attrs_of m) refl

  -- The attributes of an entry tell its fields, each name before its value, up to the order: for a
  -- walk that meets the pairs of the map, each once, in whatever order.
  pub pairs-log_attrs_from_fields :
      (walk : Dict V → Dict V) (m : Dict V)
      → Perm (walk m) m
      → (shown : Dict V) × (pairs (log_attrs_from_fields walk m) ≡ some shown) × Perm shown m
  unfolding log_attrs_from_fields
  pairs-log_attrs_from_fields walk m same =
      (walk m, ap pairs (append_attrs_lem [] (walk m)) ∙ pairs-attrs_of (walk m), same)

-- A call of the logger; an error is logged with its error.
pub data Call {ℓ κ} (V : Type ℓ) (E : Type κ) : Type (ℓ ⊔ κ) where
  debug info trace : Bytes → Dict V → Call V E
  error : Bytes → E → Dict V → Call V E

pub with_all {ℓ} : {V W : Type ℓ} → Adapter V W → List (Dict V) → Adapter V W
with_all a [] = a
with_all a (m ∷ ms) = with_all (with_fields a m) ms

module _ {ℓ κ} {V W : Type ℓ} {E : Type κ} (walk : Dict V → Dict V) where
  pub log_call : Adapter V W → Call V E → W → W
  log_call a (debug msg m) w = log_debug walk a msg m w
  log_call a (info msg m) w = log_info walk a msg m w
  log_call a (trace msg m) w = log_trace a msg m w
  log_call a (error msg e m) w = log_error walk a msg e m w

  pub log_calls : Adapter V W → List (Call V E) → W → W
  unfolding log_call
  log_calls a [] w = w
  log_calls a (c ∷ cs) w = log_calls a cs (log_call a c w)

  log_call-with_fields :
      (a : Adapter V W) (m : Dict V) (c : Call V E) (w : W)
      → log_call (with_fields a m) c w ≡ log_call a c w
  unfolding log_call log_debug log_info log_trace log_error with_fields
  log_call-with_fields a m (debug msg _) w = refl
  log_call-with_fields a m (info msg _) w = refl
  log_call-with_fields a m (trace msg _) w = refl
  log_call-with_fields a m (error msg e _) w = refl

  log_calls-with_fields :
      (a : Adapter V W) (m : Dict V) (cs : List (Call V E)) (w : W)
      → log_calls (with_fields a m) cs w ≡ log_calls a cs w
  unfolding log_calls
  log_calls-with_fields a m [] w = refl
  log_calls-with_fields a m (c ∷ cs) w =
      ap (log_calls (with_fields a m) cs) (log_call-with_fields a m c w)
      ∙ log_calls-with_fields a m cs (log_call a c w)

  -- Whatever is logged by an adapter that was made by `With`, however often, the entries are those of
  -- the adapter without these fields.
  pub log_calls-with_all :
      (a : Adapter V W) (ms : List (Dict V)) (cs : List (Call V E)) (w : W)
      → log_calls (with_all a ms) cs w ≡ log_calls a cs w
  unfolding with_all
  log_calls-with_all a [] cs w = refl
  log_calls-with_all a (m ∷ ms) cs w =
      log_calls-with_all (with_fields a m) ms cs w ∙ log_calls-with_fields a m cs w
