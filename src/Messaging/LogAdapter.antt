-- ===== src/Messaging/LogAdapter.antt =====
-- pkg/messaging/watermill_log_adapter.go: Watermill logs by the helper of Kratos. The helper and the order
-- in which Go walks a map are parameters.
pub mod Order
use go_svc_extn.Prelude.{List, [], ◌∷◌, ◌++◌, Bytes, Dict}

-- `any`, as it occurs here: a field's name or its value.
pub data Any {ℓ} (V : Type ℓ) : Type ℓ where
  text : Bytes → Any V
  value : V → Any V

-- `Debug`, `Error` and `Info` of the helper; each is called with the message and one more argument.
pub record Helper {ℓ} (V W : Type ℓ) : Type ℓ where
  pub debug : Bytes → List (Any V) → W → W
  pub error : Bytes → List (Any V) → W → W
  pub info : Bytes → List (Any V) → W → W

-- `WatermillLoggerAdapter`
pub record Adapter {ℓ} (V W : Type ℓ) : Type ℓ where
  pub log_helper : Helper V W
  pub fields : Dict V

-- The loop of `logAttrsFromFields`: `result` grows at its end.
pub append_attrs {ℓ} : {V : Type ℓ} → List (Any V) → Dict V → List (Any V)
append_attrs result [] = result
append_attrs result ((k, v) ∷ fields) = append_attrs (result ++ (text k ∷ value v ∷ [])) fields

-- `logAttrsFromFields`, where a loop over the map meets its pairs in the order `walk`.
pub log_attrs_from_fields {ℓ} : {V : Type ℓ} → (Dict V → Dict V) → Dict V → List (Any V)
unfolding append_attrs
log_attrs_from_fields walk fields = append_attrs [] (walk fields)

-- `NewWatermillLoggerAdapter`, from the helper of the logger.
pub new_watermill_logger_adapter {ℓ} : {V W : Type ℓ} → Helper V W → Adapter V W
new_watermill_logger_adapter h = record { log_helper = h; fields = [] }

module _ {ℓ} {V W : Type ℓ} (walk : Dict V → Dict V) (a : Adapter V W) where
  -- `Debug`
  pub log_debug : Bytes → Dict V → W → W
  unfolding log_attrs_from_fields
  log_debug msg fields w = a.log_helper.debug msg (log_attrs_from_fields walk fields) w

  -- `Error`
  pub log_error {κ} : {E : Type κ} → Bytes → E → Dict V → W → W
  unfolding log_attrs_from_fields
  log_error msg e fields w = a.log_helper.error msg (log_attrs_from_fields walk fields) w

  -- `Info`
  pub log_info : Bytes → Dict V → W → W
  unfolding log_attrs_from_fields
  log_info msg fields w = a.log_helper.info msg (log_attrs_from_fields walk fields) w

-- `Trace`
pub log_trace {ℓ} : {V W : Type ℓ} → Adapter V W → Bytes → Dict V → W → W
log_trace a msg fields w = w

-- `With`
pub with_fields {ℓ} : {V W : Type ℓ} → Adapter V W → Dict V → Adapter V W
with_fields a fields = record { log_helper = a.log_helper; fields = fields }
