-- ===== src/Logging.antt =====
-- The redaction of pkg/extn/middleware/logging.go, over the options of proto/options/log_options.proto.
-- A protobuf message is the list of its populated fields, in the order in which `Range` meets them.
pub mod Mask
pub mod Redaction
pub mod Secrecy
pub mod Untouched
pub mod Panics
pub mod Middleware
mod Tests
use go_svc_extn.Prelude.{
  ℕ, ◌-◌, Bool, true, false, ◌||◌, Option, none, some, List, [], ◌∷◌, ◌++◌, Bytes, codes, length,
  drop, replicate, leb, if◌then◌else◌,
}

-- The oneof `log_action`.
pub data LogAction : Type 0 where
  redact mask obfuscate : Bool → LogAction

pub record Sensitive : Type 0 where
  pub log_action : Option LogAction
  pub encrypt : Bool
  pub pii : Bool

-- `GetRedact` and `GetMask`
pub get_redact : Option LogAction → Bool
get_redact (some (redact b)) = b
get_redact _ = false

pub get_mask : Option LogAction → Bool
get_mask (some (mask b)) = b
get_mask _ = false

-- A field's descriptor: its name, and its option `sensitive` where it is set.
pub record Descriptor : Type 0 where
  pub name : Bytes
  pub sensitive : Option Sensitive

-- The value of a field. `text` is that of a string field; `scalar` that of any other scalar field,
-- by its print.
mutual
  pub data Value : Type 0 where
    text : Bytes → Value
    scalar : Bytes → Value
    message : Fields → Value
    list : Items → Value
    map_of : Entries → Value

  pub data Fields : Type 0 where
    end : Fields
    field : Descriptor → Value → Fields → Fields

  pub data Items : Type 0 where
    nil : Items
    item : Value → Items → Items

  pub data Entries : Type 0 where
    empty : Entries
    entry : Bytes → Value → Entries → Entries

infixl 5 ◌>>=◌
abbrev ◌>>=◌ {ℓ κ} : {A : Type ℓ} {B : Type κ} → Option A → (A → Option B) → Option B
none >>= f = none
some a >>= f = f a

-- `maskString`
pub mask_string : Bytes → Bytes
mask_string value =
    if leb (length value) 4
    then codes "****"
    else replicate (length value - 4) b'*' ++ drop (length value - 4) value

-- `m.Set(fd, ValueOfString(…))` panics unless the field is a string.
pub mask_value : Value → Option (Option Value)
unfolding mask_string
mask_value (text s) = some (some (text (mask_string s)))
mask_value _ = none

-- What the option does to the value, `some none` for `m.Clear(fd)`; `none` is a panic.
pub apply_option : Option Sensitive → Value → Option (Option Value)
unfolding get_redact get_mask
apply_option none v = some (some v)
apply_option (some s) v =
    if get_redact s.log_action || s.pii
    then some none
    else if get_mask s.log_action
    then mask_value v
    else some (some v)

abbrev put : Descriptor → Option Value → Fields → Fields
put d none fs = fs
put d (some v) fs = field d v fs

-- `handleSensitiveData`: what is below a field is handled first, then the field by its own option.
-- `none` is a panic.
mutual
  pub handle_value : Value → Option Value
  handle_value (text s) = some (text s)
  handle_value (scalar s) = some (scalar s)
  handle_value (message fs) = do some (message (← handle_fields fs))
  handle_value (list vs) = do some (list (← handle_items vs))
  handle_value (map_of es) = do some (map_of (← handle_entries es))

  pub handle_fields : Fields → Option Fields
  handle_fields end = some end
  handle_fields (field d v fs) = do
    below ← handle_value v
    kept ← apply_option d.sensitive below
    rest ← handle_fields fs
    some (put d kept rest)

  pub handle_items : Items → Option Items
  handle_items nil = some nil
  handle_items (item v vs) = do
    below ← handle_value v
    rest ← handle_items vs
    some (item below rest)

  pub handle_entries : Entries → Option Entries
  handle_entries empty = some empty
  handle_entries (entry k v es) = do
    below ← handle_value v
    rest ← handle_entries es
    some (entry k below rest)

-- `handleSensitiveData` of a message.
pub handle_sensitive_data : Fields → Option Fields
unfolding handle_fields
handle_sensitive_data fs = handle_fields fs
