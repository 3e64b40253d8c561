-- ===== src/Validation.antt =====
-- pkg/extn/middleware/validate.go: requests are validated before the handler sees them. The protovalidate
-- engine and `strconv.Quote` are parameters.
pub mod Engine
pub mod Once
pub mod Metadata
mod Tests
use go_svc_extn.Prelude.{
  ℕ, zero, suc, Bool, true, false, Option, none, some, List, [], ◌∷◌, ◌++◌, Bytes, codes, Dict,
  insert, Result, ok, err, panic, ◌>>=◌, or_panic,
}
use go_svc_extn.Prelude.Int.{ℤ}
use go_svc_extn.Strconv.{format_uint, itoa}

-- The subscript of an element of a path.
pub data Subscript : Type 0 where
  index : ℕ → Subscript
  bool_key : Bool → Subscript
  int_key : ℤ → Subscript
  uint_key : ℕ → Subscript
  string_key : Bytes → Subscript

pub record FieldPathElement : Type 0 where
  pub field_name : Bytes
  pub subscript : Option Subscript

-- `FormatBool`
abbrev pub format_bool : Bool → Bytes
format_bool true = codes "true"
format_bool false = codes "false"

module _ (quote : Bytes → Bytes) where
  pub subscript_text : Subscript → Bytes
  subscript_text (index n) = format_uint n
  subscript_text (bool_key b) = format_bool b
  subscript_text (int_key z) = itoa z
  subscript_text (uint_key n) = format_uint n
  subscript_text (string_key s) = quote s

  -- What the loop writes for one element.
  pub element_text : FieldPathElement → Bytes
  unfolding subscript_text
  element_text e = elim e.subscript [
    | none ↦ e.field_name
    | some s ↦ e.field_name ++ (b'[' ∷ subscript_text s ++ (b']' ∷ []))
  ]

  -- The loop of `fieldPathString` from the index `i` on, with what the builder holds.
  pub path_from : ℕ → List FieldPathElement → Bytes → Bytes
  unfolding element_text
  path_from i [] result = result
  path_from zero (e ∷ es) result = path_from 1 es (result ++ element_text e)
  path_from (suc i) (e ∷ es) result =
      path_from (suc (suc i)) es ((result ++ b'.' ∷ []) ++ element_text e)

  -- `fieldPathString`
  pub field_path_string : List FieldPathElement → Bytes
  unfolding path_from
  field_path_string path = path_from 0 path []

-- The field and the message of a violation are pointers.
pub record Violation : Type 0 where
  pub field : Option (List FieldPathElement)
  pub message : Option Bytes

-- What the validator reports.
pub data Failure : Type 0 where
  violations : List Violation → Failure
  failure : Bytes → Failure

-- A bad request, with its metadata.
pub data Error : Type 0 where
  validation_failed : Dict Bytes → Error
  handler_error : Bytes → Error

module _ (quote : Bytes → Bytes) where
  -- The loop over the violations; a nil field or a nil message panics.
  pub collect_metadata : List Violation → Dict Bytes → Result Error (Dict Bytes)
  collect_metadata [] meta = ok meta
  collect_metadata (v ∷ vs) meta = do
    path ← or_panic v.field
    message ← or_panic v.message
    collect_metadata vs (insert (field_path_string quote path) message meta)

  pub error_metadata : Failure → Result Error (Dict Bytes)
  unfolding collect_metadata
  error_metadata (violations vs) = collect_metadata vs []
  error_metadata (failure text) = ok (insert (codes "message") text [])

  -- `handleValidationError`: it returns an error, or panics.
  pub handle_validation_error : {Reply : Type 0} → Failure → Result Error Reply
  unfolding error_metadata
  handle_validation_error f = error_metadata f >>= λ meta. err (validation_failed meta)

-- A request is a protocol message, or anything else.
pub data Request (Message : Type 0) : Type 0 where
  message : Message → Request Message
  opaque : Bytes → Request Message

-- The handler that the middleware makes of another, which changes a world, where there is an engine.
unfoldable pub validator :
    {Message Reply World : Type 0}
    → (Bytes → Bytes)
    → (Message → Option Failure)
    → (Request Message → World → Result Error Reply × World)
    → Request Message
    → World
    → Result Error Reply × World
unfolding handle_validation_error
validator quote validate handler (opaque x) w = handler (opaque x) w
validator quote validate handler (message m) w = elim (validate m) [
  | none ↦ handler (message m) w
  | some f ↦ (handle_validation_error quote f, w)
]
