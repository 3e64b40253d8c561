-- ===== src/JsonSchema.antt =====
-- pkg/util/jsonschema: a validator over a directory of schemas, and unique keys for values. The JSON
-- parser, the schema compiler and SHA-256 are parameters; so are the directory and its files.
pub mod UniqueKey
pub mod Ambiguity
pub mod Loaded
pub mod Maps
mod Tests
use go_svc_extn.Prelude.{
  Bool, true, false, Option, none, some, List, [], ◌∷◌, ◌++◌, Bytes, codes, is_empty, Dict, lookup,
  insert, get, if◌then◌else◌, Result, ok, err, panic, ◌>>=◌, or_err,
}
use go_svc_extn.Crypto.Signature.{hex}
use go_svc_extn.Strings.{join}

pub data Error : Type 0 where
  key_not_found unreadable_directory unreadable_file bad_json missing_id bad_resource bad_schema :
      Error
  invalid_schema_id bad_map bad_marshal bad_object invalid_object : Error

-- The loop of `GenerateUniqueKeyForValues`: an absent value and an empty one are errors.
pub collect_values : Dict Bytes → List Bytes → Result Error (List Bytes)
collect_values values [] = ok []
collect_values values (k ∷ ks) =
    let rest = collect_values values ks in
    if is_empty (get k values) then err key_not_found else (rest >>= λ vs. ok (get k values ∷ vs))

-- `hashStrings`
pub hash_strings : (Bytes → Bytes) → List Bytes → Bytes
hash_strings sha256 strings = hex (sha256 (join strings (codes ",")))

-- `GenerateUniqueKeyForValues`
pub generate_unique_key_for_values : (Bytes → Bytes) → Dict Bytes → List Bytes → Result Error Bytes
unfolding collect_values hash_strings
generate_unique_key_for_values sha256 values key_names = do
  strings ← collect_values values key_names
  ok (hash_strings sha256 strings)

-- A value of `any` that a JSON text is read into, as far as the loader looks at it.
mutual
  pub data Json : Type 0 where
    string : Bytes → Json
    array : JsonList → Json
    other : Bytes → Json

  pub data JsonList : Type 0 where
    nil : JsonList
    cons : Json → JsonList → JsonList

-- `convertInterfaceSliceToStringSlice`
pub convert_interface_slice_to_string_slice : JsonList → Option (List Bytes)
convert_interface_slice_to_string_slice nil = some []
convert_interface_slice_to_string_slice (cons (string s) js) =
    elim (convert_interface_slice_to_string_slice js) [ none ↦ none | some ss ↦ some (s ∷ ss) ]
convert_interface_slice_to_string_slice (cons _ js) = none

-- The packages that are called, over a compiler's state and its schemas.
pub record Packages (Compiler Schema : Type 0) : Type 0 where
  -- `json.Unmarshal` into a map.
  pub unmarshal : Bytes → Option (Dict Json)
  pub new_compiler : Compiler
  -- `AddResource`: the id, then the text.
  pub add_resource : Bytes → Bytes → Compiler → Option Compiler
  -- `Compile`, which returns no nil schema without an error.
  pub compile : Compiler → Bytes → Option (Schema × Compiler)
  -- `Validate`
  pub validate : Schema → Json → Bool
  -- `json.Marshal` of a map of strings, and `json.Unmarshal` into `any`.
  pub marshal : Dict Bytes → Option Bytes
  pub unmarshal_any : Bytes → Option Json

-- What the loop over the files carries.
pub record Loading (Compiler : Type 0) : Type 0 where
  pub compiler : Compiler
  pub unique_keys : Dict (List Bytes)
  pub ids : List Bytes

pub record JsonSchemaValidator (Schema : Type 0) : Type 0 where
  pub schemas : Dict Schema
  pub schema_unique_keys : Dict (List Bytes)

-- `jsonElems["id"].(string)`, which panics on a value of another type and on none.
pub schema_id : Dict Json → Result Error Bytes
schema_id elems = elim (lookup (codes "id") elems) [
  | some (string s) ↦ if is_empty s then err missing_id else ok s
  | _ ↦ panic
]

-- The unique keys are kept where they are an array of strings that is not empty.
pub keep_unique_keys : Bytes → Dict Json → Dict (List Bytes) → Dict (List Bytes)
keep_unique_keys sid elems keys = elim (lookup (codes "uniqueKeys") elems) [
  | some (array js) ↦ elim (convert_interface_slice_to_string_slice js) [
    | some (k ∷ ks) ↦ insert sid (k ∷ ks) keys
    | _ ↦ keys
  ]
  | _ ↦ keys
]

module _ {Compiler Schema : Type 0} (p : Packages Compiler Schema) where
  -- What is read of a file: the text of one that can be read, its elements, and its id.
  pub read_schema : Option Bytes → Result Error (Bytes × Dict Json × Bytes)
  unfolding schema_id
  read_schema contents = do
    text ← or_err contents unreadable_file
    elems ← or_err (p.unmarshal text) bad_json
    sid ← schema_id elems
    ok (text, elems, sid)

  -- The rest of a round of the loop.
  pub add_schema : Bytes × Dict Json × Bytes → Loading Compiler → Result Error (Loading Compiler)
  unfolding keep_unique_keys
  add_schema (text, elems, sid) l = do
    compiler ← or_err (p.add_resource sid text l.compiler) bad_resource
    ok record {
      compiler = compiler;
      unique_keys = keep_unique_keys sid elems l.unique_keys;
      ids = l.ids ++ sid ∷ [];
    }

  -- One round of the loop over the files.
  pub load_file : Option Bytes → Loading Compiler → Result Error (Loading Compiler)
  unfolding read_schema add_schema
  load_file contents l = do read ← read_schema contents; add_schema read l

  pub load_files : List (Option Bytes) → Loading Compiler → Result Error (Loading Compiler)
  unfolding load_file
  load_files [] l = ok l
  load_files (f ∷ fs) l = do next ← load_file f l; load_files fs next

  -- The loop that compiles the schemas.
  pub compile_all : List Bytes → Compiler → Dict Schema → Result Error (Dict Schema)
  compile_all [] c schemas = ok schemas
  compile_all (sid ∷ ids) c schemas = do
    (schema, next) ← or_err (p.compile c sid) bad_schema
    compile_all ids next (insert sid schema schemas)

  -- `NewJsonSchemaValidator`
  pub new_json_schema_validator :
      Option (List (Option Bytes)) → Result Error (JsonSchemaValidator Schema)
  unfolding load_files compile_all
  new_json_schema_validator directory = do
    files ← or_err directory unreadable_directory
    l ← load_files files record { compiler = p.new_compiler; unique_keys = []; ids = [] }
    schemas ← compile_all l.ids l.compiler []
    ok record { schemas = schemas; schema_unique_keys = l.unique_keys }

  -- What is validated: a map of strings, or another value.
  pub data Object : Type 0 where
    string_map : Dict Bytes → Object
    value : Json → Object

  -- `convertMapToAny`
  pub convert_map_to_any : Dict Bytes → Option Json
  convert_map_to_any m = elim (p.marshal m) [ none ↦ none | some text ↦ p.unmarshal_any text ]

  pub to_json : Object → Result Error Json
  unfolding convert_map_to_any
  to_json (string_map m) = or_err (convert_map_to_any m) bad_map
  to_json (value j) = ok j

  -- `ValidateJson`
  pub validate_json : JsonSchemaValidator Schema → Bytes → Object → Result Error (Unit {0})
  unfolding to_json
  validate_json v sid object = do
    schema ← or_err (lookup sid v.schemas) invalid_schema_id
    json ← to_json object
    if p.validate schema json then ok tt else err invalid_object

-- `GetUniqueKeys`
pub get_unique_keys :
    {Schema : Type 0} → JsonSchemaValidator Schema → Bytes → Result Error (List Bytes)
get_unique_keys v sid = or_err (lookup sid v.schema_unique_keys) invalid_schema_id

module _ {Compiler Schema : Type 0} (p : Packages Compiler Schema) {T : Type 0}
    (marshal : Dict T → Option Bytes) where
  -- `ValidateMap`, the function, for values of a type that JSON prints.
  pub validate_map_by : Schema → Dict T → Result Error (Unit {0})
  validate_map_by schema m = do
    text ← or_err (marshal m) bad_marshal
    json ← or_err (p.unmarshal_any text) bad_object
    if p.validate schema json then ok tt else err invalid_object

  -- `JsonSchemaValidator.ValidateMap`
  pub validate_map : JsonSchemaValidator Schema → Bytes → Dict T → Result Error (Unit {0})
  unfolding validate_map_by
  validate_map v sid m = do
    schema ← or_err (lookup sid v.schemas) invalid_schema_id
    validate_map_by schema m

-- `ConvertJsonToMap`: JSON's error is returned as it is.
pub convert_json_to_map {ℓ} :
    {E : Type ℓ} → (Bytes → Result E (Dict Bytes)) → Bytes → Result E (Dict Bytes)
convert_json_to_map unmarshal text = do m ← unmarshal text; ok m

-- `ConvertMapToJson`
pub convert_map_to_json {ℓ} :
    {E : Type ℓ} → (Dict Bytes → Result E Bytes) → Dict Bytes → Result E Bytes
convert_map_to_json marshal m = do text ← marshal m; ok text
