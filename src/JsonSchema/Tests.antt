-- ===== src/JsonSchema/Tests.antt =====
-- A directory of two schemas, and values of two keys: the theorems at concrete inputs.
use go_svc_extn.Prelude.{
  ◌≡◌, refl, ◌↔◌, ◌⊎◌, true, false, Option, some, List, [], ◌∷◌, Bytes, All, Lacks, Dict, codes,
  eq_bytes, is_empty, get, if◌then◌else◌, panic, lookup, insert, ok, err, arith,
}
use go_svc_extn.JsonSchema.{
  invalid_schema_id, string, other, Packages, JsonSchemaValidator, value, new_json_schema_validator,
  load_files, load_file, read_schema, add_schema, schema_id, keep_unique_keys, compile_all,
  validate_json, validate_map, string_map, collect_values, hash_strings,
  generate_unique_key_for_values,
}
use go_svc_extn.JsonSchema.Loaded.{listed, file_ids, validate_json_unknown_iff}
use go_svc_extn.JsonSchema.Maps.{IsAlike, validate_map-validate_json, missing_id_panics}
use go_svc_extn.JsonSchema.UniqueKey.{values_of, Collision, unique_key_tells}

-- A file is the text of its id, and an empty one has none; a schema is its id.
abbrev packages : Packages (Unit {0}) Bytes
packages = record {
  unmarshal = λ text. some (if is_empty text then [] else (codes "id", string text) ∷ []);
  new_compiler = tt;
  add_resource = λ sid text c. some tt;
  compile = λ c sid. some (sid, tt);
  validate = λ schema json. true;
  marshal = λ m. some (get (codes "k") m);
  unmarshal_any = λ text. some (other text);
}

abbrev values : Dict Bytes
values = (codes "k", codes "v") ∷ []

abbrev files : List (Option Bytes)
files = some (codes "a") ∷ some (codes "b") ∷ []

abbrev loaded : JsonSchemaValidator Bytes
loaded = record {
  schemas = (codes "a", codes "a") ∷ (codes "b", codes "b") ∷ [];
  schema_unique_keys = [];
}

all_loaded : new_json_schema_validator packages (some files) ≡ ok loaded
unfolding new_json_schema_validator load_files load_file read_schema add_schema schema_id
    keep_unique_keys compile_all insert lookup eq_bytes is_empty
all_loaded = refl

validate_json_unknown_iff_example :
    (validate_json packages loaded (codes "c") (value (other [])) ≡ err invalid_schema_id)
    ↔ (listed (codes "c") (file_ids packages files) ≡ false)
validate_json_unknown_iff_example =
    validate_json_unknown_iff packages files loaded (codes "c") (value (other [])) all_loaded

validate_map-validate_json_example :
    ((validate_map packages packages.marshal loaded (codes "b") values ≡ ok tt)
      ↔ (validate_json packages loaded (codes "b") (string_map values) ≡ ok tt))
    × IsAlike
        (validate_map packages packages.marshal loaded (codes "b") values)
        (validate_json packages loaded (codes "b") (string_map values))
validate_map-validate_json_example = validate_map-validate_json packages loaded (codes "b") values

first_loaded :
    load_files packages
      (some (codes "a") ∷ [])
      (record { compiler = tt; unique_keys = []; ids = [] })
    ≡ ok (record { compiler = tt; unique_keys = []; ids = codes "a" ∷ [] })
unfolding load_files load_file read_schema add_schema schema_id keep_unique_keys lookup eq_bytes
    is_empty
first_loaded = refl

missing_id_panics_example :
    new_json_schema_validator packages (some (some (codes "a") ∷ some [] ∷ some (codes "b") ∷ []))
    ≡ panic
unfolding is_empty lookup
missing_id_panics_example =
    missing_id_panics packages (some (codes "a") ∷ []) (some (codes "b") ∷ []) (some []) _
      ([], [], refl, refl, refl) first_loaded

-- A digest that is one byte.
abbrev digest : Bytes → Bytes
digest s = 7 ∷ []

abbrev keys : List Bytes
keys = codes "k" ∷ []

keyed :
    generate_unique_key_for_values digest values keys ≡ ok (hash_strings digest (codes "v" ∷ []))
unfolding generate_unique_key_for_values collect_values get lookup eq_bytes is_empty
keyed = refl

lacking : All (Lacks b',') (values_of values keys)
unfolding get lookup eq_bytes
lacking = ground arith

unique_key_tells_example : (values_of values keys ≡ values_of values keys) ⊎ Collision digest
unique_key_tells_example =
    unique_key_tells digest (λ s. omega arith) values values keys keys
      (hash_strings digest (codes "v" ∷ [])) keyed keyed lacking lacking
