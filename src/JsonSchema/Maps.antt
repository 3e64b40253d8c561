-- ===== src/JsonSchema/Maps.antt =====
-- `ValidateMap` beside `ValidateJson`, and files of the directory that have no id.
use go_svc_extn.Prelude.{
  ◌≡◌, refl, sym, ◌∙◌, ◌⊎◌, ◌↔◌, inl, inr, Option-cases, Option, none, some, List, [], ◌∷◌, ◌++◌,
  Bytes, codes, Dict, lookup, Result, ok, err, panic, ◌>>=◌, or_err, if◌then◌else◌, bind-ok,
}
use go_svc_extn.JsonSchema.{
  Error, Json, Packages, Loading, JsonSchemaValidator, invalid_schema_id, bad_map, bad_marshal,
  bad_object, invalid_object, string_map, convert_map_to_any, to_json, validate_json,
  validate_map_by, validate_map, schema_id, read_schema, load_file, load_files,
  new_json_schema_validator,
}

-- One answer twice, or the errors for a map that has no JSON form.
abbrev pub IsAlike : Result Error (Unit {0}) → Result Error (Unit {0}) → Type 0
IsAlike r s = (r ≡ s) ⊎ (((r ≡ err bad_marshal) ⊎ (r ≡ err bad_object)) × (s ≡ err bad_map))

module _ {Compiler Schema : Type 0} (p : Packages Compiler Schema) where
  -- The two validations of a schema that is there.
  abbrev checked : Schema → Result Error Json → Result Error (Unit {0})
  checked schema r = r >>= λ json. if p.validate schema json then ok tt else err invalid_object

  -- By whether the map is marshalled, and what is read back.
  same_check :
      (schema : Schema) (a : Option Bytes) (read : Bytes → Option Json)
      → IsAlike
          (or_err a bad_marshal >>= λ text. checked schema (or_err (read text) bad_object))
          (checked schema (or_err (elim a [ none ↦ none | some text ↦ read text ]) bad_map))
  same_check schema none read = inr (inl refl, refl)
  same_check schema (some text) read = elim (Option-cases (read text)) [
    | inl e ↦ rw e (inr (inr refl, refl))
    | inr (j, e) ↦ rw e (inl refl)
  ]

  same_known :
      (o : Option Schema) (m : Dict Bytes)
      → IsAlike
          (or_err o invalid_schema_id >>= λ schema. validate_map_by p p.marshal schema m)
          (or_err o invalid_schema_id >>= λ schema. checked schema (to_json p (string_map m)))
  unfolding to_json convert_map_to_any validate_map_by
  same_known none m = inl refl
  same_known (some schema) m = same_check schema (p.marshal m) p.unmarshal_any

  IsAlike-accepts : (r s : Result Error (Unit {0})) → IsAlike r s → (r ≡ ok tt) ↔ (s ≡ ok tt)
  IsAlike-accepts r s (inl e) = (λ h. sym e ∙ h, λ h. e ∙ h)
  IsAlike-accepts r s (inr (inl e, f)) = (λ h. absurd cc, λ h. absurd cc)
  IsAlike-accepts r s (inr (inr e, f)) = (λ h. absurd cc, λ h. absurd cc)

  -- A map of strings is accepted by `ValidateMap` exactly where it is accepted by `ValidateJson`, and the
  -- two results are equal but in one case: both fail, `ValidateMap` with its error for a map that is not
  -- marshalled or not read back, and `ValidateJson` with its one error for both.
  pub validate_map-validate_json :
      (v : JsonSchemaValidator Schema) (sid : Bytes) (m : Dict Bytes)
      → ((validate_map p p.marshal v sid m ≡ ok tt)
          ↔ (validate_json p v sid (string_map m) ≡ ok tt))
        × IsAlike (validate_map p p.marshal v sid m) (validate_json p v sid (string_map m))
  unfolding validate_map validate_json
  validate_map-validate_json v sid m =
      let alike = same_known (lookup sid v.schemas) m in (IsAlike-accepts _ _ alike, alike)

  -- A file that is read, and has no id.
  abbrev pub HasNoId : Option Bytes → Type 0
  HasNoId contents =
      (text : Bytes) × (elems : Dict Json) × (contents ≡ some text)
      × (p.unmarshal text ≡ some elems)
      × (lookup (codes "id") elems ≡ none)

  load_file-HasNoId :
      (f : Option Bytes) (l : Loading Compiler) → HasNoId f → load_file p f l ≡ panic
  unfolding load_file read_schema schema_id
  load_file-HasNoId f l (text, elems, e, u, h) = rw (e, u, h, schema_id) refl

  load_files-HasNoId :
      (fs gs : List (Option Bytes)) (f : Option Bytes) (l m : Loading Compiler)
      → HasNoId f
      → load_files p fs l ≡ ok m
      → load_files p (fs ++ f ∷ gs) l ≡ panic
  unfolding load_files
  load_files-HasNoId [] gs f l m h e = rw (load_file-HasNoId f l h) refl
  load_files-HasNoId (g ∷ fs) gs f l m h e =
      let (n, first, rest) = bind-ok (load_file p g l) _ m e in
      rw first (load_files-HasNoId fs gs f n m h rest)

  -- A file of the directory that is JSON but has no id makes the constructor panic, where the files
  -- before it are loaded.
  pub missing_id_panics :
      (fs gs : List (Option Bytes)) (f : Option Bytes) (l : Loading Compiler)
      → HasNoId f
      → load_files p fs (record { compiler = p.new_compiler; unique_keys = []; ids = [] }) ≡ ok l
      → new_json_schema_validator p (some (fs ++ f ∷ gs)) ≡ panic
  unfolding new_json_schema_validator
  missing_id_panics fs gs f l h e = rw (load_files-HasNoId fs gs f _ l h e) refl
