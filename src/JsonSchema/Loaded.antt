-- ===== src/JsonSchema/Loaded.antt =====
-- Which schemas a loaded validator knows.
use go_svc_extn.Prelude.{
  ok_injective, ◌≡◌, refl, sym, ap, ◌∙◌, ◌↔◌, ◌≢◌, Bool, true, false, ◌||◌, Option, none, some,
  List, [], ◌∷◌, ◌++◌, append_assoc, append-nil, Bytes, Dict, lookup, insert, lookup-insert,
  eq_bytes, if◌then◌else◌, Result, ok, err, panic, ◌>>=◌, or_err, bind-ok, Option-cases, inl, inr,
  arith,
}
use mathlib.Core.Path.{subst}
use go_svc_extn.JsonSchema.{
  Error, bad_resource, bad_schema, invalid_schema_id, invalid_object, Json, Packages, Loading,
  JsonSchemaValidator, read_schema, add_schema, load_file, load_files, compile_all,
  new_json_schema_validator, Object, string_map, value, to_json, validate_json,
}

abbrev pub listed : Bytes → List Bytes → Bool
listed sid [] = false
listed sid (i ∷ ids) = eq_bytes i sid || listed sid ids

abbrev known {ℓ} : {V : Type ℓ} → Bytes → Dict V → Bool
known sid m = elim (lookup sid m) [ none ↦ false | some _ ↦ true ]

known-insert :
    {V : Type 0} (sid i : Bytes) (v : V) (m : Dict V)
    → known sid (insert i v m) ≡ (eq_bytes i sid || known sid m)
known-insert sid i v m = rw (lookup-insert i sid v m, known) (ground arith)

or_swap : (a b c : Bool) → (b || (a || c)) ≡ (a || b || c)
or_swap true true c = refl
or_swap true false c = refl
or_swap false b c = refl

known_in_none : (b : Bool) (sid : Bytes) → (b || known {V = Bytes} sid []) ≡ b
unfolding lookup
known_in_none true sid = refl
known_in_none false sid = refl

module _ {Compiler Schema : Type 0} (p : Packages Compiler Schema) where
  compile_all-known :
      (sid : Bytes) (ids : List Bytes) (c : Compiler) (schemas made : Dict Schema)
      → compile_all p ids c schemas ≡ ok made
      → known sid made ≡ (listed sid ids || known sid schemas)
  unfolding compile_all
  compile_all-known sid [] c schemas made e = let same : schemas ≡ made = cc in rw same refl
  compile_all-known sid (i ∷ ids) c schemas made e =
      let ((schema, next), compiled, rest) = bind-ok (or_err (p.compile c i) bad_schema) _ made e in
      compile_all-known sid ids next (insert i schema schemas) made rest
      ∙ rw (known-insert sid i schema schemas)
          (or_swap (eq_bytes i sid) (listed sid ids) (known sid schemas))

  -- The ids in the files that have one.
  abbrev pub with_id : Result Error (Bytes × Dict Json × Bytes) → List Bytes → List Bytes
  with_id (ok (text, elems, sid)) ids = sid ∷ ids
  with_id (err e) ids = ids
  with_id panic ids = ids

  abbrev pub file_ids : List (Option Bytes) → List Bytes
  file_ids [] = []
  file_ids (f ∷ fs) = with_id (read_schema p f) (file_ids fs)

  add_schema-ids :
      (text : Bytes) (elems : Dict Json) (sid : Bytes) (l next : Loading Compiler)
      → add_schema p (text, elems, sid) l ≡ ok next
      → next.ids ≡ l.ids ++ sid ∷ []
  unfolding add_schema
  add_schema-ids text elems sid l next e =
      let (_, _, made) =
        bind-ok (or_err (p.add_resource sid text l.compiler) bad_resource) _ next e in
      sym (ap (λ r. r.ids) (ok_injective made))

  load_read-ids :
      (r : Result Error (Bytes × Dict Json × Bytes)) (l next : Loading Compiler) (ids : List Bytes)
      → (r >>= λ read. add_schema p read l) ≡ ok next
      → next.ids ++ ids ≡ l.ids ++ with_id r ids
  load_read-ids (ok (text, elems, sid)) l next ids e =
      rw (add_schema-ids text elems sid l next e) (append_assoc l.ids (sid ∷ []) ids)
  load_read-ids (err x) l next ids e = absurd cc
  load_read-ids panic l next ids e = absurd cc

  load_files-ids :
      (fs : List (Option Bytes)) (l loaded : Loading Compiler)
      → load_files p fs l ≡ ok loaded
      → loaded.ids ≡ l.ids ++ file_ids fs
  unfolding load_files load_file
  load_files-ids [] l loaded e = sym (append-nil l.ids ∙ ap (λ r. r.ids) (ok_injective e))
  load_files-ids (f ∷ fs) l loaded e =
      let (next, first, rest) = bind-ok (load_file p f l) _ loaded e in
      load_files-ids fs next loaded rest
      ∙ load_read-ids (read_schema p f) l next (file_ids fs) first

  validator-known :
      (fs : List (Option Bytes)) (v : JsonSchemaValidator Schema) (sid : Bytes)
      → new_json_schema_validator p (some fs) ≡ ok v
      → known sid v.schemas ≡ listed sid (file_ids fs)
  unfolding new_json_schema_validator lookup
  validator-known fs v sid e =
      let (loaded, read, e1) = bind-ok (load_files p fs _) _ v e in
      let (schemas, compiled, e2) = bind-ok (compile_all p loaded.ids loaded.compiler []) _ v e1 in
      ap (λ r. known sid r.schemas) (sym (ok_injective e2))
      ∙ compile_all-known sid loaded.ids loaded.compiler [] schemas compiled
      ∙ known_in_none (listed sid loaded.ids) sid
      ∙ ap (listed sid) (
          load_files-ids fs record { compiler = p.new_compiler; unique_keys = []; ids = [] } loaded
            read)

  -- What follows the lookup of the schema.
  abbrev answer : Result Error Json → Option Schema → Result Error (Unit {0})
  answer r o = do
    schema ← or_err o invalid_schema_id
    json ← r
    if p.validate schema json then ok tt else err invalid_object

  answer_known :
      (schema : Schema) (r : Result Error Json)
      → r ≢ err invalid_schema_id
      → answer r (some schema) ≢ err invalid_schema_id
  answer_known schema (ok json) h e = absurd (ground (arith, e))
  answer_known schema (err x) h e = absurd (h cc)
  answer_known schema panic h e = cc

  some_known :
      (schema : Schema) (o : Option Schema)
      → o ≡ some schema
      → elim o [ none ↦ false | some _ ↦ true ] ≡ false
      → ⊥
  some_known schema none e h = cc
  some_known schema (some s) e h = cc

  to_json_known : (object : Object p) → to_json p object ≢ err invalid_schema_id
  unfolding to_json
  to_json_known (string_map m) = ground arith
  to_json_known (value j) = ground arith

  validate_json-known :
      (v : JsonSchemaValidator Schema) (sid : Bytes) (object : Object p)
      → (validate_json p v sid object ≡ err invalid_schema_id) ↔ (known sid v.schemas ≡ false)
  unfolding validate_json
  validate_json-known v sid object = elim (Option-cases (lookup sid v.schemas)) [
    | inl e ↦ (λ _. rw (e, known) refl, λ _. rw e refl)
    | inr (schema, e) ↦ (
      λ h. absurd (
          answer_known schema (to_json p object) (to_json_known object)
            (subst (λ o. answer (to_json p object) o ≡ err invalid_schema_id) e h)),
      λ h. absurd (some_known schema (lookup sid v.schemas) e h),
    )
  ]

  -- A validator that was loaded from a directory answers that an id is invalid exactly where no file of
  -- the directory has the id, whatever is validated.
  pub validate_json_unknown_iff :
      (fs : List (Option Bytes)) (v : JsonSchemaValidator Schema) (sid : Bytes) (object : Object p)
      → new_json_schema_validator p (some fs) ≡ ok v
      → (validate_json p v sid object ≡ err invalid_schema_id) ↔ (listed sid (file_ids fs) ≡ false)
  validate_json_unknown_iff fs v sid object e =
      let (there, back) = validate_json-known v sid object in
      let same = validator-known fs v sid e in (λ h. sym same ∙ there h, λ h. back (same ∙ h))
