-- ===== src/Validation/Metadata.antt =====
-- Paths are joined by dots, and the metadata answers with the last message of a path.
use go_svc_extn.Prelude.{
  ℕ, suc, ◌≡◌, refl, sym, ap, ◌∙◌, Option, none, some, List, [], ◌∷◌, ◌++◌, map, append_assoc,
  append-nil, Bytes, codes, Dict, lookup, insert, lookup-insert, eq_bytes, if◌then◌else◌, Result,
  ok, err,
}
use go_svc_extn.Strings.{join}
use go_svc_extn.Validation.{
  FieldPathElement, element_text, path_from, field_path_string, Violation, Failure, violations,
  Error, validation_failed, collect_metadata, error_metadata, handle_validation_error, message,
  validator, Request,
}

-- A violation with a field and a message: the path and the message.
abbrev pub whole : List FieldPathElement × Bytes → Violation
whole (path, text) = record { field = some path; message = some text }

module _ (quote : Bytes → Bytes) where
  -- Every further element stands behind a dot.
  abbrev dotted : List FieldPathElement → Bytes
  dotted [] = []
  dotted (e ∷ es) = b'.' ∷ (element_text quote e ++ dotted es)

  path_from-suc :
      (i : ℕ) (es : List FieldPathElement) (result : Bytes)
      → path_from quote (suc i) es result ≡ result ++ dotted es
  unfolding path_from
  path_from-suc i [] result = sym (append-nil result)
  path_from-suc i (e ∷ es) result =
      path_from-suc (suc i) es ((result ++ b'.' ∷ []) ++ element_text quote e)
      ∙ append_assoc (result ++ b'.' ∷ []) (element_text quote e) (dotted es)
      ∙ append_assoc result (b'.' ∷ []) (element_text quote e ++ dotted es)

  dotted-join :
      (e : FieldPathElement) (es : List FieldPathElement)
      → element_text quote e ++ dotted es ≡ join (map (element_text quote) (e ∷ es)) (codes ".")
  unfolding join
  dotted-join e [] = append-nil (element_text quote e)
  dotted-join e (f ∷ es) = ap (λ s. element_text quote e ++ b'.' ∷ s) (dotted-join f es)

  -- The text of a path is that of its elements, joined by dots.
  pub field_path_string-join :
      (path : List FieldPathElement)
      → field_path_string quote path ≡ join (map (element_text quote) path) (codes ".")
  unfolding field_path_string path_from
  field_path_string-join [] = unfold join in refl
  field_path_string-join (e ∷ es) = path_from-suc 0 es (element_text quote e) ∙ dotted-join e es

  -- The message of the last violation at a path, or what was there before.
  abbrev pub last_message :
      Bytes → List (List FieldPathElement × Bytes) → Option Bytes → Option Bytes
  last_message p [] before = before
  last_message p ((path, text) ∷ vs) before =
      last_message p vs (if eq_bytes (field_path_string quote path) p then some text else before)

  collected :
      (vs : List (List FieldPathElement × Bytes)) (meta : Dict Bytes)
      → (made : Dict Bytes) × (collect_metadata quote (map whole vs) meta ≡ ok made)
        × ((p : Bytes) → lookup p made ≡ last_message p vs (lookup p meta))
  unfolding collect_metadata
  collected [] meta = (meta, refl, λ p. refl)
  collected ((path, text) ∷ vs) meta =
      let (made, e, found) = collected vs (insert (field_path_string quote path) text meta) in
      (
        made,
        e,
        λ p.
            found p
            ∙ ap (last_message p vs) (lookup-insert (field_path_string quote path) p text meta),
      )

  -- A message with violations is refused before the handler runs: the world is unchanged, and the error's
  -- metadata has, at every path, the message of the last violation at this path. Every violation has a
  -- field and a message.
  pub validator_refuses_message :
      {Message Reply World : Type 0} (validate : Message → Option Failure)
      (handler : Request Message → World → Result Error Reply × World) (m : Message) (w : World)
      (vs : List (List FieldPathElement × Bytes))
      → validate m ≡ some (violations (map whole vs))
      → (meta : Dict Bytes) × (validator quote validate handler (message m) w
          ≡ (err (validation_failed meta), w))
        × ((p : Bytes) → lookup p meta ≡ last_message p vs none)
  unfolding validator handle_validation_error error_metadata
  validator_refuses_message validate handler m w vs e =
      let (meta, made, found) = collected vs [] in
      (
        meta,
        rw (e, validator, handle_validation_error, error_metadata, made) refl,
        λ p. found p ∙ ap (last_message p vs) (unfold lookup in refl),
      )
