-- ===== src/Logging/Panics.antt =====
-- When the redaction of a message panics.
use go_svc_extn.Prelude.{
  ◌≡◌, ◌↔◌, ◌⊎◌, refl, true, false, Option, none, some, Bytes, Bool-cases, inl, inr,
}
use go_svc_extn.Logging.{
  Sensitive, Descriptor, Value, text, scalar, message, list, map_of, Fields, end, field, Items, nil,
  item, Entries, empty, entry, mask_value, apply_option, put, handle_value, handle_fields,
  handle_items, handle_entries, handle_sensitive_data,
}
use go_svc_extn.Logging.Redaction.{
  hides, masks, apply_option_hidden, apply_option_masked, apply_option_kept, Holds, Holds-map,
  Holds-bind,
}

abbrev pub IsText : Value → Type 0
IsText (text s) = Unit
IsText _ = ⊥

-- A field that is to be masked is a string.
abbrev pub IsTyped : Option Sensitive → Value → Type 0
IsTyped o v = (masks o ≡ false) ⊎ IsText v

mutual
  pub data TypedValue : Value → Type 0 where
    typed_text : {s : Bytes} → TypedValue (text s)
    typed_scalar : {s : Bytes} → TypedValue (scalar s)
    typed_message : {fs : Fields} → TypedLog fs → TypedValue (message fs)
    typed_list : {vs : Items} → TypedItems vs → TypedValue (list vs)
    typed_map : {es : Entries} → TypedEntries es → TypedValue (map_of es)

  -- At every depth, each field marked `mask`, and not `redact` or `pii`, is a string.
  pub data TypedLog : Fields → Type 0 where
    typed_end : TypedLog end
    typed_field :
        {d : Descriptor} {v : Value} {fs : Fields}
        → IsTyped d.sensitive v
        → TypedValue v
        → TypedLog fs
        → TypedLog (field d v fs)

  pub data TypedItems : Items → Type 0 where
    typed_nil : TypedItems nil
    typed_item : {v : Value} {vs : Items} → TypedValue v → TypedItems vs → TypedItems (item v vs)

  pub data TypedEntries : Entries → Type 0 where
    typed_empty : TypedEntries empty
    typed_entry :
        {k : Bytes} {v : Value} {es : Entries}
        → TypedValue v
        → TypedEntries es
        → TypedEntries (entry k v es)

mask_value-IsText : (v : Value) → Holds (λ _. IsText v) (mask_value v)
unfolding mask_value
mask_value-IsText (text s) = tt
mask_value-IsText v = tt

hidden_not_masked : (o : Option Sensitive) → hides o ≡ true → masks o ≡ false
hidden_not_masked none h = refl
hidden_not_masked (some s) h = rw h

apply_option-IsTyped :
    (o : Option Sensitive) (v : Value) → Holds (λ _. IsTyped o v) (apply_option o v)
apply_option-IsTyped o v = elim (Bool-cases (hides o)) [
  | inl hidden ↦ rw (apply_option_hidden o v hidden) (inl (hidden_not_masked o hidden))
  | inr left ↦ elim (Bool-cases (masks o)) [
    | inl masked ↦ rw (apply_option_masked o v masked) (
        Holds-map (λ _. IsText v) (λ _. IsTyped o v) (mask_value v) (mask_value-IsText v)
          (λ _ t. inr t))
    | inr plain ↦ rw (apply_option_kept o v left plain) (inl plain)
  ]
]

-- What the handling of a value tells about it.
abbrev Tells : Value → Value → Type 0
Tells v w = TypedValue v × (IsText w → IsText v)

IsTyped-of :
    (o : Option Sensitive) (v w : Value) → IsTyped o w → (IsText w → IsText v) → IsTyped o v
IsTyped-of o v w (inl plain) back = inl plain
IsTyped-of o v w (inr t) back = inr (back t)

mutual
  unfolding handle_fields

  handle_value-Tells : (v : Value) → Holds (Tells v) (handle_value v)
  handle_value-Tells (text s) = (typed_text, λ t. t)
  handle_value-Tells (scalar s) = (typed_scalar, λ t. t)
  handle_value-Tells (message fs) =
      Holds-bind (λ _. TypedLog fs) (Tells (message fs)) (handle_fields fs) _
        (handle_fields-TypedLog fs) (λ gs h. (typed_message h, λ t. t))
  handle_value-Tells (list vs) =
      Holds-bind (λ _. TypedItems vs) (Tells (list vs)) (handle_items vs) _
        (handle_items-TypedItems vs) (λ ws h. (typed_list h, λ t. t))
  handle_value-Tells (map_of es) =
      Holds-bind (λ _. TypedEntries es) (Tells (map_of es)) (handle_entries es) _
        (handle_entries-TypedEntries es) (λ gs h. (typed_map h, λ t. t))

  handle_fields-TypedLog : (fs : Fields) → Holds (λ _. TypedLog fs) (handle_fields fs)
  handle_fields-TypedLog end = typed_end
  handle_fields-TypedLog (field d v fs) =
      Holds-bind (Tells v) (λ _. TypedLog (field d v fs)) (handle_value v) _ (handle_value-Tells v)
        λ below (typed, back).
          Holds-bind (λ _. IsTyped d.sensitive below) (λ _. TypedLog (field d v fs))
            (apply_option d.sensitive below) _ (apply_option-IsTyped d.sensitive below)
            λ kept o.
              Holds-bind (λ _. TypedLog fs) (λ _. TypedLog (field d v fs)) (handle_fields fs) _
                (handle_fields-TypedLog fs)
                λ rest r. typed_field (IsTyped-of d.sensitive v below o back) typed r

  handle_items-TypedItems : (vs : Items) → Holds (λ _. TypedItems vs) (handle_items vs)
  handle_items-TypedItems nil = typed_nil
  handle_items-TypedItems (item v vs) =
      Holds-bind (Tells v) (λ _. TypedItems (item v vs)) (handle_value v) _ (handle_value-Tells v)
        λ below (typed, _).
          Holds-bind (λ _. TypedItems vs) (λ _. TypedItems (item v vs)) (handle_items vs) _
            (handle_items-TypedItems vs) λ rest r. typed_item typed r

  handle_entries-TypedEntries : (es : Entries) → Holds (λ _. TypedEntries es) (handle_entries es)
  handle_entries-TypedEntries empty = typed_empty
  handle_entries-TypedEntries (entry k v es) =
      Holds-bind (Tells v) (λ _. TypedEntries (entry k v es)) (handle_value v) _
        (handle_value-Tells v)
        λ below (typed, _).
          Holds-bind (λ _. TypedEntries es) (λ _. TypedEntries (entry k v es)) (handle_entries es) _
            (handle_entries-TypedEntries es) λ rest r. typed_entry typed r

mask_value_text : (v : Value) → IsText v → (kept : Option Value) × (mask_value v ≡ some kept)
unfolding mask_value
mask_value_text (text s) t = (_, refl)
mask_value_text v t = absurd t

apply_option_typed :
    (o : Option Sensitive) (v : Value)
    → IsTyped o v
    → (kept : Option Value) × (apply_option o v ≡ some kept)
apply_option_typed o v h = elim (Bool-cases (hides o)) [
  | inl hidden ↦ (none, apply_option_hidden o v hidden)
  | inr left ↦ elim h [
    | inl plain ↦ (some v, apply_option_kept o v left plain)
    | inr t ↦ elim (Bool-cases (masks o)) [
      | inl masked ↦ rw (apply_option_masked o v masked) (mask_value_text v t)
      | inr plain ↦ (some v, apply_option_kept o v left plain)
    ]
  ]
]

mutual
  unfolding handle_fields

  handle_value_typed :
      {v : Value} → TypedValue v → (w : Value) × (handle_value v ≡ some w) × (IsText v → IsText w)
  handle_value_typed (typed_text {s}) = (text s, refl, λ t. t)
  handle_value_typed (typed_scalar {s}) = (scalar s, refl, λ t. t)
  handle_value_typed (typed_message h) =
      let (gs, done) = handle_fields_typed h in (message gs, rw done, λ t. t)
  handle_value_typed (typed_list h) =
      let (ws, done) = handle_items_typed h in (list ws, rw done, λ t. t)
  handle_value_typed (typed_map h) =
      let (gs, done) = handle_entries_typed h in (map_of gs, rw done, λ t. t)

  handle_fields_typed : {fs : Fields} → TypedLog fs → (gs : Fields) × (handle_fields fs ≡ some gs)
  handle_fields_typed typed_end = (end, refl)
  handle_fields_typed (typed_field {d} {v} {fs} o h l) =
      let (w, done, forth) = handle_value_typed h in
      let (kept, applied) = apply_option_typed d.sensitive w (IsTyped-of d.sensitive w v o forth) in
      let (gs, rest) = handle_fields_typed l in (put d kept gs, rw (done, applied, rest))

  handle_items_typed : {vs : Items} → TypedItems vs → (ws : Items) × (handle_items vs ≡ some ws)
  handle_items_typed typed_nil = (nil, refl)
  handle_items_typed (typed_item h l) =
      let (w, done, _) = handle_value_typed h in
      let (ws, rest) = handle_items_typed l in (item w ws, rw (done, rest))

  handle_entries_typed :
      {es : Entries} → TypedEntries es → (gs : Entries) × (handle_entries es ≡ some gs)
  handle_entries_typed typed_empty = (empty, refl)
  handle_entries_typed (typed_entry {k} h l) =
      let (w, done, _) = handle_value_typed h in
      let (gs, rest) = handle_entries_typed l in (entry k w gs, rw (done, rest))

-- The redaction of a message ends without a panic exactly when, at every depth, each field that is
-- marked `mask`, and not `redact` or `pii`, is a string.
pub handle_sensitive_data_ends_iff :
    (fs : Fields) → ((gs : Fields) × (handle_sensitive_data fs ≡ some gs)) ↔ TypedLog fs
unfolding handle_sensitive_data
handle_sensitive_data_ends_iff fs =
    (λ (gs, e). rw e at (handle_fields-TypedLog fs), handle_fields_typed)
