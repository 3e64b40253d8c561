-- ===== src/Logging/Redaction.antt =====
-- What is left in a message that was handled.
use go_svc_extn.Prelude.{
  ◌≡◌, inl, inr, refl, Bool, true, false, ◌||◌, ◌&&◌, not, Option, none, some, Bytes, arith,
  Bool-cases,
}
use go_svc_extn.Logging.{
  Sensitive, get_redact, get_mask, Descriptor, Value, text, scalar, message, list, map_of, Fields,
  end, field, Items, nil, item, Entries, empty, entry, mask_string, mask_value, apply_option, put,
  ◌>>=◌, handle_value, handle_fields, handle_items, handle_entries, handle_sensitive_data,
}

-- The options that hide a field, and that mask it.
abbrev pub hides : Option Sensitive → Bool
hides none = false
hides (some s) = get_redact s.log_action || s.pii

abbrev pub masks : Option Sensitive → Bool
masks none = false
masks (some s) = not (hides (some s)) && get_mask s.log_action

-- The value is a masked text.
abbrev IsMasked : Value → Type 0
IsMasked (text t) = (s : Bytes) × (t ≡ mask_string s)
IsMasked _ = ⊥

-- What a handled message may hold of a field.
abbrev IsAllowed : Option Sensitive → Value → Type 0
IsAllowed o v = (hides o ≡ false) × (masks o ≡ true → IsMasked v)

mutual
  pub data CleanValue : Value → Type 0 where
    a_text : {s : Bytes} → CleanValue (text s)
    a_scalar : {s : Bytes} → CleanValue (scalar s)
    a_message : {fs : Fields} → Clean fs → CleanValue (message fs)
    a_list : {vs : Items} → CleanItems vs → CleanValue (list vs)
    a_map : {es : Entries} → CleanEntries es → CleanValue (map_of es)

  -- At every depth no field that is to be hidden is populated, and every field that is to be masked
  -- holds a masked text.
  pub data Clean : Fields → Type 0 where
    at_end : Clean end
    at_field :
        {d : Descriptor} {v : Value} {fs : Fields}
        → IsAllowed d.sensitive v
        → CleanValue v
        → Clean fs
        → Clean (field d v fs)

  pub data CleanItems : Items → Type 0 where
    at_nil : CleanItems nil
    at_item : {v : Value} {vs : Items} → CleanValue v → CleanItems vs → CleanItems (item v vs)

  pub data CleanEntries : Entries → Type 0 where
    at_empty : CleanEntries empty
    at_entry :
        {k : Bytes} {v : Value} {es : Entries}
        → CleanValue v
        → CleanEntries es
        → CleanEntries (entry k v es)

-- An option leaves of a clean value one that is clean and allowed, or nothing.
abbrev Leaves : Option Sensitive → Option Value → Type 0
Leaves o none = Unit
Leaves o (some v) = IsAllowed o v × CleanValue v

-- What a result satisfies, if there is one.
abbrev pub Holds {ℓ κ} : {A : Type ℓ} → (A → Type κ) → Option A → Type κ
Holds P none = Unit
Holds P (some a) = P a

pub Holds-bind {ℓ κ μ ν} :
    {A : Type ℓ} {B : Type κ} (P : A → Type μ) (Q : B → Type ν) (m : Option A) (f : A → Option B)
    → Holds P m
    → ((a : A) → P a → Holds Q (f a))
    → Holds Q (m >>= f)
Holds-bind P Q none f h k = tt
Holds-bind P Q (some a) f h k = k a h

pub Holds-map {ℓ κ μ} :
    {A : Type ℓ} (P : A → Type κ) (Q : A → Type μ) (m : Option A)
    → Holds P m
    → ((a : A) → P a → Holds Q (some a))
    → Holds Q m
Holds-map P Q none h k = tt
Holds-map P Q (some a) h k = k a h

-- The option's three effects.
pub apply_option_hidden :
    (o : Option Sensitive) (v : Value) → hides o ≡ true → apply_option o v ≡ some none
unfolding apply_option
apply_option_hidden none v h = cc
apply_option_hidden (some s) v h = rw (h, apply_option)

pub apply_option_masked :
    (o : Option Sensitive) (v : Value) → masks o ≡ true → apply_option o v ≡ mask_value v
unfolding apply_option
apply_option_masked none v h = cc
apply_option_masked (some s) v h = ground arith

pub apply_option_kept :
    (o : Option Sensitive) (v : Value)
    → hides o ≡ false
    → masks o ≡ false
    → apply_option o v ≡ some (some v)
unfolding apply_option
apply_option_kept none v h k = refl
apply_option_kept (some s) v h k = ground arith

masks_not_hides : (o : Option Sensitive) → masks o ≡ true → hides o ≡ false
masks_not_hides none h = cc
masks_not_hides (some s) h = ground arith

mask_value-Leaves :
    (o : Option Sensitive) (v : Value) → hides o ≡ false → Holds (Leaves o) (mask_value v)
unfolding mask_value
mask_value-Leaves o (text s) h = ((h, λ _. (s, refl)), a_text)
mask_value-Leaves o v h = tt

apply_option-Leaves :
    (o : Option Sensitive) (v : Value) → CleanValue v → Holds (Leaves o) (apply_option o v)
apply_option-Leaves o v c = elim (Bool-cases (hides o)) [
  | inl hidden ↦ rw (apply_option_hidden o v hidden) tt
  | inr left ↦ elim (Bool-cases (masks o)) [
    | inl masked ↦ rw (apply_option_masked o v masked) (mask_value-Leaves o v left)
    | inr plain ↦ rw (apply_option_kept o v left plain) ((left, λ m. absurd (cc)), c)
  ]
]

put-Clean :
    (d : Descriptor) (kept : Option Value) (fs : Fields)
    → Leaves d.sensitive kept
    → Clean fs
    → Clean (put d kept fs)
put-Clean d none fs _ c = c
put-Clean d (some v) fs (allowed, clean) c = at_field allowed clean c

mutual
  unfolding handle_fields

  handle_value-Clean : (v : Value) → Holds CleanValue (handle_value v)
  handle_value-Clean (text s) = a_text
  handle_value-Clean (scalar s) = a_scalar
  handle_value-Clean (message fs) =
      Holds-bind Clean CleanValue (handle_fields fs) _ (handle_fields-Clean fs)
        (λ gs c. a_message c)
  handle_value-Clean (list vs) =
      Holds-bind CleanItems CleanValue (handle_items vs) _ (handle_items-Clean vs)
        (λ ws c. a_list c)
  handle_value-Clean (map_of es) =
      Holds-bind CleanEntries CleanValue (handle_entries es) _ (handle_entries-Clean es)
        (λ gs c. a_map c)

  handle_fields-Clean : (fs : Fields) → Holds Clean (handle_fields fs)
  handle_fields-Clean end = at_end
  handle_fields-Clean (field d v fs) =
      Holds-bind CleanValue Clean (handle_value v) _ (handle_value-Clean v) λ below c.
        Holds-bind (Leaves d.sensitive) Clean (apply_option d.sensitive below) _
          (apply_option-Leaves d.sensitive below c)
          λ kept l.
            Holds-bind Clean Clean (handle_fields fs) _ (handle_fields-Clean fs)
              λ rest r. put-Clean d kept rest l r

  handle_items-Clean : (vs : Items) → Holds CleanItems (handle_items vs)
  handle_items-Clean nil = at_nil
  handle_items-Clean (item v vs) =
      Holds-bind CleanValue CleanItems (handle_value v) _ (handle_value-Clean v) λ below c.
        Holds-bind CleanItems CleanItems (handle_items vs) _ (handle_items-Clean vs)
          λ ws cs. at_item c cs

  handle_entries-Clean : (es : Entries) → Holds CleanEntries (handle_entries es)
  handle_entries-Clean empty = at_empty
  handle_entries-Clean (entry k v es) =
      Holds-bind CleanValue CleanEntries (handle_value v) _ (handle_value-Clean v) λ below c.
        Holds-bind CleanEntries CleanEntries (handle_entries es) _ (handle_entries-Clean es)
          λ gs cs. at_entry c cs

-- In every message that was handled, at every depth, below lists and maps too, no field marked
-- `redact` or `pii` is populated, and every other field marked `mask` holds a masked text.
pub handle_sensitive_data-Clean : (fs gs : Fields) → handle_sensitive_data fs ≡ some gs → Clean gs
unfolding handle_sensitive_data
handle_sensitive_data-Clean fs gs e = rw e at (handle_fields-Clean fs)
