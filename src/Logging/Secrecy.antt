-- ===== src/Logging/Secrecy.antt =====
-- The log of a message does not depend on what is secret in it, and shows the rest unchanged.
use go_svc_extn.Prelude.{◌≤◌, ◌≡◌, ◌⊎◌, refl, true, Option, none, some, Bytes, length}
use go_svc_extn.Logging.{
  Sensitive, Descriptor, Value, text, scalar, message, list, map_of, Fields, end, field, Items, nil,
  item, Entries, empty, entry, mask_string, mask_value, apply_option, ◌>>=◌, handle_value,
  handle_fields, handle_items, handle_entries, handle_sensitive_data,
}
use go_svc_extn.Logging.Mask.{shown, mask_string_secret}
use go_svc_extn.Logging.Redaction.{hides, masks, apply_option_hidden, apply_option_masked}

-- Two texts have one mask.
abbrev pub SameMask : Bytes → Bytes → Type 0
SameMask s t = ((length s ≡ length t) ⊎ ((length s ≤ 4) × (length t ≤ 4))) × (shown s ≡ shown t)

mutual
  pub data SameValue : Value → Value → Type 0 where
    same_text : {s : Bytes} → SameValue (text s) (text s)
    same_scalar : {s : Bytes} → SameValue (scalar s) (scalar s)
    same_message : {fs gs : Fields} → SameLog fs gs → SameValue (message fs) (message gs)
    same_list : {vs ws : Items} → SameItems vs ws → SameValue (list vs) (list ws)
    same_map : {es gs : Entries} → SameEntries es gs → SameValue (map_of es) (map_of gs)

  -- The messages differ only in what is secret: in fields marked `redact` or `pii`, which either may
  -- lack, and in the hidden part of texts in fields marked `mask`.
  pub data SameLog : Fields → Fields → Type 0 where
    same_end : SameLog end end
    same_field :
        {d : Descriptor} {v w : Value} {fs gs : Fields}
        → SameValue v w
        → SameLog fs gs
        → SameLog (field d v fs) (field d w gs)
    secret_left :
        {d : Descriptor} {v : Value} {fs gs : Fields}
        → hides d.sensitive ≡ true
        → SameLog fs gs
        → SameLog (field d v fs) gs
    secret_right :
        {d : Descriptor} {v : Value} {fs gs : Fields}
        → hides d.sensitive ≡ true
        → SameLog fs gs
        → SameLog fs (field d v gs)
    masked :
        {d : Descriptor} {s t : Bytes} {fs gs : Fields}
        → masks d.sensitive ≡ true
        → SameMask s t
        → SameLog fs gs
        → SameLog (field d (text s) fs) (field d (text t) gs)

  pub data SameItems : Items → Items → Type 0 where
    same_nil : SameItems nil nil
    same_item :
        {v w : Value} {vs ws : Items}
        → SameValue v w
        → SameItems vs ws
        → SameItems (item v vs) (item w ws)

  pub data SameEntries : Entries → Entries → Type 0 where
    same_empty : SameEntries empty empty
    same_entry :
        {k : Bytes} {v w : Value} {es gs : Entries}
        → SameValue v w
        → SameEntries es gs
        → SameEntries (entry k v es) (entry k w gs)

-- Two results are one, if there are two.
abbrev Both {ℓ} : {A : Type ℓ} → Option A → Option A → Type ℓ
Both {A} m n = (a b : A) → m ≡ some a → n ≡ some b → a ≡ b

module _ {ℓ κ} {A : Type ℓ} {B : Type κ} where
  Both-bind :
      (m n : Option A) (f g : A → Option B)
      → Both m n
      → ((a : A) → Both (f a) (g a))
      → Both (m >>= f) (n >>= g)
  Both-bind none n f g h k = λ x y p q. cc
  Both-bind (some a) none f g h k = λ x y p q. cc
  Both-bind (some a) (some b) f g h k =
      let same : a ≡ b = h a b refl refl in λ x y p q. k b x y (rw same at p) q

  Both-left :
      (m : Option A) (f : A → Option B) (n : Option B) → ((a : A) → Both (f a) n) → Both (m >>= f) n
  Both-left none f n k = λ x y p q. cc
  Both-left (some a) f n k = k a

  Both-right :
      (m : Option A) (f : A → Option B) (n : Option B) → ((a : A) → Both n (f a)) → Both n (m >>= f)
  Both-right none f n k = λ x y p q. cc
  Both-right (some a) f n k = k a

bind_some {ℓ} : {A : Type ℓ} (m : Option A) → (m >>= λ a. some a) ≡ m
bind_some none = refl
bind_some (some a) = refl

Both-self {ℓ} : {A : Type ℓ} (m : Option A) → Both m m
Both-self m a b p q = cc

apply_option_mask_text :
    (o : Option Sensitive) (s : Bytes)
    → masks o ≡ true
    → apply_option o (text s) ≡ some (some (text (mask_string s)))
apply_option_mask_text o s h = rw (apply_option_masked o (text s) h) (unfold mask_value in refl)

mutual
  unfolding handle_fields

  handle_value-SameValue : {v w : Value} → SameValue v w → Both (handle_value v) (handle_value w)
  handle_value-SameValue same_text = Both-self _
  handle_value-SameValue same_scalar = Both-self _
  handle_value-SameValue (same_message s) =
      Both-bind _ _ _ _ (handle_fields-SameLog s) (λ a. Both-self _)
  handle_value-SameValue (same_list s) =
      Both-bind _ _ _ _ (handle_items-SameItems s) (λ a. Both-self _)
  handle_value-SameValue (same_map s) =
      Both-bind _ _ _ _ (handle_entries-SameEntries s) (λ a. Both-self _)

  handle_fields-SameLog :
      {fs gs : Fields} → SameLog fs gs → Both (handle_fields fs) (handle_fields gs)
  handle_fields-SameLog same_end = Both-self _
  handle_fields-SameLog (same_field {d} {v} {w} {fs} {gs} s l) =
      Both-bind _ _ _ _ (handle_value-SameValue s) λ below.
        Both-bind _ _ _ _ (Both-self (apply_option d.sensitive below))
          λ kept. Both-bind _ _ _ _ (handle_fields-SameLog l) λ rest. Both-self _
  handle_fields-SameLog (secret_left {d} {v} {fs} {gs} h l) =
      Both-left (handle_value v) _ (handle_fields gs) λ below.
        rw (apply_option_hidden d.sensitive below h, bind_some (handle_fields fs))
          (handle_fields-SameLog l)
  handle_fields-SameLog (secret_right {d} {v} {fs} {gs} h l) =
      Both-right (handle_value v) _ (handle_fields fs) λ below.
        rw (apply_option_hidden d.sensitive below h, bind_some (handle_fields gs))
          (handle_fields-SameLog l)
  handle_fields-SameLog (masked {d} {s} {t} {fs} {gs} h (same, seen) l) =
      rw
        (
          apply_option_mask_text d.sensitive s h,
          apply_option_mask_text d.sensitive t h,
          mask_string_secret s t same seen,
        )
        (Both-bind _ _ _ _ (handle_fields-SameLog l) λ rest. Both-self _)

  handle_items-SameItems :
      {vs ws : Items} → SameItems vs ws → Both (handle_items vs) (handle_items ws)
  handle_items-SameItems same_nil = Both-self _
  handle_items-SameItems (same_item s l) =
      Both-bind _ _ _ _ (handle_value-SameValue s)
        λ below. Both-bind _ _ _ _ (handle_items-SameItems l) λ rest. Both-self _

  handle_entries-SameEntries :
      {es gs : Entries} → SameEntries es gs → Both (handle_entries es) (handle_entries gs)
  handle_entries-SameEntries same_empty = Both-self _
  handle_entries-SameEntries (same_entry s l) =
      Both-bind _ _ _ _ (handle_value-SameValue s)
        λ below. Both-bind _ _ _ _ (handle_entries-SameEntries l) λ rest. Both-self _

-- Of two messages that differ only in what is secret in them, the logs are equal, if both are
-- handled without a panic.
pub handle_sensitive_data-SameLog :
    (fs gs a b : Fields)
    → SameLog fs gs
    → handle_sensitive_data fs ≡ some a
    → handle_sensitive_data gs ≡ some b
    → a ≡ b
unfolding handle_sensitive_data
handle_sensitive_data-SameLog fs gs a b s p q = handle_fields-SameLog s a b p q
