-- ===== src/Logging/Untouched.antt =====
-- Messages in which nothing is to be hidden or masked.
use go_svc_extn.Prelude.{◌≡◌, refl, false, some, Bytes}
use go_svc_extn.Logging.{
  Descriptor, Value, text, scalar, message, list, map_of, Fields, end, field, Items, nil, item,
  Entries, empty, entry, handle_value, handle_fields, handle_items, handle_entries,
  handle_sensitive_data,
}
use go_svc_extn.Logging.Redaction.{hides, masks, apply_option_kept}

-- Messages without a field to hide or to mask, at any depth.
mutual
  pub data OpenValue : Value → Type 0 where
    open_text : {s : Bytes} → OpenValue (text s)
    open_scalar : {s : Bytes} → OpenValue (scalar s)
    open_message : {fs : Fields} → OpenLog fs → OpenValue (message fs)
    open_list : {vs : Items} → OpenItems vs → OpenValue (list vs)
    open_map : {es : Entries} → OpenEntries es → OpenValue (map_of es)

  pub data OpenLog : Fields → Type 0 where
    open_end : OpenLog end
    open_field :
        {d : Descriptor} {v : Value} {fs : Fields}
        → hides d.sensitive ≡ false
        → masks d.sensitive ≡ false
        → OpenValue v
        → OpenLog fs
        → OpenLog (field d v fs)

  pub data OpenItems : Items → Type 0 where
    open_nil : OpenItems nil
    open_item : {v : Value} {vs : Items} → OpenValue v → OpenItems vs → OpenItems (item v vs)

  pub data OpenEntries : Entries → Type 0 where
    open_empty : OpenEntries empty
    open_entry :
        {k : Bytes} {v : Value} {es : Entries}
        → OpenValue v
        → OpenEntries es
        → OpenEntries (entry k v es)

mutual
  unfolding handle_fields

  handle_value_open : {v : Value} → OpenValue v → handle_value v ≡ some v
  handle_value_open open_text = refl
  handle_value_open open_scalar = refl
  handle_value_open (open_message o) = rw (handle_fields_open o)
  handle_value_open (open_list o) = rw (handle_items_open o)
  handle_value_open (open_map o) = rw (handle_entries_open o)

  handle_fields_open : {fs : Fields} → OpenLog fs → handle_fields fs ≡ some fs
  handle_fields_open open_end = refl
  handle_fields_open (open_field {d} {v} {fs} h k o p) =
      rw (handle_value_open o, apply_option_kept d.sensitive v h k, handle_fields_open p)

  handle_items_open : {vs : Items} → OpenItems vs → handle_items vs ≡ some vs
  handle_items_open open_nil = refl
  handle_items_open (open_item o p) = rw (handle_value_open o, handle_items_open p)

  handle_entries_open : {es : Entries} → OpenEntries es → handle_entries es ≡ some es
  handle_entries_open open_empty = refl
  handle_entries_open (open_entry o p) = rw (handle_value_open o, handle_entries_open p)

-- A message in which no field, at any depth, is marked `redact`, `pii` or `mask` is logged as it is;
-- the options `obfuscate` and `encrypt` change nothing.
pub handle_sensitive_data_open : (fs : Fields) → OpenLog fs → handle_sensitive_data fs ≡ some fs
unfolding handle_sensitive_data
handle_sensitive_data_open fs o = handle_fields_open o
