-- ===== src/Logging/Tests.antt =====
-- Runs of the redaction, and its theorems at concrete messages.
use go_svc_extn.Prelude.{
  ℕ, ◌≡◌, ◌↔◌, refl, Bool, true, false, [], Option, none, some, Bytes, codes, inl,
}
use go_svc_extn.Logging.{
  LogAction, redact, mask, obfuscate, Descriptor, text, scalar, message, list, Fields, end, field,
  nil, item, get_redact, get_mask, mask_value, apply_option, handle_sensitive_data,
}
use go_svc_extn.Logging.Redaction.{Clean, handle_sensitive_data-Clean}
use go_svc_extn.Logging.Secrecy.{
  SameLog, same_end, same_field, same_text, secret_left, masked, handle_sensitive_data-SameLog,
}
use go_svc_extn.Logging.Panics.{TypedLog, handle_sensitive_data_ends_iff}
use go_svc_extn.Logging.Middleware.{
  Arg, proto, Level, Context, server, Entry, Prints, returned, log_middleware,
}
use go_svc_extn.Logging.Middleware.Transparency.{log_middleware-SameArg}

abbrev plain : Descriptor
plain = record { name = codes "id"; sensitive = none }

abbrev option_of : LogAction → Bool → Bool → Descriptor
option_of act encrypt pii = record {
  name = codes "x";
  sensitive = some (record { log_action = some act; encrypt = encrypt; pii = pii });
}

abbrev card : Descriptor
card = option_of (mask true) false false

abbrev secret : Descriptor
secret = option_of (redact true) false false

abbrev kept : Descriptor
kept = option_of (obfuscate true) true false

abbrev payment : Bytes → Bytes → Fields
payment number pin = field plain (text (codes "7")) (
    field plain (list (item (message (field secret (text pin) end)) nil))
      (field card (text number) end))

abbrev logged : Fields
logged =
    field plain (text (codes "7"))
      (field plain (list (item (message end) nil)) (field card (text (codes "****4242")) end))

handled : handle_sensitive_data (payment (codes "12344242") (codes "99")) ≡ some logged
unfolding handle_sensitive_data apply_option mask_value
handled = refl

handle_sensitive_data-Clean_example : Clean logged
handle_sensitive_data-Clean_example =
    handle_sensitive_data-Clean (payment (codes "12344242") (codes "99")) logged handled

abbrev with_pin : Fields
with_pin = field secret (text (codes "99")) (field card (text (codes "12344242")) end)

abbrev without_pin : Fields
without_pin = field card (text (codes "99994242")) end

abbrev one_log : Fields
one_log = field card (text (codes "****4242")) end

same_logs : SameLog with_pin without_pin
unfolding get_redact get_mask
same_logs = secret_left refl (masked refl (inl refl, refl) same_end)

with_pin_logged : handle_sensitive_data with_pin ≡ some one_log
unfolding handle_sensitive_data apply_option mask_value
with_pin_logged = refl

without_pin_logged : handle_sensitive_data without_pin ≡ some one_log
unfolding handle_sensitive_data apply_option mask_value
without_pin_logged = refl

handle_sensitive_data-SameLog_example : one_log ≡ one_log
handle_sensitive_data-SameLog_example =
    handle_sensitive_data-SameLog with_pin without_pin one_log one_log same_logs with_pin_logged
      without_pin_logged

abbrev encrypted : Fields
encrypted = field kept (text (codes "iban")) end

abbrev masked_number : Fields
masked_number = field card (scalar (codes "42")) end

handle_sensitive_data_ends_iff_example :
    ((gs : Fields) × (handle_sensitive_data masked_number ≡ some gs)) ↔ TypedLog masked_number
handle_sensitive_data_ends_iff_example = handle_sensitive_data_ends_iff masked_number

abbrev prints : Prints Bytes
prints = record { of_message = λ m. codes "m"; code = λ e. 500; reason = λ e. e; of_error = λ e. e }

abbrev nowhere : Context
nowhere = record { server = none; client = none }

-- A handler that counts its calls and answers with a message.
abbrev answering : Fields → Context → Arg → ℕ → Arg × Option Bytes × ℕ
answering m ctx req calls = (proto m, none, ℕ.suc calls)

abbrev logged_entry : Entry
logged_entry = record {
  level = Level.info;
  kind = server;
  component = [];
  op = [];
  req = codes "m";
  resp = codes "m";
  code = 0;
  reason = [];
  stack = [];
}

run_with_pin :
    (log_middleware prints server (answering with_pin) nowhere (proto with_pin) 0).0
    ≡ returned (proto with_pin) none logged_entry
unfolding log_middleware handle_sensitive_data apply_option mask_value
run_with_pin = refl

run_without_pin :
    (log_middleware prints server (answering with_pin) nowhere (proto without_pin) 1).0
    ≡ returned (proto with_pin) none logged_entry
unfolding log_middleware handle_sensitive_data apply_option mask_value
run_without_pin = refl

with_itself : SameLog with_pin with_pin
with_itself = same_field same_text (same_field same_text same_end)

log_middleware-SameArg_example : logged_entry ≡ logged_entry
log_middleware-SameArg_example =
    log_middleware-SameArg prints server (answering with_pin) nowhere (proto with_pin)
      (proto without_pin) 0 1 (proto with_pin) (proto with_pin) none none logged_entry logged_entry
      same_logs with_itself refl run_with_pin run_without_pin
