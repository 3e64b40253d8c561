-- ===== src/Validation/Tests.antt =====
-- An engine that finds two violations at one path, and constructors of engines.
use go_svc_extn.Prelude.{
  ℕ, suc, ◌≡◌, refl, Option, none, some, List, [], ◌∷◌, Bytes, codes, Dict, lookup, map, Result, ok,
  err, panic, ◌==◌, if◌then◌else◌,
}
use go_svc_extn.Validation.{
  FieldPathElement, index, Failure, violations, Error, validation_failed, Request, message,
  validator,
}
use go_svc_extn.Validation.Engine.{unmade, new_validator, serve}
use go_svc_extn.Validation.Once.{after_calls, first_engine_serves, no_engine_panics}
use go_svc_extn.Validation.Metadata.{whole, last_message, validator_refuses_message}

abbrev quote : Bytes → Bytes
quote s = s

abbrev path : List FieldPathElement
path =
    record { field_name = codes "items"; subscript = some (index 3) }
    ∷ record { field_name = codes "id"; subscript = none }
    ∷ []

abbrev found : List (List FieldPathElement × Bytes)
found = (path, codes "first") ∷ (path, codes "second") ∷ []

abbrev validate : ℕ → Option Failure
validate m = some (violations (map whole found))

abbrev handler : Request ℕ → ℕ → Result Error ℕ × ℕ
handler req w = (ok w, suc w)

validator_refuses_message_example :
    (meta : Dict Bytes) × (validator quote validate handler (message 1) 0
      ≡ (err (validation_failed meta), 0))
    × ((p : Bytes) → lookup p meta ≡ last_message quote p found none)
validator_refuses_message_example = validator_refuses_message quote validate handler 1 0 found refl

-- A constructor that works, and notes in the world that it ran.
abbrev create : ℕ → Result Bytes ℕ × ℕ
create w = (ok 7, suc w)

abbrev create_fails : ℕ → Result Bytes ℕ × ℕ
create_fails w = (err (codes "no engine"), w)

-- An engine refuses the message that is its own number.
abbrev validate_by : ℕ → ℕ → Option Failure
validate_by e m = if e == m then validate m else none

first_engine_serves_example :
    serve quote validate_by (after_calls create 3 unmade 0).0 handler (message 7) 4
    ≡ validator quote (validate_by 7) handler (message 7) 4
first_engine_serves_example =
    first_engine_serves create quote validate_by handler 2 0 4 7 (message 7) refl

no_engine_panics_example :
    ((new_validator create_fails unmade 0).0 ≡ panic)
    × (let s = (after_calls create_fails 3 unmade 0).0 in
        (new_validator create_fails s 4 ≡ (ok tt, s, 4))
        × (serve quote validate_by s handler (message 7) 4 ≡ (panic, 4)))
no_engine_panics_example =
    no_engine_panics create_fails quote validate_by handler 2 0 4 (codes "no engine") 7 refl
