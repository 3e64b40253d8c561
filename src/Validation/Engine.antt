-- ===== src/Validation/Engine.antt =====
-- The engine of validate.go: the variables `validator` and `once`, and the construction of the middleware.
use go_svc_extn.Prelude.{
  Bool, true, false, Option, none, some, Bytes, if◌then◌else◌, Result, ok, err, panic,
}
use go_svc_extn.Validation.{Failure, Error, Request, message, opaque, validator}

-- The variables of the process: `validator`, nil before it is made, and whether `once` has run.
pub record Engines {ℓ} (Engine : Type ℓ) : Type ℓ where
  pub engine : Option Engine
  pub done : Bool

-- The variables as the process starts.
abbrev pub unmade {ℓ} : {Engine : Type ℓ} → Engines Engine
unmade = record { engine = none; done = false }

-- What the construction leaves in the variable: its engine, where it made one.
abbrev pub made {ℓ} : {Engine : Type ℓ} → Result Bytes Engine → Option Engine
made (ok e) = some e
made (err x) = none
made panic = none

-- The function under `once`: an error of the constructor is a panic. `Do` counts it as done, also where
-- it panics.
abbrev pub started {ℓ κ} :
    {Engine : Type ℓ} {World : Type κ}
    → Result Bytes Engine × World
    → Result Bytes (Unit {0}) × Engines Engine × World
started (ok e, w) = (ok tt, record { engine = some e; done = true }, w)
started (err x, w) = (panic, record { engine = none; done = true }, w)
started (panic, w) = (panic, record { engine = none; done = true }, w)

-- `Validator`, with the constructor of the engine: it returns its middleware, or panics.
unfoldable pub new_validator {ℓ κ} :
    {Engine : Type ℓ} {World : Type κ}
    → (World → Result Bytes Engine × World)
    → Engines Engine
    → World
    → Result Bytes (Unit {0}) × Engines Engine × World
new_validator create s w = if s.done then (ok tt, s, w) else started (create w)

-- The middleware reads the variable when a request arrives; a method of a nil engine panics.
unfoldable pub serve :
    {Engine Message Reply World : Type 0}
    → (Bytes → Bytes)
    → (Engine → Message → Option Failure)
    → Engines Engine
    → (Request Message → World → Result Error Reply × World)
    → Request Message
    → World
    → Result Error Reply × World
unfolding validator
serve quote validate s handler (opaque x) w = handler (opaque x) w
serve quote validate s handler (message m) w = elim s.engine [
  | none ↦ (panic, w)
  | some e ↦ validator quote (validate e) handler (message m) w
]
