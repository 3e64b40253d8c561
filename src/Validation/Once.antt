-- ===== src/Validation/Once.antt =====
-- The engine of a process in validate.go, over the calls of `Validator`, panics recovered between them.
use go_svc_extn.Prelude.{
  ℕ, zero, suc, ◌≡◌, refl, ap, ◌∙◌, true, Option, none, some, Bytes, Result, ok, err, panic,
}
use go_svc_extn.Validation.{Failure, Error, Request, message, opaque, validator}
use go_svc_extn.Validation.Engine.{Engines, unmade, made, started, new_validator, serve}

module _ {Engine World : Type 0} (create : World → Result Bytes Engine × World) where
  -- The process after `n` calls of `Validator`.
  abbrev pub after_calls : ℕ → Engines Engine → World → Engines Engine × World
  after_calls zero s w = (s, w)
  after_calls (suc n) s w = let (_, t, v) = new_validator create s w in after_calls n t v

  new_validator-done :
      (s : Engines Engine) (w : World) → s.done ≡ true → new_validator create s w ≡ (ok tt, s, w)
  unfolding new_validator
  new_validator-done s w e = rw e refl

  after_calls-done :
      (n : ℕ) (s : Engines Engine) (w : World) → s.done ≡ true → after_calls n s w ≡ (s, w)
  after_calls-done zero s w e = refl
  after_calls-done (suc n) s w e =
      ap (λ (o : Result Bytes (Unit {0}) × Engines Engine × World). after_calls n o.1 o.2)
        (new_validator-done s w e)
      ∙ after_calls-done n s w e

  started-rest :
      (x : Result Bytes Engine × World)
      → ◌≡◌ {A = Engines Engine × World}
          ((started x).1, (started x).2)
          (record { engine = made x.0; done = true }, x.1)
  started-rest (ok e, w) = refl
  started-rest (err x, w) = refl
  started-rest (panic, w) = refl

  started-err : (x : Result Bytes Engine × World) (t : Bytes) → x.0 ≡ err t → (started x).0 ≡ panic
  started-err (ok e, w) t h = absurd cc
  started-err (err y, w) t h = refl
  started-err (panic, w) t h = absurd cc

  -- However often `Validator` is called, the engine is constructed by the first call alone: the process
  -- then has the engine which that call made, or none where the construction failed.
  after_calls-unmade :
      (n : ℕ) (w : World)
      → after_calls (suc n) unmade w
        ≡ (record { engine = made (create w).0; done = true }, (create w).1)
  unfolding new_validator
  after_calls-unmade n w =
      ap (λ (o : Engines Engine × World). after_calls n o.0 o.1) (started-rest (create w))
      ∙ after_calls-done n (record { engine = made (create w).0; done = true }) (create w).1 refl

  module _ {Message Reply : Type 0} (quote : Bytes → Bytes)
      (validate : Engine → Message → Option Failure)
      (handler : Request Message → World → Result Error Reply × World) where
    serve-engine :
        (e : Engine) (s : Engines Engine) (req : Request Message) (v : World)
        → s.engine ≡ some e
        → serve quote validate s handler req v ≡ validator quote (validate e) handler req v
    unfolding serve validator
    serve-engine e s (opaque x) v h = refl
    serve-engine e s (message m) v h = rw h refl

    serve-nil :
        (s : Engines Engine) (m : Message) (v : World)
        → s.engine ≡ none
        → serve quote validate s handler (message m) v ≡ (panic, v)
    unfolding serve
    serve-nil s m v h = rw h refl

    left_by :
        (n : ℕ) (w : World) (r : Result Bytes Engine)
        → (create w).0 ≡ r
        → (after_calls (suc n) unmade w).0 ≡ record { engine = made r; done = true }
    left_by n w r h =
        ap (λ (o : Engines Engine × World). o.0) (after_calls-unmade n w)
        ∙ ap (λ x. record { engine = made x; done = true }) h

    -- Where the first call of `Validator` could construct an engine, every request is served by it ever
    -- after, however often `Validator` was called since.
    pub first_engine_serves :
        (n : ℕ) (w v : World) (e : Engine) (req : Request Message)
        → (create w).0 ≡ ok e
        → serve quote validate (after_calls (suc n) unmade w).0 handler req v
          ≡ validator quote (validate e) handler req v
    first_engine_serves n w v e req h =
        serve-engine e (after_calls (suc n) unmade w).0 req v
          (ap (λ (s : Engines Engine). s.engine) (left_by n w (ok e) h))

    -- Where the construction failed in the first call of `Validator`, this call panics; where the panic was
    -- recovered, every later call returns its middleware, and the middleware panics on every message, before
    -- the handler runs.
    pub no_engine_panics :
        (n : ℕ) (w v : World) (x : Bytes) (m : Message)
        → (create w).0 ≡ err x
        → ((new_validator create unmade w).0 ≡ panic)
          × (let s = (after_calls (suc n) unmade w).0 in
              (new_validator create s v ≡ (ok tt, s, v))
              × (serve quote validate s handler (message m) v ≡ (panic, v)))
    no_engine_panics n w v x m h =
        let left = left_by n w (err x) h in
        let s = (after_calls (suc n) unmade w).0 in
        (
          unfold new_validator in started-err (create w) x h,
          (
            new_validator-done s v (ap (λ (t : Engines Engine). t.done) left),
            serve-nil s m v (ap (λ (t : Engines Engine). t.engine) left),
          ),
        )
