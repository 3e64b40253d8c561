-- ===== src/Messaging/Consumer/Leak.antt =====
-- The connections of `NewNatsJsConsumer` over the life of a process.
use mathlib.Core.Path.{subst}
use mathlib.Core.List.{Mem, Subset, not-mem-nil}
use go_svc_extn.Prelude.{◌≢◌, some, Bytes, All-map, ok, err}
use go_svc_extn.Messaging.Consumer.{
  Event, connection_closed, handler_added, Trace, Nats, NatsJsConsumer,
}
use go_svc_extn.Messaging.Consumer.Lifecycle.{
  Process, Step, fails, makes, runs, closes, Reach, start, next,
}
use go_svc_extn.Messaging.Consumer.Wired.{
  new_nats_js_consumer-Returned, Returned, run-grows, cleanup-grows,
}
use go_svc_extn.Messaging.Consumer.Quiet.{
  ClosesOwn, Consumers, NoneOn, Quiet, run-Quiet, cleanup-Quiet,
}
use go_svc_extn.Messaging.Consumer.Made.{IsAllowed, new-absent, not_closing}

module _ {E C S R H Init : Type 0} (n : Nats E C S R H Init)
    (configurator : Bytes → Bytes → Bytes → Init) (lawful : ClosesOwn n) where
  -- A connection on which no consumer has a subscriber later has none before.
  NoneOn-before :
      (c : C) (t u : Trace C S R H) (cs : Consumers S R H)
      → Subset t u
      → NoneOn c u cs
      → NoneOn c t cs
  NoneOn-before c t u cs grows h = All-map _ _ (λ x f s e m. f s e (grows _ m)) cs h

  earlier :
      (c : C) {p q : Process C S R H}
      → Step n configurator p q
      → NoneOn c q.trace q.consumers
      → NoneOn c p.trace p.consumers
  earlier c (fails p cfg sub t e made) h =
      NoneOn-before c p.trace t p.consumers
        (subst (Returned p.trace sub) made
          (new_nats_js_consumer-Returned n configurator sub cfg p.trace)).1
        h
  earlier c (makes p cfg sub t o made) h =
      NoneOn-before c p.trace t p.consumers
        (subst (Returned p.trace sub) made
          (new_nats_js_consumer-Returned n configurator sub cfg p.trace)).1
        h.1
  earlier c (runs p o sub m) h = NoneOn-before c p.trace _ p.consumers (run-grows n o p.trace) h
  earlier c (closes p o sub m) h =
      NoneOn-before c p.trace _ p.consumers (cleanup-grows n o p.trace) h

  not_handling :
      (s : S) (r : R) (name topic : Bytes) (h : H) (e : E) (x : Event C S R H)
      → IsAllowed {E = E} (err e) x
      → x ≢ handler_added r name topic s h
  not_handling s r name topic h e x a i = subst (IsAllowed {E = E} (err e)) i a

  handling_own :
      (o : NatsJsConsumer S R) (s : S) (r : R) (name topic : Bytes) (h : H) (x : Event C S R H)
      → o.subscriber ≢ some s
      → IsAllowed {E = E} (ok o) x
      → x ≢ handler_added r name topic s h
  handling_own o s r name topic h x other a i = other (subst (IsAllowed {E = E} (ok o)) i a)

  Step-Quiet :
      (c : C) {p q : Process C S R H}
      → Step n configurator p q
      → NoneOn c q.trace q.consumers
      → Quiet c p.trace p.consumers
      → Quiet c q.trace q.consumers
  Step-Quiet c (fails p cfg sub t e made) h (handlers, _, kept) = (
    λ r name topic s f k.
        new-absent n configurator sub cfg p.trace t (err e) (handler_added r name topic s f) made
          (not_handling s r name topic f e) (handlers r name topic s f k),
    h,
    new-absent n configurator sub cfg p.trace t (err e) (connection_closed c) made
        (not_closing n configurator sub (err e) c) kept,
  )
  Step-Quiet c (makes p cfg sub t o made) h (handlers, _, kept) = (
    λ r name topic s f k.
        new-absent n configurator sub cfg p.trace t (ok o) (handler_added r name topic s f) made
          (λ x. handling_own o s r name topic f x k.0) (handlers r name topic s f k.1),
    h,
    new-absent n configurator sub cfg p.trace t (ok o) (connection_closed c) made
        (not_closing n configurator sub (ok o) c) kept,
  )
  Step-Quiet c (runs p o sub m) h q = run-Quiet n lawful c o p.trace p.consumers q
  Step-Quiet c (closes p o sub m) h q = cleanup-Quiet n lawful c o sub p.trace p.consumers m q

  Reach-Quiet :
      (c : C) {p : Process C S R H}
      → Reach n configurator p
      → NoneOn c p.trace p.consumers
      → Quiet c p.trace p.consumers
  Reach-Quiet c start h = (λ r name topic s f k. not-mem-nil, tt, not-mem-nil)
  Reach-Quiet c (next r st) h = Step-Quiet c st h (Reach-Quiet c r (earlier c st h))

  -- However consumers are made, run and closed: a connection on which no consumer that was returned has
  -- its subscriber is never closed. A constructor that fails returns no consumer. It is assumed that
  -- Watermill closes no connections but those of the subscriber it is to close, or of the handlers of the
  -- router.
  pub unheld_stays_open :
      {p : Process C S R H} (c : C)
      → Reach n configurator p
      → NoneOn c p.trace p.consumers
      → ¬ Mem (connection_closed c) p.trace
  unheld_stays_open c r h = (Reach-Quiet c r h).2
