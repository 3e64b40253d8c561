-- ===== src/Messaging/Consumer/Tests.antt =====
-- A NATS server that makes numbered connections, subscribers and routers, and refuses routers on a long
-- trace: the theorems for two consumers.
use mathlib.Core.Logic.Or
use mathlib.Core.Path.{subst}
use mathlib.Core.List.{
  Mem-prop, mem-append, mem-append_left, mem-append_right, Mem, mem-cons_self, mem-cons,
  mem-cons_of_mem, not-mem-nil,
}
use go_svc_extn.Prelude.{
  ◌++◌, ℕ, ◌+◌, ◌==◌, inl, inr, All, Bool-cases, true, List, sym, arith, ◌≡◌, refl, ltb,
  if◌then◌else◌, [], ◌∷◌, Bytes, codes, ok, err, some, eq_bytes,
}
use go_svc_extn.Prelude.Int.{pos}
use go_svc_extn.Messaging.{BrokerConfig, NatsJsConsumerConfig}
use go_svc_extn.Messaging.Consumer.{
  Event, connection_closed, subscribed, Trace, Nats, NatsJsConsumer, JetStream, other,
  new_nats_js_consumer, cleanup, connect_answered, subscriber_answered, router_answered,
}
use go_svc_extn.Messaging.Consumer.Lifecycle.{Process, Reach, start, next, fails, makes, closes}
use go_svc_extn.Messaging.Consumer.Wired.{AllWired, Reach-AllWired}
use go_svc_extn.Messaging.Consumer.Leak.{unheld_stays_open}
use go_svc_extn.Messaging.Consumer.Quiet.{ClosesOwn, NoneOn}
use go_svc_extn.Messaging.Consumer.Cleanup.{ClosesConnection, IsReleased, cleanup_releases}

abbrev size : Trace ℕ ℕ ℕ ℕ → ℕ
size [] = 0
size (e ∷ t) = 1 + size t

-- The connections that a subscriber is on.
abbrev on : ℕ → Event ℕ ℕ ℕ ℕ → List ℕ
on s (subscribed c r) = if r == s then c ∷ [] else []
on s _ = []

abbrev of_subscriber : ℕ → Trace ℕ ℕ ℕ ℕ → List ℕ
of_subscriber s [] = []
of_subscriber s (e ∷ t) = on s e ++ of_subscriber s t

on-own :
    (s c : ℕ) (e : Event ℕ ℕ ℕ ℕ) (t : Trace ℕ ℕ ℕ ℕ)
    → Mem c (on s e)
    → Mem (subscribed c s) (e ∷ t)
on-own s c (subscribed d r) t m = elim (Bool-cases (r == s)) [
  | inl e ↦
      let one : Mem c (d ∷ []) = rw e at m in
      let same : r ≡ s = ground arith in
      Or.elim Mem-prop (mem-cons.0 one) (λ i. rw (i, same) mem-cons_self)
        (λ k. absurd (not-mem-nil k))
  | inr e ↦ let no : Mem c [] = rw e at m in absurd (not-mem-nil no)
]
on-own s c _ t m = absurd (not-mem-nil m)

of_subscriber-own :
    (s c : ℕ) (t : Trace ℕ ℕ ℕ ℕ) → Mem c (of_subscriber s t) → Mem (subscribed c s) t
of_subscriber-own s c [] m = absurd (not-mem-nil m)
of_subscriber-own s c (e ∷ t) m =
    Or.elim Mem-prop (mem-append.0 m) (on-own s c e t)
      (λ k. mem-cons_of_mem e (of_subscriber-own s c t k))

same_self : (s : ℕ) → (s == s) ≡ true
same_self s = ground arith

of_subscriber-all :
    (s c : ℕ) (t : Trace ℕ ℕ ℕ ℕ) → Mem (subscribed c s) t → Mem c (of_subscriber s t)
of_subscriber-all s c [] m = absurd (not-mem-nil m)
of_subscriber-all s c (e ∷ t) m =
    Or.elim Mem-prop (mem-cons.0 m)
      (λ k.
        let here : Mem c (on s (subscribed c s)) = rw (same_self s) mem-cons_self in
        mem-append_left (of_subscriber s t) (subst (λ x. Mem c (on s x)) k here))
      (λ k. mem-append_right (on s e) (of_subscriber-all s c t k))

abbrev nats : Nats ℕ ℕ ℕ ℕ ℕ (Unit {0})
nats = record {
  connect = λ a o t. ok (size t);
  new_subscriber = λ c t. ok (size t);
  new_router = λ d t. if ltb 6 (size t) then err 5 else ok (size t);
  run = λ r t. ok tt;
  closed_with_subscriber = λ s t. of_subscriber s t;
  closed_with_router = λ r t. [];
  closed_by_run = λ r t. [];
}

nats-ClosesOwn : ClosesOwn nats
nats-ClosesOwn = record {
  by_subscriber = of_subscriber-own;
  by_router = λ r c t m. absurd (not-mem-nil m);
  by_run = λ r c t m. absurd (not-mem-nil m);
}

nats-ClosesConnection : ClosesConnection nats
nats-ClosesConnection s c t m = inl (of_subscriber-all s c t m)

abbrev configurator : Bytes → Bytes → Bytes → Unit {0}
configurator a b c = tt

abbrev broker : BrokerConfig
broker = record { broker = codes "nats"; address = codes "nats://localhost:4222"; timeout = pos 0 }

abbrev orders : NatsJsConsumerConfig ℕ
orders = record {
  durable_name = codes "d";
  consumer_name = codes "c";
  stream_name = codes "ORDERS";
  subject = codes "orders.>";
  handler_name = codes "h";
  handler_func = 9;
}

abbrev consumer : NatsJsConsumer ℕ ℕ
consumer = record { subscriber = some 1; router = some 2 }

abbrev after_new : Trace ℕ ℕ ℕ ℕ
after_new = (new_nats_js_consumer nats configurator orders broker []).1

made : new_nats_js_consumer nats configurator orders broker [] ≡ (ok consumer, after_new)
unfolding new_nats_js_consumer connect_answered subscriber_answered router_answered
made = refl

abbrev after_failure : Trace ℕ ℕ ℕ ℕ
after_failure =
    (new_nats_js_consumer nats configurator orders broker (cleanup nats consumer after_new)).1

failed :
    new_nats_js_consumer nats configurator orders broker (cleanup nats consumer after_new)
    ≡ (err 5, after_failure)
unfolding new_nats_js_consumer connect_answered subscriber_answered router_answered cleanup
failed = refl

abbrev final : Process ℕ ℕ ℕ ℕ
final = record { trace = after_failure; consumers = (consumer, orders) ∷ [] }

-- One consumer is made and closed, and making another fails.
reached : Reach nats configurator final
reached =
    next
      (next (next start (makes _ broker orders after_new consumer made))
        (closes _ consumer orders mem-cons_self))
      (fails _ broker orders after_failure 5 failed)

Reach-AllWired_example : AllWired final.trace final.consumers
Reach-AllWired_example = Reach-AllWired nats configurator reached

no_consumer : NoneOn 8 final.trace final.consumers
unfolding new_nats_js_consumer connect_answered subscriber_answered router_answered cleanup
no_consumer = (
  λ s e m.
      let one : 1 ≡ s = cc in
      let only : Mem 8 (0 ∷ []) =
        of_subscriber-all 1 8 after_failure
          (subst (λ x. Mem (subscribed 8 x) after_failure) (sym one) m) in
      Or.elim (λ a b. absurd a) (mem-cons.0 only) (λ i. omega arith) not-mem-nil,
  tt,
)

-- The connection of the consumer that could not be made.
unheld_stays_open_example : ¬ Mem (connection_closed 8) final.trace
unheld_stays_open_example = unheld_stays_open nats configurator nats-ClosesOwn 8 reached no_consumer

cleanup_releases_example : All (λ x. IsReleased nats final.trace x.0) final.consumers
cleanup_releases_example = cleanup_releases nats nats-ClosesConnection configurator reached

abbrev js : JetStream ℕ ℕ ℕ
js = record {
  stream = λ name. if eq_bytes name (codes "ORDERS") then ok 1 else err (other 404);
  consumer = λ st name. ok (st + 1);
}
