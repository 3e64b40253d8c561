-- ===== src/Messaging/Consumer/Lifecycle.antt =====
-- A process that makes, runs and closes consumers, in any order.
use mathlib.Core.List.{Mem}
use go_svc_extn.Prelude.{◌≡◌, List, [], ◌∷◌, Bytes, ok, err}
use go_svc_extn.Messaging.{BrokerConfig, NatsJsConsumerConfig}
use go_svc_extn.Messaging.Consumer.{Trace, Nats, NatsJsConsumer, new_nats_js_consumer, cleanup, run}

-- The calls that were made, and the consumers that were returned, the latest first.
pub record Process {ℓ} (C S R H : Type ℓ) : Type ℓ where
  pub trace : Trace C S R H
  pub consumers : List (NatsJsConsumer S R × NatsJsConsumerConfig H)

module _ {ℓ} {E C S R H Init : Type ℓ} (n : Nats E C S R H Init)
    (configurator : Bytes → Bytes → Bytes → Init) where
  -- A constructor that fails, one that succeeds, and calls of a consumer that is held.
  pub data Step : Process C S R H → Process C S R H → Type ℓ where
    fails :
        (p : Process C S R H) (cfg : BrokerConfig) (sub : NatsJsConsumerConfig H)
        (t : Trace C S R H) (e : E)
        → new_nats_js_consumer n configurator sub cfg p.trace ≡ (err e, t)
        → Step p (record p { trace = t })
    makes :
        (p : Process C S R H) (cfg : BrokerConfig) (sub : NatsJsConsumerConfig H)
        (t : Trace C S R H) (c : NatsJsConsumer S R)
        → new_nats_js_consumer n configurator sub cfg p.trace ≡ (ok c, t)
        → Step p (record { trace = t; consumers = (c, sub) ∷ p.consumers })
    runs :
        (p : Process C S R H) (c : NatsJsConsumer S R) (sub : NatsJsConsumerConfig H)
        → Mem (c, sub) p.consumers
        → Step p (record p { trace = (run n c p.trace).1 })
    closes :
        (p : Process C S R H) (c : NatsJsConsumer S R) (sub : NatsJsConsumerConfig H)
        → Mem (c, sub) p.consumers
        → Step p (record p { trace = cleanup n c p.trace })

  pub data Reach : Process C S R H → Type ℓ where
    start : Reach (record { trace = []; consumers = [] })
    next : {p q : Process C S R H} → Reach p → Step p q → Reach q
