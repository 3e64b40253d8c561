-- ===== src/Messaging/Consumer/Made.antt =====
-- `NewNatsJsConsumer`: the calls that it adds to a trace.
use mathlib.Core.Logic.Or
use mathlib.Core.Path.{subst}
use mathlib.Core.List.{Mem, mem-append}
use go_svc_extn.Prelude.{◌≡◌, ◌≢◌, refl, some, [], ◌∷◌, ◌++◌, Bytes, All, Result, ok, err, panic}
use go_svc_extn.Messaging.{BrokerConfig, NatsJsConsumerConfig, connect_options}
use go_svc_extn.Messaging.Consumer.{
  Event, connected, connection_closed, subscribed, router_made, recoverer_added, handler_added,
  Trace, Nats, NatsJsConsumer, router_answered, subscriber_answered, connect_answered,
  subscriber_config, new_nats_js_consumer,
}
use go_svc_extn.Messaging.Consumer.Quiet.{All-absent}

module _ {C S R H : Type 0} where
  -- The calls of a constructor that returned this: it closes no connection, and adds a handler only
  -- with the subscriber of the consumer.
  abbrev pub IsAllowed : {E : Type 0} → Result E (NatsJsConsumer S R) → Event C S R H → Type 0
  IsAllowed r (connection_closed c) = ⊥
  IsAllowed (ok o) (handler_added r name topic s h) = o.subscriber ≡ some s
  IsAllowed r (handler_added _ name topic s h) = ⊥
  IsAllowed r _ = Unit

  abbrev Made :
      {E : Type 0} → Trace C S R H → Result E (NatsJsConsumer S R) × Trace C S R H → Type 0
  Made t o = (es : Trace C S R H) × (o.1 ≡ es ++ t) × All (IsAllowed o.0) es

module _ {E C S R H Init : Type 0} (n : Nats E C S R H Init)
    (configurator : Bytes → Bytes → Bytes → Init) (sub : NatsJsConsumerConfig H) where
  router_answered-Made :
      (c : C) (s : S) (x : Result E R) (t : Trace C S R H)
      → Made t (router_answered n configurator sub s x (subscribed c s ∷ connected c ∷ t))
  unfolding router_answered
  router_answered-Made c s (ok r) t = (
    handler_added r sub.handler_name sub.subject s sub.handler_func
        ∷ recoverer_added r
        ∷ router_made r
        ∷ subscribed c s
        ∷ connected c
        ∷ [],
    refl,
    (refl, (tt, (tt, (tt, (tt, tt))))),
  )
  router_answered-Made c s (err e) t = (subscribed c s ∷ connected c ∷ [], refl, (tt, (tt, tt)))
  router_answered-Made c s panic t = (subscribed c s ∷ connected c ∷ [], refl, (tt, (tt, tt)))

  subscriber_answered-Made :
      (c : C) (x : Result E S) (t : Trace C S R H)
      → Made t (subscriber_answered n configurator sub c x (connected c ∷ t))
  unfolding subscriber_answered
  subscriber_answered-Made c (ok s) t =
      router_answered-Made c s (n.new_router 5 (subscribed c s ∷ connected c ∷ t)) t
  subscriber_answered-Made c (err e) t = (connected c ∷ [], refl, (tt, tt))
  subscriber_answered-Made c panic t = (connected c ∷ [], refl, (tt, tt))

  connect_answered-Made :
      (x : Result E C) (t : Trace C S R H) → Made t (connect_answered n configurator sub x t)
  unfolding connect_answered
  connect_answered-Made (ok c) t =
      subscriber_answered-Made c
        (n.new_subscriber (subscriber_config n configurator sub c) (connected c ∷ t)) t
  connect_answered-Made (err e) t = ([], refl, tt)
  connect_answered-Made panic t = ([], refl, tt)

  new_nats_js_consumer-Made :
      (cfg : BrokerConfig) (t : Trace C S R H)
      → Made t (new_nats_js_consumer n configurator sub cfg t)
  unfolding new_nats_js_consumer
  new_nats_js_consumer-Made cfg t =
      connect_answered-Made (n.connect cfg.address connect_options t) t

  -- A call of the constructor that is not among its own is one before.
  pub new-absent :
      (cfg : BrokerConfig) (t u : Trace C S R H) (r : Result E (NatsJsConsumer S R))
      (e : Event C S R H)
      → new_nats_js_consumer n configurator sub cfg t ≡ (r, u)
      → ((x : Event C S R H) → IsAllowed r x → x ≢ e)
      → ¬ Mem e t
      → ¬ Mem e u
  new-absent cfg t u r e made apart h m =
      let (es, split, allowed) = subst (Made t) made (new_nats_js_consumer-Made cfg t) in
      Or.elim (λ a b. absurd a) (mem-append.0 (subst (Mem e) split m))
        (All-absent (IsAllowed r) e es apart allowed) h

  pub not_closing :
      (r : Result E (NatsJsConsumer S R)) (c : C) (x : Event C S R H)
      → IsAllowed r x
      → x ≢ connection_closed c
  not_closing r c x a e = subst (IsAllowed r) e a
