-- ===== src/Messaging/Consumer/Cleanup.antt =====
-- The cleanup function of `NewNatsJsConsumer`: the connection of the consumer.
use mathlib.Core.Logic.Or
use mathlib.Core.Path.{subst}
use mathlib.Core.List.{Mem, Mem-prop, mem-cons, mem-cons_of_mem, not-mem-nil}
use go_svc_extn.Prelude.{◌≡◌, ◌⊎◌, ok, ap, some, inl, inr, List, [], ◌∷◌, Bytes, All}
use go_svc_extn.Messaging.{BrokerConfig, NatsJsConsumerConfig}
use go_svc_extn.Messaging.Consumer.{
  connected, connection_closed, subscribed, subscriber_closed, Trace, Nats, NatsJsConsumer,
  note_closed, close_subscriber, cleanup, close_router, handler_added, new_nats_js_consumer,
}
use go_svc_extn.Messaging.Consumer.Lifecycle.{Process, Reach}
use go_svc_extn.Messaging.Consumer.Wired.{
  IsWired, AllWired, Returned, new_nats_js_consumer-Returned, Reach-AllWired, note_closed-grows,
  close_router-grows,
}

module _ {ℓ} {C S R H : Type ℓ} where
  note_closed-notes :
      (c : C) (ds : List C) (t : Trace C S R H)
      → Mem c ds
      → Mem (connection_closed c) (note_closed ds t)
  note_closed-notes c [] t m = absurd (not-mem-nil m)
  note_closed-notes c (d ∷ ds) t m =
      Or.elim Mem-prop (mem-cons.0 m) (λ e. mem-cons.1 ∣ inl (ap connection_closed e) ∣₁)
        (λ k. mem-cons_of_mem _ (note_closed-notes c ds t k))

module _ {ℓ} {E C S R H Init : Type ℓ} (n : Nats E C S R H Init) where
  -- After a subscriber is closed its connection is: by this call, or before.
  abbrev pub ClosesConnection : Type ℓ
  ClosesConnection =
      (s : S) (c : C) (t : Trace C S R H)
      → Mem (subscribed c s) t
      → Mem c (n.closed_with_subscriber s t) ⊎ Mem (connection_closed c) t

  -- The consumer has a subscriber on a connection that was made, and its cleanup function leaves
  -- this connection closed.
  pub record IsReleased (t : Trace C S R H) (o : NatsJsConsumer S R) : Type ℓ where
    pub connection : C
    pub own_subscriber : S
    pub holds : o.subscriber ≡ some own_subscriber
    pub was_connected : Mem (connected connection) t
    pub was_subscribed : Mem (subscribed connection own_subscriber) t
    pub is_closed : Mem (connection_closed connection) (cleanup n o t)

  -- The cleanup function of a consumer, called at any later time, closes its subscriber first and then
  -- its router; the subscriber is on the connection that the constructor made.
  cleanup-new :
      (configurator : Bytes → Bytes → Bytes → Init) (sub : NatsJsConsumerConfig H)
      (cfg : BrokerConfig) (o : NatsJsConsumer S R) (t u v : Trace C S R H)
      → new_nats_js_consumer n configurator sub cfg t ≡ (ok o, u)
      → (connection : C) × (s : S) × (r : R) × Mem (subscribed connection s) u
        × Mem (handler_added r sub.handler_name sub.subject s sub.handler_func) u
        × (cleanup n o v ≡ close_router n (some r) (close_subscriber n (some s) v))
  unfolding cleanup
  cleanup-new configurator sub cfg o t u v made =
      let h =
        (subst (Returned t sub) made (new_nats_js_consumer-Returned n configurator sub cfg t)).0 in
      (
        h.connection,
        h.own_subscriber,
        h.own_router,
        h.was_subscribed,
        h.handles,
        rw (h.holds_subscriber, h.holds_router),
      )

  module _ (lawful : ClosesConnection) where
    close_subscriber-closes :
        (s : S) (c : C) (t : Trace C S R H)
        → Mem (subscribed c s) t
        → Mem (connection_closed c) (close_subscriber n (some s) t)
    unfolding close_subscriber
    close_subscriber-closes s c t m = elim (lawful s c t m) [
      | inl k ↦ note_closed-notes c (n.closed_with_subscriber s t) (subscriber_closed s ∷ t) k
      | inr k ↦ note_closed-grows _ _ _ (mem-cons_of_mem (subscriber_closed s) k)
    ]

    IsWired-IsReleased :
        (t : Trace C S R H) (o : NatsJsConsumer S R) (sub : NatsJsConsumerConfig H)
        → IsWired t o sub
        → IsReleased t o
    unfolding cleanup
    IsWired-IsReleased t o sub h = record {
      connection = h.connection;
      own_subscriber = h.own_subscriber;
      holds = h.holds_subscriber;
      was_connected = h.was_connected;
      was_subscribed = h.was_subscribed;
      is_closed = close_router-grows n o.router _ _ (
          rw h.holds_subscriber
            (close_subscriber-closes h.own_subscriber h.connection t h.was_subscribed));
    }

    AllWired-IsReleased :
        (t : Trace C S R H) (cs : List (NatsJsConsumer S R × NatsJsConsumerConfig H))
        → AllWired t cs
        → All (λ x. IsReleased t x.0) cs
    AllWired-IsReleased t [] h = tt
    AllWired-IsReleased t ((o, sub) ∷ cs) h =
        (IsWired-IsReleased t o sub h.0, AllWired-IsReleased t cs h.1)

    -- In every state that a process reaches by making, running and closing consumers: the cleanup
    -- function of any consumer that it was given leaves the connection closed on which the constructor put
    -- the consumer's subscriber. It is assumed that closing a subscriber closes its connection.
    pub cleanup_releases :
        (configurator : Bytes → Bytes → Bytes → Init) {p : Process C S R H}
        → Reach n configurator p
        → All (λ x. IsReleased p.trace x.0) p.consumers
    cleanup_releases configurator {p} r =
        AllWired-IsReleased p.trace p.consumers (Reach-AllWired n configurator r)
