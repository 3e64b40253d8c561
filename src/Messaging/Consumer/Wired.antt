-- ===== src/Messaging/Consumer/Wired.antt =====
-- `NewNatsJsConsumer`, `Run` and the cleanup function: what the consumers of a process hold.
use mathlib.Core.List.{Mem, Subset, mem-cons_self, mem-cons_of_mem}
use mathlib.Core.Path.{subst}
use go_svc_extn.Prelude.{
  ◌≡◌, refl, Option, none, some, Option-cases, inl, inr, List, [], ◌∷◌, Bytes, Result, ok, err,
  panic,
}
use go_svc_extn.Messaging.{BrokerConfig, NatsJsConsumerConfig, connect_options}
use go_svc_extn.Messaging.Consumer.{
  connected, connection_closed, router_ran, note_closed, subscribed, subscriber_closed, router_made,
  router_closed, recoverer_added, handler_added, Trace, Nats, NatsJsConsumer, router_answered,
  subscriber_answered, connect_answered, subscriber_config, close_subscriber, close_router,
  new_nats_js_consumer, cleanup, run,
}
use go_svc_extn.Messaging.Consumer.Lifecycle.{
  Process, Step, fails, makes, runs, closes, Reach, start, next,
}

module _ {ℓ} {C S R H : Type ℓ} where
  -- A consumer of this configuration was wired in this trace: its subscriber on a connection that was
  -- made, its router with the recoverer and with the handler, under its name, for the subject.
  pub record IsWired (t : Trace C S R H) (c : NatsJsConsumer S R) (sub : NatsJsConsumerConfig H)
      : Type ℓ where
    pub connection : C
    pub own_subscriber : S
    pub own_router : R
    pub holds_subscriber : c.subscriber ≡ some own_subscriber
    pub holds_router : c.router ≡ some own_router
    pub was_connected : Mem (connected connection) t
    pub was_subscribed : Mem (subscribed connection own_subscriber) t
    pub was_made : Mem (router_made own_router) t
    pub recovers : Mem (recoverer_added own_router) t
    pub handles :
        Mem
          (handler_added own_router sub.handler_name sub.subject own_subscriber sub.handler_func)
          t

  abbrev pub AllWired : Trace C S R H → List (NatsJsConsumer S R × NatsJsConsumerConfig H) → Type ℓ
  AllWired t [] = Unit
  AllWired t ((c, sub) ∷ cs) = IsWired t c sub × AllWired t cs

  -- Wired in a trace, wired in every longer one.
  IsWired-grows :
      (t u : Trace C S R H) (c : NatsJsConsumer S R) (sub : NatsJsConsumerConfig H)
      → Subset t u
      → IsWired t c sub
      → IsWired u c sub
  IsWired-grows t u c sub g h = record {
    connection = h.connection;
    own_subscriber = h.own_subscriber;
    own_router = h.own_router;
    holds_subscriber = h.holds_subscriber;
    holds_router = h.holds_router;
    was_connected = g _ h.was_connected;
    was_subscribed = g _ h.was_subscribed;
    was_made = g _ h.was_made;
    recovers = g _ h.recovers;
    handles = g _ h.handles;
  }

  AllWired-grows :
      (t u : Trace C S R H) (cs : List (NatsJsConsumer S R × NatsJsConsumerConfig H))
      → Subset t u
      → AllWired t cs
      → AllWired u cs
  AllWired-grows t u [] g h = h
  AllWired-grows t u ((c, sub) ∷ cs) g h =
      (IsWired-grows t u c sub g h.0, AllWired-grows t u cs g h.1)

  pub note_closed-grows : (cs : List C) (t : Trace C S R H) → Subset t (note_closed cs t)
  note_closed-grows [] t e m = m
  note_closed-grows (c ∷ cs) t e m =
      mem-cons_of_mem (connection_closed c) (note_closed-grows cs t e m)

  -- What a constructor returned: a wired consumer, or none; and its trace is longer.
  abbrev pub WiredResult {κ} :
      {E : Type κ} → Trace C S R H → NatsJsConsumerConfig H → Result E (NatsJsConsumer S R) → Type ℓ
  WiredResult t sub (ok c) = IsWired t c sub
  WiredResult t sub (err e) = Unit {ℓ}
  WiredResult t sub panic = Unit {ℓ}

  abbrev pub Returned {κ} :
      {E : Type κ}
      → Trace C S R H
      → NatsJsConsumerConfig H
      → Result E (NatsJsConsumer S R) × Trace C S R H
      → Type ℓ
  Returned t sub o = WiredResult o.1 sub o.0 × Subset t o.1

  after_calls : (t u v : Trace C S R H) → Subset t u → Subset u v → Subset t v
  after_calls t u v g h e m = h e (g e m)

module _ {ℓ} {E C S R H Init : Type ℓ} (n : Nats E C S R H Init)
    (configurator : Bytes → Bytes → Bytes → Init) (sub : NatsJsConsumerConfig H) where
  router_answered-Returned :
      (c : C) (s : S) (x : Result E R) (t : Trace C S R H)
      → Mem (connected c) t
      → Mem (subscribed c s) t
      → Returned t sub (router_answered n configurator sub s x t)
  unfolding router_answered
  router_answered-Returned c s (ok r) t i j =
      let later : Subset t (
          handler_added r sub.handler_name sub.subject s sub.handler_func
          ∷ recoverer_added r
          ∷ router_made r
          ∷ t) =
        λ e m. mem-cons_of_mem _ (mem-cons_of_mem _ (mem-cons_of_mem _ m)) in
      (
        record {
          connection = c;
          own_subscriber = s;
          own_router = r;
          holds_subscriber = refl;
          holds_router = refl;
          was_connected = later (connected c) i;
          was_subscribed = later (subscribed c s) j;
          was_made = mem-cons_of_mem _ (mem-cons_of_mem _ mem-cons_self);
          recovers = mem-cons_of_mem _ mem-cons_self;
          handles = mem-cons_self;
        },
        later,
      )
  router_answered-Returned c s (err e) t i j = (tt, λ e m. m)
  router_answered-Returned c s panic t i j = (tt, λ e m. m)

  subscriber_answered-Returned :
      (c : C) (x : Result E S) (t : Trace C S R H)
      → Mem (connected c) t
      → Returned t sub (subscriber_answered n configurator sub c x t)
  unfolding subscriber_answered
  subscriber_answered-Returned c (ok s) t i =
      let u : Trace C S R H = subscribed c s ∷ t in
      let o =
        router_answered-Returned c s (n.new_router 5 u) u (mem-cons_of_mem _ i) mem-cons_self in
      (o.0, after_calls t u _ (λ e m. mem-cons_of_mem _ m) o.1)
  subscriber_answered-Returned c (err e) t i = (tt, λ e m. m)
  subscriber_answered-Returned c panic t i = (tt, λ e m. m)

  connect_answered-Returned :
      (x : Result E C) (t : Trace C S R H)
      → Returned t sub (connect_answered n configurator sub x t)
  unfolding connect_answered
  connect_answered-Returned (ok c) t =
      let u : Trace C S R H = connected c ∷ t in
      let o =
        subscriber_answered-Returned c (n.new_subscriber (subscriber_config n configurator sub c) u)
          u mem-cons_self in
      (o.0, after_calls t u _ (λ e m. mem-cons_of_mem _ m) o.1)
  connect_answered-Returned (err e) t = (tt, λ e m. m)
  connect_answered-Returned panic t = (tt, λ e m. m)

  pub new_nats_js_consumer-Returned :
      (cfg : BrokerConfig) (t : Trace C S R H)
      → Returned t sub (new_nats_js_consumer n configurator sub cfg t)
  unfolding new_nats_js_consumer
  new_nats_js_consumer-Returned cfg t =
      connect_answered-Returned (n.connect cfg.address connect_options t) t

module _ {ℓ} {E C S R H Init : Type ℓ} (n : Nats E C S R H Init) where
  pub run-grows : (c : NatsJsConsumer S R) (t : Trace C S R H) → Subset t (run n c t).1
  unfolding run
  run-grows c t = elim (Option-cases c.router) [
    | inl e ↦ rw e (λ x m. m)
    | inr (r, e) ↦ rw e (λ x m. note_closed-grows _ _ x (mem-cons_of_mem (router_ran r) m))
  ]

  pub close_router-grows : (r : Option R) (t : Trace C S R H) → Subset t (close_router n r t)
  unfolding close_router
  close_router-grows none t e m = m
  close_router-grows (some r) t e m = note_closed-grows _ _ e (mem-cons_of_mem (router_closed r) m)

  close_subscriber-grows : (s : Option S) (t : Trace C S R H) → Subset t (close_subscriber n s t)
  unfolding close_subscriber
  close_subscriber-grows none t e m = m
  close_subscriber-grows (some s) t e m =
      note_closed-grows _ _ e (mem-cons_of_mem (subscriber_closed s) m)

  pub cleanup-grows : (c : NatsJsConsumer S R) (t : Trace C S R H) → Subset t (cleanup n c t)
  unfolding cleanup
  cleanup-grows c t e m =
      close_router-grows c.router (close_subscriber n c.subscriber t) e
        (close_subscriber-grows c.subscriber t e m)

module _ {ℓ} {E C S R H Init : Type ℓ} (n : Nats E C S R H Init)
    (configurator : Bytes → Bytes → Bytes → Init) where
  Step-AllWired :
      {p q : Process C S R H}
      → Step n configurator p q
      → AllWired p.trace p.consumers
      → AllWired q.trace q.consumers
  Step-AllWired (fails p cfg sub t e made) h =
      AllWired-grows p.trace t p.consumers
        (subst (Returned p.trace sub) made
          (new_nats_js_consumer-Returned n configurator sub cfg p.trace)).1
        h
  Step-AllWired (makes p cfg sub t c made) h =
      let o =
        subst (Returned p.trace sub) made
          (new_nats_js_consumer-Returned n configurator sub cfg p.trace) in
      (o.0, AllWired-grows p.trace t p.consumers o.1 h)
  Step-AllWired (runs p c sub m) h = AllWired-grows p.trace _ p.consumers (run-grows n c p.trace) h
  Step-AllWired (closes p c sub m) h =
      AllWired-grows p.trace _ p.consumers (cleanup-grows n c p.trace) h

  -- In every state that a process reaches by making, running and closing consumers, some with success
  -- and some without, every consumer that it was given holds a subscriber on a connection that was made,
  -- and a router with the recoverer and with its handler, under its name, for its subject.
  pub Reach-AllWired : {p : Process C S R H} → Reach n configurator p → AllWired p.trace p.consumers
  Reach-AllWired start = tt
  Reach-AllWired (next r st) = Step-AllWired st (Reach-AllWired r)
