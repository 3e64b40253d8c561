-- ===== src/Messaging/Consumer/Quiet.antt =====
-- `Run` and the cleanup function: connections that are closed with a router or a subscriber.
use mathlib.Core.Logic.Or
use mathlib.Core.Path.{subst}
use mathlib.Core.List.{Mem, mem-cons, mem-cons_self, mem-cons_of_mem, not-mem-nil}
use go_svc_extn.Prelude.{
  ◌≡◌, ◌≢◌, sym, ap, ◌∙◌, Option, none, some, Option-cases, inl, inr, List, [], ◌∷◌, Bytes, All,
  All-map,
}
use go_svc_extn.Messaging.{NatsJsConsumerConfig}
use go_svc_extn.Messaging.Consumer.{
  Event, connection_closed, subscribed, subscriber_closed, router_closed, router_ran, handler_added,
  Trace, Nats, NatsJsConsumer, note_closed, close_subscriber, close_router, cleanup, run,
}

-- Nothing of which the predicate holds is `y`.
pub All-absent {ℓ κ} :
    {A : Type ℓ} (P : A → Type κ) (y : A) (xs : List A)
    → ((x : A) → P x → x ≢ y)
    → All P xs
    → ¬ Mem y xs
All-absent P y [] apart h m = not-mem-nil m
All-absent P y (x ∷ xs) apart h m =
    Or.elim (λ a b. absurd a) (mem-cons.0 m) (λ e. apart x h.0 (sym e))
      (All-absent P y xs apart h.1)

module _ {E C S R H Init : Type 0} (n : Nats E C S R H Init) where
  -- Watermill closes connections of its own: that of the subscriber, and those of the subscribers that
  -- handlers of the router have.
  pub record ClosesOwn : Type 0 where
    pub by_subscriber :
        (s : S) (c : C) (t : Trace C S R H)
        → Mem c (n.closed_with_subscriber s t)
        → Mem (subscribed c s) t
    pub by_router :
        (r : R) (c : C) (t : Trace C S R H)
        → Mem c (n.closed_with_router r t)
        → (name : Bytes) × (topic : Bytes) × (s : S) × (h : H) × Mem
            (handler_added r name topic s h)
            t
          × Mem (subscribed c s) t
    pub by_run :
        (r : R) (c : C) (t : Trace C S R H)
        → Mem c (n.closed_by_run r t)
        → (name : Bytes) × (topic : Bytes) × (s : S) × (h : H) × Mem
            (handler_added r name topic s h)
            t
          × Mem (subscribed c s) t

abbrev pub Consumers : Type 0 → Type 0 → Type 0 → Type 0
Consumers S R H = List (NatsJsConsumer S R × NatsJsConsumerConfig H)

-- No consumer has the subscriber.
abbrev NoneHas : {S R H : Type 0} → S → Consumers S R H → Type 0
NoneHas s cs = All (λ x. x.0.subscriber ≢ some s) cs

module _ {C S R H : Type 0} where
  -- No consumer has a subscriber on the connection.
  abbrev pub NoneOn : C → Trace C S R H → Consumers S R H → Type 0
  NoneOn c t cs = All (λ x. (s : S) → x.0.subscriber ≡ some s → ¬ Mem (subscribed c s) t) cs

  -- Handlers have the subscribers of consumers.
  abbrev pub HandlersHeld : Trace C S R H → Consumers S R H → Type 0
  HandlersHeld t cs =
      (r : R) (name topic : Bytes) (s : S) (h : H)
      → NoneHas s cs
      → ¬ Mem (handler_added r name topic s h) t

  abbrev pub Quiet : C → Trace C S R H → Consumers S R H → Type 0
  Quiet c t cs = HandlersHeld t cs × NoneOn c t cs × (¬ Mem (connection_closed c) t)

  mem-note_closed :
      (e : Event C S R H) (ds : List C) (t : Trace C S R H)
      → ((d : C) → Mem d ds → e ≢ connection_closed d)
      → ¬ Mem e t
      → ¬ Mem e (note_closed ds t)
  mem-note_closed e [] t apart h m = h m
  mem-note_closed e (d ∷ ds) t apart h m =
      Or.elim (λ a b. absurd a) (mem-cons.0 m) (apart d mem-cons_self)
        (mem-note_closed e ds t (λ x k. apart x (mem-cons_of_mem d k)) h)

  -- A call that is none of these.
  abbrev IsPlain : Event C S R H → Type 0
  IsPlain (connection_closed c) = ⊥
  IsPlain (subscribed c s) = ⊥
  IsPlain (handler_added r name topic s h) = ⊥
  IsPlain _ = Unit

  noted :
      (e v : Event C S R H) (ds : List C) (t : Trace C S R H)
      → ((d : C) → Mem d ds → e ≢ connection_closed d)
      → v ≢ e
      → ¬ Mem e t
      → ¬ Mem e (note_closed ds (v ∷ t))
  noted e v ds t apart other h =
      mem-note_closed e ds (v ∷ t) apart
        λ m. Or.elim (λ a b. absurd a) (mem-cons.0 m) (λ i. other (sym i)) h

  -- The noted call keeps a quiet trace quiet.
  noted-Quiet :
      (c : C) (v : Event C S R H) (ds : List C) (t : Trace C S R H) (cs : Consumers S R H)
      → IsPlain v
      → ¬ Mem c ds
      → Quiet c t cs
      → Quiet c (note_closed ds (v ∷ t)) cs
  noted-Quiet c v ds t cs plain absent (handlers, none_on, kept) = (
    λ r name topic s h k.
        noted (handler_added r name topic s h) v ds t (λ d m e. absurd cc)
          (λ e. subst IsPlain e plain) (handlers r name topic s h k),
    All-map _ _
        (λ x f s held.
          noted (subscribed c s) v ds t (λ d m e. absurd cc) (λ e. subst IsPlain e plain)
            (f s held))
        cs none_on,
    noted (connection_closed c) v ds t
        (λ d m e. let same : d ≡ c = cc in absent (subst (λ x. Mem x ds) same m))
        (λ e. subst IsPlain e plain) kept,
  )

module _ {E C S R H Init : Type 0} (n : Nats E C S R H Init) (lawful : ClosesOwn n) where
  -- A connection of which no consumer has a subscriber is not closed with a router.
  unowned :
      (c : C) (t : Trace C S R H) (cs : Consumers S R H)
      → HandlersHeld t cs
      → NoneOn c t cs
      → (r : R)
      → ¬ (
          (name : Bytes) × (topic : Bytes) × (s : S) × (h : H) × Mem
            (handler_added r name topic s h)
            t
          × Mem (subscribed c s) t)
  unowned c t cs handlers none_on r (name, topic, s, h, m, k) =
      handlers r name topic s h (All-map _ _ (λ x f e. f s e k) cs none_on) m

  close_router-Quiet :
      (c : C) (r : Option R) (t : Trace C S R H) (cs : Consumers S R H)
      → Quiet c t cs
      → Quiet c (close_router n r t) cs
  unfolding close_router
  close_router-Quiet c none t cs q = q
  close_router-Quiet c (some r) t cs q =
      noted-Quiet c (router_closed r) (n.closed_with_router r t) t cs tt
        (λ m. unowned c t cs q.0 q.1 r (lawful.by_router r c t m)) q

  close_subscriber-Quiet :
      (c : C) (o : NatsJsConsumer S R) (sub : NatsJsConsumerConfig H) (t : Trace C S R H)
      (cs : Consumers S R H)
      → Mem (o, sub) cs
      → Quiet c t cs
      → Quiet c (close_subscriber n o.subscriber t) cs
  unfolding close_subscriber
  close_subscriber-Quiet c o sub t cs m q = elim (Option-cases o.subscriber) [
    | inl e ↦ rw e q
    | inr (s, e) ↦ rw e (
        noted-Quiet c (subscriber_closed s) (n.closed_with_subscriber s t) t cs tt
          (λ k.
            All-absent _ (o, sub) cs
              (λ x f same. f s (ap (λ y. y.0.subscriber) same ∙ e) (lawful.by_subscriber s c t k))
              q.1 m)
          q)
  ]

  pub run-Quiet :
      (c : C) (o : NatsJsConsumer S R) (t : Trace C S R H) (cs : Consumers S R H)
      → Quiet c t cs
      → Quiet c (run n o t).1 cs
  unfolding run
  run-Quiet c o t cs q = elim (Option-cases o.router) [
    | inl e ↦ rw e q
    | inr (r, e) ↦ rw e (
        noted-Quiet c (router_ran r) (n.closed_by_run r t) t cs tt
          (λ m. unowned c t cs q.0 q.1 r (lawful.by_run r c t m)) q)
  ]

  pub cleanup-Quiet :
      (c : C) (o : NatsJsConsumer S R) (sub : NatsJsConsumerConfig H) (t : Trace C S R H)
      (cs : Consumers S R H)
      → Mem (o, sub) cs
      → Quiet c t cs
      → Quiet c (cleanup n o t) cs
  unfolding cleanup
  cleanup-Quiet c o sub t cs m q =
      close_router-Quiet c o.router (close_subscriber n o.subscriber t) cs
        (close_subscriber-Quiet c o sub t cs m q)
