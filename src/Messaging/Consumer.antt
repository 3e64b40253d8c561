-- ===== src/Messaging/Consumer.antt =====
-- pkg/messaging/nats/jetstream_consumer.go: a consumer holds a subscriber and a router. NATS and Watermill
-- are parameters: they answer by all the calls that were made of them before, the latest first. Left
-- out are the entries that the consumer logs.
pub mod Lifecycle
pub mod Wired
pub mod Quiet
pub mod Made
pub mod Leak
pub mod Cleanup
pub mod Configurator
mod Tests
use go_svc_extn.Prelude.{
  ℕ, Option, none, some, List, [], ◌∷◌, ◌++◌, Bytes, codes, Result, ok, err, panic,
}
use go_svc_extn.Messaging.{BrokerConfig, NatsJsConsumerConfig, ConnectOptions, connect_options}

-- A call of NATS or Watermill that changed something: `C` are connections, `S` subscribers, `R` routers,
-- and `H` handler functions.
pub data Event {ℓ} (C S R H : Type ℓ) : Type ℓ where
  connected : C → Event C S R H
  connection_closed : C → Event C S R H
  subscribed : C → S → Event C S R H
  subscriber_closed : S → Event C S R H
  router_made router_closed router_ran : R → Event C S R H
  -- `AddMiddleware(middleware.Recoverer)`
  recoverer_added : R → Event C S R H
  -- `AddNoPublisherHandler`: the router, the handler's name, the topic, the subscriber, the function.
  handler_added : R → Bytes → Bytes → S → H → Event C S R H

abbrev pub Trace {ℓ} : Type ℓ → Type ℓ → Type ℓ → Type ℓ → Type ℓ
Trace C S R H = List (Event C S R H)

-- `jetstream.ConsumerConfig`; the policy for acknowledgements is explicit.
pub record JsConsumerConfig : Type 0 where
  pub durable : Bytes
  pub filter_subject : Bytes

-- An error of a package, or what `fmt.Errorf` wraps around it: a text, a name, `: ` and the error.
pub data Error {ℓ} (X : Type ℓ) : Type ℓ where
  other : X → Error X
  wrapped : Bytes → Bytes → Error X → Error X

-- JetStream: the streams by name, and their consumers by name.
pub record JetStream {ℓ} (X St Co : Type ℓ) : Type ℓ where
  pub stream : Bytes → Result (Error X) St
  pub consumer : St → Bytes → Result (Error X) Co

pub consumer_found {ℓ} : {X Co : Type ℓ} → Bytes → Result (Error X) Co → Result (Error X) Co
consumer_found consumer_name (ok c) = ok c
consumer_found consumer_name (err e) =
    err (wrapped (codes "failed to get consumer ") consumer_name e)
consumer_found consumer_name panic = panic

module _ {ℓ} {X St Co : Type ℓ} where
  pub stream_found : JetStream X St Co → Bytes → Bytes → Result (Error X) St → Result (Error X) Co
  unfolding consumer_found
  stream_found js consumer_name subject (ok s) =
      consumer_found consumer_name (js.consumer s consumer_name)
  stream_found js consumer_name subject (err e) =
      err (wrapped (codes "failed to get stream for topic ") subject e)
  stream_found js consumer_name subject panic = panic

  -- `consumerConfigurator`, which ignores the topic that it is called with.
  pub consumer_configurator :
      Bytes → Bytes → Bytes → JetStream X St Co → Bytes → Result (Error X) Co
  unfolding stream_found
  consumer_configurator consumer_name stream_name subject js topic =
      stream_found js consumer_name subject (js.stream stream_name)

-- `watermill_nats.SubscriberConfig`, less the logger. `Init` are the resource initializers.
pub record SubscriberConfig {ℓ} (C Init : Type ℓ) : Type ℓ where
  pub conn : C
  pub configure_consumer : Bytes → Bytes → JsConsumerConfig
  pub resource_initializer : Init

-- What it needs of NATS and of Watermill.
pub record Nats {ℓ} (E C S R H Init : Type ℓ) : Type ℓ where
  pub connect : Bytes → ConnectOptions → Trace C S R H → Result E C
  pub new_subscriber : SubscriberConfig C Init → Trace C S R H → Result E S
  -- with the close timeout, in seconds
  pub new_router : ℕ → Trace C S R H → Result E R
  pub run : R → Trace C S R H → Result E (Unit {0})
  -- The connections that are closed while a subscriber is closed, a router is, or a router runs.
  pub closed_with_subscriber : S → Trace C S R H → List C
  pub closed_with_router : R → Trace C S R H → List C
  pub closed_by_run : R → Trace C S R H → List C

-- `NatsJsConsumer`
pub record NatsJsConsumer {ℓ} (S R : Type ℓ) : Type ℓ where
  pub subscriber : Option S
  pub router : Option R

-- The configuration of a JetStream consumer, for any topic and group.
pub consumer_config {ℓ} : {H : Type ℓ} → NatsJsConsumerConfig H → Bytes → Bytes → JsConsumerConfig
consumer_config sub topic group = record {
  durable = sub.durable_name;
  filter_subject = sub.subject;
}

module _ {ℓ} {E C S R H Init : Type ℓ} (n : Nats E C S R H Init)
    (configurator : Bytes → Bytes → Bytes → Init) (sub : NatsJsConsumerConfig H) where
  pub router_answered :
      S → Result E R → Trace C S R H → Result E (NatsJsConsumer S R) × Trace C S R H
  router_answered s (ok r) t = (
    ok (record { subscriber = some s; router = some r }),
    handler_added r sub.handler_name sub.subject s sub.handler_func
        ∷ recoverer_added r
        ∷ router_made r
        ∷ t,
  )
  router_answered s (err e) t = (err e, t)
  router_answered s panic t = (panic, t)

  pub subscriber_answered :
      C → Result E S → Trace C S R H → Result E (NatsJsConsumer S R) × Trace C S R H
  unfolding router_answered
  subscriber_answered c (ok s) t =
      router_answered s (n.new_router 5 (subscribed c s ∷ t)) (subscribed c s ∷ t)
  subscriber_answered c (err e) t = (err e, t)
  subscriber_answered c panic t = (panic, t)

  pub subscriber_config : C → SubscriberConfig C Init
  unfolding consumer_config
  subscriber_config c = record {
    conn = c;
    configure_consumer = consumer_config sub;
    resource_initializer = configurator sub.consumer_name sub.stream_name sub.subject;
  }

  pub connect_answered : Result E C → Trace C S R H → Result E (NatsJsConsumer S R) × Trace C S R H
  unfolding subscriber_answered subscriber_config
  connect_answered (ok c) t =
      subscriber_answered c (n.new_subscriber (subscriber_config c) (connected c ∷ t))
        (connected c ∷ t)
  connect_answered (err e) t = (err e, t)
  connect_answered panic t = (panic, t)

  -- `NewNatsJsConsumer`, less its cleanup function.
  pub new_nats_js_consumer :
      BrokerConfig → Trace C S R H → Result E (NatsJsConsumer S R) × Trace C S R H
  unfolding connect_answered
  new_nats_js_consumer cfg t = connect_answered (n.connect cfg.address connect_options t) t

-- Connections that a package closed are noted behind the call.
abbrev pub note_closed {ℓ} : {C S R H : Type ℓ} → List C → Trace C S R H → Trace C S R H
note_closed [] t = t
note_closed (c ∷ cs) t = connection_closed c ∷ note_closed cs t

module _ {ℓ} {E C S R H Init : Type ℓ} (n : Nats E C S R H Init) where
  pub close_subscriber : Option S → Trace C S R H → Trace C S R H
  close_subscriber none t = t
  close_subscriber (some s) t = note_closed (n.closed_with_subscriber s t) (subscriber_closed s ∷ t)

  pub close_router : Option R → Trace C S R H → Trace C S R H
  close_router none t = t
  close_router (some r) t = note_closed (n.closed_with_router r t) (router_closed r ∷ t)

  -- The cleanup function of `NewNatsJsConsumer`.
  pub cleanup : NatsJsConsumer S R → Trace C S R H → Trace C S R H
  unfolding close_subscriber close_router
  cleanup c t = close_router c.router (close_subscriber c.subscriber t)

  -- `Run`; a consumer without a router panics.
  pub run : NatsJsConsumer S R → Trace C S R H → Result E (Unit {0}) × Trace C S R H
  run c t = elim c.router [
    | none ↦ (panic, t)
    | some r ↦ (n.run r t, note_closed (n.closed_by_run r t) (router_ran r ∷ t))
  ]
