-- ===== src/Messaging/Publisher.antt =====
-- pkg/messaging/nats/jetstream_publisher.go: messages for topics. Watermill's publisher, the JSON form of
-- a cloud event and `idgen.NewId` are parameters.
pub mod Laws
use go_svc_extn.Prelude.{Bytes, Result, ok, err, panic}
use go_svc_extn.Messaging.{BrokerConfig, ConnectOptions, connect_options}

-- `message.NewMessage`: the id of a message and its payload.
pub record Message : Type 0 where
  pub uuid : Bytes
  pub payload : Bytes

-- A publisher of Watermill: what it does to a world, and whether it succeeds.
pub record Publisher {ℓ} (E W : Type ℓ) : Type ℓ where
  pub send : Bytes → Message → W → Result E (Unit {0}) × W
  pub close : W → W

-- `ID` and `MarshalJSON` of a cloud event.
pub record CloudEvent {ℓ} (E : Type ℓ) : Type ℓ where
  pub id : Bytes
  pub marshal_json : Result E Bytes

-- `NatsJsPublisher`
pub record NatsJsPublisher {ℓ} (E W : Type ℓ) : Type ℓ where
  pub publisher : Publisher E W

module _ {ℓ} {E W : Type ℓ} where
  -- `NewNatsJsPublisher`, with its cleanup function; a publisher connects when it is made.
  pub publisher_answered :
      Result E (Publisher E W) × W → Result E (NatsJsPublisher E W × (W → W)) × W
  publisher_answered (ok p, w) = (ok (record { publisher = p }, p.close), w)
  publisher_answered (err e, w) = (err e, w)
  publisher_answered (panic, w) = (panic, w)

  pub new_nats_js_publisher :
      (Bytes → ConnectOptions → W → Result E (Publisher E W) × W)
      → BrokerConfig
      → W
      → Result E (NatsJsPublisher E W × (W → W)) × W
  unfolding publisher_answered
  new_nats_js_publisher new_publisher cfg w =
      publisher_answered (new_publisher cfg.address connect_options w)

module _ {ℓ} {E W : Type ℓ} (n : NatsJsPublisher E W) where
  -- `PublishMessage`
  pub publish_message : Bytes → Message → W → Result E (Unit {0}) × W
  publish_message topic msg w = n.publisher.send topic msg w

  -- The rest of `PublishEvent`, by the event's JSON form.
  pub publish_marshaled : Bytes → Bytes → Result E Bytes → W → Result E (Unit {0}) × W
  publish_marshaled topic id (ok bytes) w =
      n.publisher.send topic (record { uuid = id; payload = bytes }) w
  publish_marshaled topic id (err e) w = (err e, w)
  publish_marshaled topic id panic w = (panic, w)

  -- `PublishEvent`
  pub publish_event : Bytes → CloudEvent E → W → Result E (Unit {0}) × W
  unfolding publish_marshaled
  publish_event topic event w = publish_marshaled topic event.id event.marshal_json w

  -- `Publish`
  pub publish : (W → Bytes × W) → Bytes → Bytes → W → Result E (Unit {0}) × W
  publish new_id topic bytes w =
      let (id, w') = new_id w in n.publisher.send topic (record { uuid = id; payload = bytes }) w'
