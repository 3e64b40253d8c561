-- ===== src/Messaging/Publisher/Laws.antt =====
-- Which message an event becomes.
use mathlib.Core.Path.{subst}
use go_svc_extn.Prelude.{◌≡◌, refl, ◌↔◌, Bytes, Result, ok, err, panic}
use go_svc_extn.Messaging.Publisher.{
  CloudEvent, NatsJsPublisher, publish_message, publish_marshaled, publish_event,
}

module _ {ℓ} {E W : Type ℓ} (n : NatsJsPublisher E W) where
  publish_marshaled_iff :
      (topic id : Bytes) (x : Result E Bytes) (w v : W)
      → (publish_marshaled n topic id x w ≡ (ok tt, v)) ↔ (
          (bytes : Bytes) × (x ≡ ok bytes)
          × (publish_message n topic (record { uuid = id; payload = bytes }) w ≡ (ok tt, v)))
  unfolding publish_marshaled publish_message
  publish_marshaled_iff topic id (ok bytes) w v = (
    λ e. (bytes, refl, e),
    λ (d, e, f).
        let same : d ≡ bytes = cc in
        subst (λ x. publish_message n topic (record { uuid = id; payload = x }) w ≡ (ok tt, v)) same
          f,
  )
  publish_marshaled_iff topic id (err x) w v = (λ e. absurd cc, λ (d, e, f). absurd cc)
  publish_marshaled_iff topic id panic w v = (λ e. absurd cc, λ (d, e, f). absurd cc)

  -- `PublishEvent` returns nil exactly where the event has a JSON form and the publisher takes the
  -- message of the event's own id with this form as its payload, and it leaves the world as the
  -- publisher does.
  pub publish_event_iff :
      (topic : Bytes) (event : CloudEvent E) (w v : W)
      → (publish_event n topic event w ≡ (ok tt, v)) ↔ (
          (bytes : Bytes) × (event.marshal_json ≡ ok bytes)
          × (publish_message n topic (record { uuid = event.id; payload = bytes }) w ≡ (ok tt, v)))
  unfolding publish_event
  publish_event_iff topic event w v = publish_marshaled_iff topic event.id event.marshal_json w v

  -- An event without a JSON form is refused before the publisher is called.
  pub publish_event_unmarshaled :
      (topic : Bytes) (event : CloudEvent E) (w : W) (e : E)
      → event.marshal_json ≡ err e
      → publish_event n topic event w ≡ (err e, w)
  unfolding publish_event publish_marshaled
  publish_event_unmarshaled topic event w e h = rw (h, publish_marshaled) refl
