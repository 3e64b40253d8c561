-- ===== src/Messaging/Consumer/Configurator.antt =====
-- When the configurator of a consumer succeeds, and what its error names.
use go_svc_extn.Prelude.{◌≡◌, refl, ◌↔◌, Bytes, Result, ok, err, panic}
use go_svc_extn.Messaging.Consumer.{
  Error, JetStream, consumer_found, stream_found, consumer_configurator,
}

module _ {ℓ} {X St Co : Type ℓ} (js : JetStream X St Co) (consumer_name subject : Bytes) where
  consumer_found-ok :
      (x : Result (Error X) Co) (co : Co) → consumer_found consumer_name x ≡ ok co → x ≡ ok co
  unfolding consumer_found
  consumer_found-ok (ok c) co e = e
  consumer_found-ok (err x) co e = absurd cc
  consumer_found-ok panic co e = absurd cc

  stream_found-ok :
      (x : Result (Error X) St) (co : Co)
      → stream_found js consumer_name subject x ≡ ok co
      → (st : St) × (x ≡ ok st) × (js.consumer st consumer_name ≡ ok co)
  unfolding stream_found
  stream_found-ok (ok st) co e = (st, refl, consumer_found-ok (js.consumer st consumer_name) co e)
  stream_found-ok (err x) co e = absurd cc
  stream_found-ok panic co e = absurd cc

  -- The configurator answers with a consumer exactly where the stream exists and has this consumer under
  -- the configured name, whatever topic it is called with; nothing is created.
  pub consumer_configurator_iff :
      (stream_name topic : Bytes) (co : Co)
      → (consumer_configurator consumer_name stream_name subject js topic ≡ ok co)
        ↔ ((st : St) × (js.stream stream_name ≡ ok st) × (js.consumer st consumer_name ≡ ok co))
  unfolding consumer_configurator stream_found consumer_found
  consumer_configurator_iff stream_name topic co = (
    λ e. stream_found-ok (js.stream stream_name) co e,
    λ (st, e, f). rw (e, stream_found, f, consumer_found) refl,
  )
