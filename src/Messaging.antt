-- ===== src/Messaging.antt =====
-- pkg/messaging: the configurations that the consumer and the publisher share. Child modules are about
-- the logger of Watermill, and the consumer and the publisher for NATS.
pub mod LogAdapter
pub mod Consumer
pub mod Publisher
use go_svc_extn.Prelude.{ℕ, Bool, true, Bytes}
use go_svc_extn.Prelude.Int.{ℤ}

-- `time.Duration` is in nanoseconds.
pub record BrokerConfig : Type 0 where
  pub broker : Bytes
  pub address : Bytes
  pub timeout : ℤ

-- `NatsJsConsumerConfig`; `H` is the type of the handler's function.
pub record NatsJsConsumerConfig {ℓ} (H : Type ℓ) : Type ℓ where
  pub durable_name : Bytes
  pub consumer_name : Bytes
  pub stream_name : Bytes
  pub subject : Bytes
  pub handler_name : Bytes
  pub handler_func : H

-- The options of a connection to NATS, in seconds.
pub record ConnectOptions : Type 0 where
  pub retry_on_failed_connect : Bool
  pub timeout : ℕ
  pub reconnect_wait : ℕ

-- The options of the consumer and of the publisher.
pub connect_options : ConnectOptions
connect_options = record { retry_on_failed_connect = true; timeout = 30; reconnect_wait = 1 }
