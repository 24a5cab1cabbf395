-- ===== src/Dispatcher/Task.antt =====
-- internal/dispatcher/expander.go: the task that the expander queues for the sender, and the
-- message that a consumer is handed.
use address_monitor.Prelude.{ℕ, Text, Option}
use address_monitor.Prelude.Int.{ℤ}
use address_monitor.Events.{NormalizedEvent}

pub record DispatchTask : Type 0 where
  pub webhook_log_id : ℕ
  pub app_id : ℕ
  pub address_id : ℕ
  pub callback_url : Text
  pub secret : Text
  pub event : NormalizedEvent

-- The value under the header key x-retry-count: an int32, or of another dynamic type.
pub data HeaderValue : Type 0 where
  int32 : ℤ → HeaderValue
  other : HeaderValue

-- An amqp.Delivery: `none` is a body that json.Unmarshal refuses, and a header that is absent.
pub record Delivery (A : Type 0) : Type 0 where
  pub body : Option A
  pub retry_header : Option HeaderValue

-- A message handed to Publisher.Publish.
pub record Publishing (A : Type 0) : Type 0 where
  pub exchange : Text
  pub routing_key : Text
  pub body : A
  pub retry_count : ℤ

-- retryCount := int32(0); if v, ok := msg.Headers["x-retry-count"]; ok { if rc, ok := v.(int32) … }
unfoldable pub retry_count_of : Option HeaderValue → ℤ
retry_count_of Option.none = ℤ.pos 0
retry_count_of (Option.some (int32 rc)) = rc
retry_count_of (Option.some other) = ℤ.pos 0
