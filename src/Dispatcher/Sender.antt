-- ===== src/Dispatcher/Sender.antt =====
-- internal/dispatcher/sender.go: one push. The HTTP client, the JSON encoder and the signature
-- are parameters; the faults say which calls of the database and of the broker fail, all of which
-- the source ignores.
pub mod Laws
use address_monitor.Prelude.{
  ℕ, zero, suc, ◌≡◌, Bool, true, false, ◌&&◌, Option, none, some, List, [], ◌∷◌, Text, bytes, ltb,
  leb, if◌then◌else◌, get_elem?,
}
use address_monitor.Prelude.Int.{ℤ, pos, negsuc, inc32, at_least}
use address_monitor.Events.{NormalizedEvent}
use address_monitor.Dispatcher.Task.{
  DispatchTask, HeaderValue, Delivery, Publishing, retry_count_of,
}
use address_monitor.Store.WebhookLogs.{LogTable, Status, update_status, incr_retry_count}

-- What httputil.Client.Post returns: status code, body (`none` is nil) and error text.
pub record HttpResponse : Type 0 where
  pub code : ℕ
  pub body : Option Text
  pub err : Option Text

pub record HttpRequest : Type 0 where
  pub url : Text
  pub payload : Text
  pub signature : Text
  pub event_id_header : Text

pub record SenderEnv : Type 0 where
  pub encode : NormalizedEvent → Text
  pub sign : Text → Text → Text
  pub post : HttpRequest → HttpResponse
  pub status_fails : Bool
  pub incr_fails : Bool
  pub publish_fails : Bool

-- How a handler leaves its message: acknowledged, or the process panics before that.
pub data Verdict : Type 0 where
  acked panicked : Verdict

pub record SendOutcome : Type 0 where
  pub logs : LogTable
  pub request : Option HttpRequest
  pub sent : Option (Publishing DispatchTask)
  pub verdict : Verdict

unfoldable pub is_success : HttpResponse → Bool
is_success r = elim r.err [ none ↦ leb 200 r.code && ltb r.code 300 | some _ ↦ false ]

-- string(body)
unfoldable pub response_body : HttpResponse → Text
response_body r = elim r.body [ none ↦ [] | some b ↦ b ]

-- responseBody: the body, or the error's text if there is one.
unfoldable pub response_text : HttpResponse → Text
unfolding response_body
response_text r = elim r.err [ some e ↦ e | none ↦ response_body r ]

abbrev pub routes : List Text
routes = bytes "retry.1" ∷ bytes "retry.2" ∷ bytes "retry.3" ∷ bytes "retry.4" ∷ []

-- routes[retryCount-1]; `none` is an index out of range.
unfoldable pub retry_route : ℤ → Option Text
retry_route (pos zero) = none
retry_route (pos (suc n)) = get_elem? routes n
retry_route (negsuc n) = none

unfoldable pub request_of : SenderEnv → DispatchTask → HttpRequest
request_of env task = record {
  url = task.callback_url;
  payload = env.encode task.event;
  signature = env.sign (env.encode task.event) task.secret;
  event_id_header = task.event.event_id;
}

abbrev pub unless : Bool → LogTable → LogTable → LogTable
unless fails before after = if fails then before else after

abbrev pub sent_unless : Bool → Publishing DispatchTask → Option (Publishing DispatchTask)
sent_unless fails p = if fails then none else some p

-- The status updates after a push that failed.
unfoldable pub record_failure : SenderEnv → DispatchTask → HttpResponse → LogTable → LogTable
unfolding response_text
record_failure env task r logs =
    let l =
      unless env.status_fails logs
        (update_status task.webhook_log_id Status.failed r.code (response_text r) logs) in
    unless env.incr_fails l (incr_retry_count task.webhook_log_id l)

-- The end of Handle: dead letter, retry queue, or an index out of range.
unfoldable pub requeue : SenderEnv → DispatchTask → HttpRequest → ℤ → LogTable → SendOutcome
unfolding retry_route
requeue env task req rc logs =
    if at_least 5 rc
    then record {
      logs = logs;
      request = some req;
      sent = sent_unless env.publish_fails (record {
        exchange = [];
        routing_key = bytes "dispatch.dead";
        body = task;
        retry_count = rc;
      });
      verdict = acked;
    }
    else elim (retry_route rc) [
      | none ↦ record { logs = logs; request = some req; sent = none; verdict = panicked }
      | some key ↦ record {
        logs = logs;
        request = some req;
        sent = sent_unless env.publish_fails (record {
          exchange = bytes "dlx.exchange";
          routing_key = key;
          body = task;
          retry_count = rc;
        });
        verdict = acked;
      }
    ]

-- Sender.Handle once the body is decoded.
unfoldable pub push : SenderEnv → DispatchTask → ℤ → LogTable → SendOutcome
unfolding is_success response_body request_of record_failure requeue
push env task rc logs =
    let req = request_of env task in
    let r = env.post req in
    if is_success r
    then record {
      logs =
          unless env.status_fails logs
            (update_status task.webhook_log_id Status.success r.code (response_body r) logs);
      request = some req;
      sent = none;
      verdict = acked;
    }
    else requeue env task req (inc32 rc) (record_failure env task r logs)

unfoldable pub sender_handle : SenderEnv → Delivery DispatchTask → LogTable → SendOutcome
unfolding push retry_count_of
sender_handle env msg logs = elim msg.body [
  | none ↦ record { logs = logs; request = none; sent = none; verdict = acked }
  | some task ↦ push env task (retry_count_of msg.retry_header) logs
]
