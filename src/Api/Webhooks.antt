-- ===== src/Api/Webhooks.antt =====
-- internal/api/service/webhook.go. The keys webhook:url:<id> of Redis are a map from the app's key.
pub mod Laws
use address_monitor.Prelude.{
  ℕ, Bool, true, false, Option, none, some, List, map, Text, bytes, to_upper, if◌then◌else◌, ◌==◌,
  [],
}
use address_monitor.Prelude.Int.{ℤ, pos}
use address_monitor.Events.{EventType}
use address_monitor.Dispatcher.Task.{DispatchTask, Publishing}
use address_monitor.Store.WebhookLogs.{WebhookLog, LogTable, Status, get_by_id, list_by_app}
use address_monitor.Api.Page.{normalize_page}
use address_monitor.Api.Result.{Result, ok, err}

pub data WebhookError : Type 0 where
  webhook_log_not_found webhook_log_forbidden redis_failed store_failed publish_failed :
      WebhookError

pub record WebhookLogResp : Type 0 where
  pub id : ℕ
  pub event_id : Text
  pub chain : Text
  pub tx_hash : Text
  pub event_type : EventType
  pub status : Status
  pub retry_count : ℕ
  pub callback_url : Text
  pub response_code : Option ℕ

unfoldable pub to_webhook_log_resp : WebhookLog → WebhookLogResp
to_webhook_log_resp log = record {
  id = log.id;
  event_id = log.event_id;
  chain = log.chain;
  tx_hash = log.tx_hash;
  event_type = log.event_type;
  status = log.status;
  retry_count = log.retry_count;
  callback_url = log.callback_url;
  response_code = log.response_code;
}

unfoldable pub set_webhook_url :
    Bool → ℕ → Text → (ℕ → Option Text) → Result WebhookError Bool × (ℕ → Option Text)
set_webhook_url fails app_id url urls =
    if fails
    then (err redis_failed, urls)
    else (ok true, λ k. if app_id == k then some url else urls k)

unfoldable pub get_webhook_url : Bool → ℕ → (ℕ → Option Text) → Text
get_webhook_url fails app_id urls = elim (if fails then none else urls app_id) [
  | none ↦ []
  | some url ↦ url
]

-- ListLogs: the page, the number of rows, and the page and size used.
unfoldable pub list_logs :
    (List WebhookLog → List WebhookLog)
    → Bool
    → ℕ
    → Text
    → Text
    → ℤ
    → ℤ
    → LogTable
    → Result WebhookError (List WebhookLogResp × ℕ × ℕ × ℕ)
unfolding normalize_page to_webhook_log_resp list_by_app
list_logs order fails app_id chain status page size t =
    let (page', size') = normalize_page page size in
    let (logs, total) = list_by_app order app_id (to_upper chain) status page' size' t in
    if fails then err store_failed else ok (map to_webhook_log_resp logs, total, page', size')

-- Resend: the message that is published, with the payload of the row.
unfoldable pub resend :
    Bool → Bool → ℕ → ℕ → LogTable → Result WebhookError (Publishing DispatchTask)
unfolding get_by_id
resend get_fails publish_fails app_id id t = elim (if get_fails then none else get_by_id id t) [
  | none ↦ err webhook_log_not_found
  | some log ↦
      if log.app_id == app_id
      then (if publish_fails
          then err publish_failed
          else ok (record {
            exchange = bytes "dispatch.exchange";
            routing_key = bytes "dispatch";
            body = log.payload;
            retry_count = pos 0;
          }))
      else err webhook_log_forbidden
]
