-- ===== src/Api/Webhooks/Laws.antt =====
-- What a resent task does in the sender.
use address_monitor.Prelude.{
  ℕ, ◌≡◌, ◌∙◌, refl, Bool, true, false, some, Option-cases, inl, inr, List, [], ◌∷◌, Text, bytes,
  ◌==◌, any, Bool-cases, arith,
}
use address_monitor.Prelude.Int.{ℤ, pos, at_least, inc32}
use address_monitor.Dispatcher.Task.{DispatchTask, Delivery, Publishing, int32}
use address_monitor.Dispatcher.Sender.{
  SenderEnv, HttpRequest, HttpResponse, sender_handle, push, requeue, record_failure, is_success,
  request_of, response_text, response_body, unless, retry_route,
}
use address_monitor.Events.{NormalizedEvent}
use address_monitor.Store.WatchedAddresses.{WatchedAddress}
use address_monitor.Dispatcher.Expander.{AppInfo, log_of, task_of}
use address_monitor.Store.WebhookLogs.{
  WebhookLog, LogTable, Status, update_where, update_status, incr_retry_count, get_by_id,
  set_response, add_retry,
}
use address_monitor.Api.Result.{ok}
use address_monitor.Api.Webhooks.{resend}

update_where_missing :
    (id : ℕ) (f : WebhookLog → WebhookLog) (rows : List WebhookLog)
    → any (λ r. r.id == id) rows ≡ false
    → update_where id f rows ≡ rows
unfolding update_where
update_where_missing id f [] h = refl
update_where_missing id f (r ∷ rs) h = ground (arith, update_where_missing id f rs)

unless_same : (b : Bool) (t t' : LogTable) → t' ≡ t → unless b t t' ≡ t
unless_same true t t' h = refl
unless_same false t t' h = h

update_status_missing :
    (id code : ℕ) (s : Status) (body : Text) (t : LogTable)
    → any (λ r. r.id == id) t.rows ≡ false
    → update_status id s code body t ≡ t
unfolding update_status
update_status_missing id code s body t h =
    rw (update_status, update_where_missing id (set_response s code body) t.rows h) refl

incr_retry_count_missing :
    (id : ℕ) (t : LogTable) → any (λ r. r.id == id) t.rows ≡ false → incr_retry_count id t ≡ t
unfolding incr_retry_count
incr_retry_count_missing id t h =
    rw (incr_retry_count, update_where_missing id add_retry t.rows h) refl

record_failure_missing :
    (env : SenderEnv) (task : DispatchTask) (r : HttpResponse) (t : LogTable)
    → any (λ r. r.id == task.webhook_log_id) t.rows ≡ false
    → record_failure env task r t ≡ t
unfolding record_failure
record_failure_missing env task r t h =
    rw
      (unless_same env.status_fails t _
        (update_status_missing task.webhook_log_id r.code Status.failed (response_text r) t h))
      (unless_same env.incr_fails t _ (incr_retry_count_missing task.webhook_log_id t h))

requeue_keeps :
    (env : SenderEnv) (task : DispatchTask) (req : HttpRequest) (rc : ℤ) (t : LogTable)
    → (requeue env task req rc t).logs ≡ t
unfolding requeue
requeue_keeps env task req rc t = elim (Bool-cases (at_least 5 rc)) [
  | inl e ↦ rw (requeue, e) refl
  | inr e ↦ elim (Option-cases (retry_route rc)) [
    | inl r ↦ rw (requeue, e) (rw (requeue, r) refl)
    | inr (k, r) ↦ rw (requeue, e) (rw (requeue, r) refl)
  ]
]

push_missing :
    (env : SenderEnv) (task : DispatchTask) (rc : ℤ) (t : LogTable)
    → any (λ r. r.id == task.webhook_log_id) t.rows ≡ false
    → (push env task rc t).logs ≡ t
unfolding push
push_missing env task rc t h =
    let r = env.post (request_of env task) in
    elim (Bool-cases (is_success r)) [
      | inl e ↦
          rw (push, e)
            (unless_same env.status_fails t _ (
              update_status_missing task.webhook_log_id r.code Status.success (response_body r) t
                h))
      | inr e ↦
          rw (push, e)
            (requeue_keeps env task (request_of env task) (inc32 rc) (record_failure env task r t)
              ∙ record_failure_missing env task r t h)
    ]

-- The delivery of a message.
abbrev pub delivered : Publishing DispatchTask → Delivery DispatchTask
delivered p = record { body = some p.body; retry_header = some (int32 p.retry_count) }

resend_ok :
    (app_id id : ℕ) (t : LogTable) (log : WebhookLog)
    → get_by_id id t ≡ some log
    → (log.app_id == app_id) ≡ true
    → resend false false app_id id t
      ≡ ok (record {
        exchange = bytes "dispatch.exchange";
        routing_key = bytes "dispatch";
        body = log.payload;
        retry_count = pos 0;
      })
unfolding resend
resend_ok app_id id t log e o = rw (resend, e) (rw o refl)

-- Resend, by the app of a row that the expander has made, in a table whose keys are positive: the
-- task is published, but whatever the callback answers, the sender changes no row for it, since the
-- payload of the row was encoded before the row had its key.
pub resend_records_nothing :
    (app_id id : ℕ) (t : LogTable) (log : WebhookLog)
    → (event : NormalizedEvent) (wa : WatchedAddress) (info : AppInfo) (env : SenderEnv)
    → get_by_id id t ≡ some log
    → (log.app_id == app_id) ≡ true
    → log.payload ≡ (log_of event wa info).payload
    → any (λ r. r.id == 0) t.rows ≡ false
    → (p : Publishing DispatchTask) × (resend false false app_id id t ≡ ok p)
      × (p.body ≡ log.payload)
      × ((sender_handle env (delivered p) t).logs ≡ t)
unfolding sender_handle log_of task_of
resend_records_nothing app_id id t log event wa info env e o made positive = (
  _,
  resend_ok app_id id t log e o,
  refl,
  push_missing env log.payload (pos 0) t (rw made positive),
)
