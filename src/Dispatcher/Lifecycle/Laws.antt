-- ===== src/Dispatcher/Lifecycle/Laws.antt =====
-- How a task's life ends, by the answers of the callback.
use address_monitor.Prelude.{
  ℕ, zero, suc, ◌+◌, ◌-◌, ◌≡◌, ◌<◌, ◌≤◌, ◌∙◌, ap, refl, true, false, Option, none, some, arith,
  take, List, [], ◌∷◌,
}
use native.Mathlib.Nat.{zero-add}
use address_monitor.Prelude.Int.{pos}
use address_monitor.Mq.Topology.{Broker}
use address_monitor.Dispatcher.Task.{DispatchTask, int32}
use address_monitor.Dispatcher.Sender.{
  SenderEnv, HttpResponse, is_success, response_body, response_text, record_failure,
}
use address_monitor.Store.WebhookLogs.{
  WebhookLog, LogTable, Status, set_response, add_retry, set_dead, find_row, on_row,
  find_row-update_status, find_row-incr_retry_count, find_row-mark_dead,
}
use address_monitor.Dispatcher.Lifecycle.Defs.{Life, finished, buried, live}
use address_monitor.Dispatcher.Lifecycle.Steps.{
  IsHealthy, reply, failure, delays, delay_at, live_retry, live_success, live_last,
}

abbrev pub sum : List ℕ → ℕ
sum [] = 0
sum (x ∷ xs) = x + sum xs

-- The time that a task has waited before attempt n.
abbrev pub delay_before : ℕ → ℕ
delay_before n = sum (take n delays)

on_row_twice :
    (f g : WebhookLog → WebhookLog) (o : Option WebhookLog)
    → on_row g (on_row f o) ≡ on_row (λ x. g (f x)) o
on_row_twice f g none = refl
on_row_twice f g (some r) = refl

pub find_row-record_failure :
    (env : SenderEnv) (task : DispatchTask) (r : HttpResponse) (logs : LogTable)
    → IsHealthy env
    → find_row task.webhook_log_id (record_failure env task r logs).rows
      ≡ on_row
          (λ x. add_retry (set_response Status.failed r.code (response_text r) x))
          (find_row task.webhook_log_id logs.rows)
unfolding record_failure
find_row-record_failure env task r logs h =
    rw (h.status, h.incr)
      (rw
        (
          find_row-incr_retry_count task.webhook_log_id _,
          find_row-update_status task.webhook_log_id _,
        )
        (on_row_twice _ _ _))

delay_before-suc : (n : ℕ) → n < 4 → delay_before n + delay_at n ≡ delay_before (suc n)
delay_before-suc zero h = refl
delay_before-suc (suc zero) h = refl
delay_before-suc (suc (suc zero)) h = refl
delay_before-suc (suc (suc (suc zero))) h = refl
delay_before-suc (suc (suc (suc (suc n)))) h = absurd (omega arith)

split_five : (k : ℕ) → k ≤ 4 → 5 ≡ k + suc (4 - k)
split_five k h = omega arith

move_suc : (n fuel : ℕ) → suc n + fuel ≡ n + suc fuel
move_suc n fuel = omega arith

module _ (b : Broker) (env : ℕ → SenderEnv) (task : DispatchTask) where
  logs_after : ℕ → LogTable → LogTable
  logs_after zero logs = logs
  logs_after (suc n) logs = failure b env task n (logs_after n logs)

  row_after : ℕ → WebhookLog → WebhookLog
  row_after zero r = r
  row_after (suc n) r = add_retry (
      set_response Status.failed (reply b env task n).code (response_text (reply b env task n))
        (row_after n r))

  row_after_count : (n : ℕ) (r : WebhookLog) → (row_after n r).retry_count ≡ r.retry_count + n
  unfolding row_after
  row_after_count zero r = omega arith
  row_after_count (suc n) r = omega (arith, row_after_count n r)

  find_row-logs_after :
      (n : ℕ) (logs : LogTable) (r : WebhookLog)
      → ((m : ℕ) → IsHealthy (env m))
      → find_row task.webhook_log_id logs.rows ≡ some r
      → find_row task.webhook_log_id (logs_after n logs).rows ≡ some (row_after n r)
  unfolding logs_after row_after
  find_row-logs_after zero logs r h e = e
  find_row-logs_after (suc n) logs r h e = rw (
    find_row-record_failure (env n) task (reply b env task n) (logs_after n logs) (h n),
    find_row-logs_after n logs r h e,
  )

  -- Attempt n fails, and so did every one before it.
  abbrev pub FailsBefore : ℕ → Type 0
  FailsBefore n = (m : ℕ) → m < n → is_success (reply b env task m) ≡ false

  abbrev pub start : ℕ → LogTable → Life
  start fuel logs = live b env fuel 0 task (some (int32 (pos 0))) logs 0

  abbrev resumed : ℕ → ℕ → LogTable → Life
  resumed fuel n logs =
      live b env fuel n task (some (int32 (pos n))) (logs_after n logs) (delay_before n)

  advance :
      (n fuel : ℕ) (logs : LogTable)
      → n ≤ 4
      → ((m : ℕ) → IsHealthy (env m))
      → FailsBefore n
      → start (n + fuel) logs ≡ resumed fuel n logs
  unfolding logs_after
  advance zero fuel logs le h fails = rw zero-add refl
  advance (suc n) fuel logs le h fails = rw (move_suc n fuel) (
      advance n (suc fuel) logs (omega arith) h (λ m lt. fails m (omega arith))
      ∙ rw (← delay_before-suc n le) (
          live_retry b env task fuel n (logs_after n logs) (delay_before n) le (h n)
            (fails n (omega arith))))

  -- What the table holds of the task's row after a life.
  abbrev pub RowEnds : Life → WebhookLog → Status → ℕ → ℕ → Type 0
  RowEnds l r status code retries =
      (r' : WebhookLog) × (find_row task.webhook_log_id l.logs.rows ≡ some r')
      × (r'.status ≡ status)
      × (r'.response_code ≡ some code)
      × (r'.retry_count ≡ r.retry_count + retries)

  -- If the calls of the sender to its services succeed and the callback refuses the first k
  -- pushes, k at most 4, and accepts the next, the task ends after k + 1 attempts and the first k
  -- delays; its row has status success, the code of the last answer and k more retries.
  pub live_delivers :
      (k : ℕ) (logs : LogTable) (r : WebhookLog)
      → k ≤ 4
      → ((m : ℕ) → IsHealthy (env m))
      → FailsBefore k
      → is_success (reply b env task k) ≡ true
      → find_row task.webhook_log_id logs.rows ≡ some r
      → let l = start 5 logs in
        (l.end ≡ finished)
        × (l.attempts ≡ suc k)
        × (l.waited ≡ delay_before k)
        × RowEnds l r Status.success (reply b env task k).code k
  live_delivers k logs r le h fails ok found =
      rw
        (ap (λ f. start f logs) (split_five k le)
          ∙ advance k (suc (4 - k)) logs le h fails
          ∙ live_success b env task (4 - k) k (logs_after k logs) (delay_before k) (h k) ok)
        (
          refl,
          refl,
          refl,
          (
            set_response Status.success (reply b env task k).code
                (response_body (reply b env task k)) (row_after k r),
            rw (find_row-update_status, find_row-logs_after k logs r h found),
            refl,
            refl,
            row_after_count k r,
          ),
        )

  -- If the calls of the sender to its services succeed and the callback refuses all pushes, the
  -- task ends at the dead letter handler after five attempts and 9360000 ms; its row has status
  -- dead, the code of the last answer and five more retries.
  pub live_buries :
      (logs : LogTable) (r : WebhookLog)
      → ((m : ℕ) → IsHealthy (env m))
      → FailsBefore 5
      → find_row task.webhook_log_id logs.rows ≡ some r
      → let l = start 5 logs in
        (l.end ≡ buried)
        × (l.attempts ≡ 5)
        × (l.waited ≡ 9360000)
        × RowEnds l r Status.dead (reply b env task 4).code 5
  unfolding logs_after row_after
  live_buries logs r h fails found =
      rw
        (advance 4 1 logs (omega arith) h (λ m lt. fails m (omega arith))
          ∙ live_last b env task 0 (logs_after 4 logs) (delay_before 4) (h 4)
              (fails 4 (omega arith)))
        (
          refl,
          refl,
          refl,
          (
            set_dead (row_after 5 r),
            rw (find_row-mark_dead, find_row-logs_after 5 logs r h found),
            refl,
            refl,
            row_after_count 5 r,
          ),
        )
