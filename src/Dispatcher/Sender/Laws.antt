-- ===== src/Dispatcher/Sender/Laws.antt =====
-- What one call of Sender.Handle does, on every branch.
use address_monitor.Prelude.{
  ℕ, ◌≡◌, ◌≤◌, ◌↔◌, ◌⊎◌, ◌≢◌, inl, refl, zero, suc, ◌+◌, false, none, some, arith,
}
use address_monitor.Prelude.Int.{ℤ, pos, negsuc, inc32, at_least, int32_max}
use address_monitor.Dispatcher.Task.{DispatchTask, int32}
use address_monitor.Dispatcher.Sender.{
  SenderEnv, HttpRequest, panicked, is_success, retry_route, request_of, record_failure, requeue,
  push, sender_handle,
}
use address_monitor.Store.WebhookLogs.{LogTable}

-- Within the four retries the table of routes has an entry.
retry_route-suc : (n : ℕ) → n ≤ 3 → retry_route (pos (n + 1)) ≢ none
unfolding retry_route
retry_route-suc zero h e = cc
retry_route-suc (suc zero) h e = cc
retry_route-suc (suc (suc zero)) h e = cc
retry_route-suc (suc (suc (suc zero))) h e = cc
retry_route-suc (suc (suc (suc (suc n)))) h e = omega arith

requeue_panics :
    (env : SenderEnv) (task : DispatchTask) (req : HttpRequest) (rc : ℤ) (logs : LogTable)
    → ((requeue env task req (inc32 rc) logs).verdict ≡ panicked)
      ↔ ((at_least 0 rc ≡ false) ⊎ (rc ≡ pos int32_max))
unfolding requeue
requeue_panics env task req (pos n) logs =
    (ground (arith, retry_route-suc n), ground (arith, retry_route-suc n))
requeue_panics env task req (negsuc zero) logs = (λ _. inl refl, λ _. refl)
requeue_panics env task req (negsuc (suc n)) logs = (λ _. inl refl, λ _. refl)

-- A push of a decoded task stops in a panic exactly when the callback refuses it and the retry
-- count is negative or the greatest int32, which wraps round.
pub sender_handle_panics :
    (env : SenderEnv) (task : DispatchTask) (rc : ℤ) (logs : LogTable)
    → ((sender_handle env
          (record { body = some task; retry_header = some (int32 rc) })
          logs).verdict
        ≡ panicked)
      ↔ ((is_success (env.post (request_of env task)) ≡ false)
          × ((at_least 0 rc ≡ false) ⊎ (rc ≡ pos int32_max)))
unfolding sender_handle push
sender_handle_panics env task rc logs = ground (
  arith,
  requeue_panics env task (request_of env task) rc
      (record_failure env task (env.post (request_of env task)) logs),
)
