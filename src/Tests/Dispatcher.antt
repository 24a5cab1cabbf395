-- ===== src/Tests/Dispatcher.antt =====
-- The dispatcher at concrete inputs.
use address_monitor.Prelude.{◌≡◌, refl, ℕ, zero, suc, inr, false, none, some, [], arith}
use address_monitor.Prelude.Int.{pos, int32_max}
use address_monitor.Dispatcher.Task.{int32}
use address_monitor.Dispatcher.Sender.{SenderEnv, HttpResponse, panicked, sender_handle, is_success}
use address_monitor.Dispatcher.Sender.Laws.{sender_handle_panics}
use address_monitor.Dispatcher.Lifecycle.{
  live_delivers, live_buries, finished, buried, IsHealthy, RowEnds, FailsBefore, start,
}
use address_monitor.Store.WebhookLogs.{Status}
use address_monitor.Tests.Samples.{task, log_row, log_table, broker}

abbrev answer : ℕ → HttpResponse
answer code = record { code = code; body = some []; err = none }

abbrev pub world : ℕ → SenderEnv
world code = record {
  encode = λ e. e.event_id;
  sign = λ p s. [];
  post = λ r. answer code;
  status_fails = false;
  incr_fails = false;
  publish_fails = false;
}

-- The callback answers 500 twice, then 204.
abbrev pub mends : ℕ → SenderEnv
mends zero = world 500
mends (suc zero) = world 500
mends (suc (suc n)) = world 204

pub mends-IsHealthy : (m : ℕ) → IsHealthy (mends m)
mends-IsHealthy zero = record { status = refl; incr = refl; publish = refl }
mends-IsHealthy (suc zero) = record { status = refl; incr = refl; publish = refl }
mends-IsHealthy (suc (suc m)) = record { status = refl; incr = refl; publish = refl }

mends-fails : FailsBefore broker mends task 2
unfolding is_success
mends-fails zero h = refl
mends-fails (suc zero) h = refl
mends-fails (suc (suc m)) h = absurd (omega arith)

live_delivers_example :
    let l = start broker mends task 5 log_table in
    (l.end ≡ finished)
    × (l.attempts ≡ 3)
    × (l.waited ≡ 360000)
    × RowEnds broker mends task l log_row Status.success 204 2
unfolding is_success
live_delivers_example =
    live_delivers broker mends task 2 log_table log_row (omega arith) mends-IsHealthy mends-fails
      refl refl

abbrev down : ℕ → SenderEnv
down n = world 503

live_buries_example :
    let l = start broker down task 5 log_table in
    (l.end ≡ buried)
    × (l.attempts ≡ 5)
    × (l.waited ≡ 9360000)
    × RowEnds broker down task l log_row Status.dead 503 5
unfolding is_success
live_buries_example =
    live_buries broker down task log_table log_row
      (λ m. record { status = refl; incr = refl; publish = refl }) (λ m h. refl) refl

sender_handle_panics_example :
    (sender_handle
      (world 500)
      (record { body = some task; retry_header = some (int32 (pos int32_max)) })
      log_table).verdict
    ≡ panicked
unfolding is_success
sender_handle_panics_example =
    (sender_handle_panics (world 500) task (pos int32_max) log_table).1 (refl, inr refl)
