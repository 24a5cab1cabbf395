-- ===== src/Dispatcher/DeadLetter.antt =====
-- internal/dispatcher/deadletter.go: the last stop of a task.
use address_monitor.Prelude.{Bool, none, some, if◌then◌else◌}
use address_monitor.Dispatcher.Task.{DispatchTask, Delivery}
use address_monitor.Store.WebhookLogs.{LogTable, mark_dead}

-- DeadLetterHandler.Handle; every branch acknowledges the message.
unfoldable pub dead_handle : Bool → Delivery DispatchTask → LogTable → LogTable
dead_handle mark_fails msg logs = elim msg.body [
  | none ↦ logs
  | some task ↦ if mark_fails then logs else mark_dead task.webhook_log_id logs
]
