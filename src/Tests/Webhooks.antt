-- ===== src/Tests/Webhooks.antt =====
-- A message that an app sends again.
use address_monitor.Prelude.{◌≡◌, refl, false, [], ◌∷◌, bytes}
use address_monitor.Dispatcher.Task.{DispatchTask, Publishing}
use address_monitor.Dispatcher.Sender.{sender_handle}
use address_monitor.Dispatcher.Expander.{AppInfo, log_of, task_of}
use address_monitor.Store.WebhookLogs.{WebhookLog, LogTable, get_by_id}
use address_monitor.Api.Result.{ok}
use address_monitor.Api.Webhooks.{resend}
use address_monitor.Api.Webhooks.Laws.{resend_records_nothing, delivered}
use address_monitor.Tests.Samples.{event, row}
use address_monitor.Tests.Dispatcher.{world}

abbrev info : AppInfo
info = record { callback_url = bytes "http://cb"; secret = bytes "sk"; allowed_contracts = [] }

-- The row that the expander has made for the event, with its key.
abbrev log : WebhookLog
log = record (log_of event row info) { id = 1 }

abbrev logs : LogTable
logs = record { rows = log ∷ []; next_id = 2 }

-- The callback answers 500.
resend_records_nothing_example :
    (p : Publishing DispatchTask) × (resend false false 1 1 logs ≡ ok p)
    × (p.body ≡ log.payload)
    × ((sender_handle (world 500) (delivered p) logs).logs ≡ logs)
unfolding log_of task_of get_by_id
resend_records_nothing_example =
    resend_records_nothing 1 1 logs log event row info (world 500) refl refl refl refl
