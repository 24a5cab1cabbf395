-- ===== src/Dispatcher/Expander/Served.antt =====
-- From a matched event to the callback of an app: the expander, then the life of its task.
use address_monitor.Prelude.{ℕ, ◌≡◌, refl}
use address_monitor.Events.{NormalizedEvent}
use address_monitor.Store.WatchedAddresses.{WatchedAddress}
use address_monitor.Store.Apps.{App}
use address_monitor.Dispatcher.Sender.{SenderEnv, HttpRequest, request_of}
use address_monitor.Dispatcher.Expander.{task_of, info_of}

-- The request that a push of the event to the app makes: the event's JSON, to the callback URL of
-- the app, signed with the secret of the app.
abbrev pub push_to : App → NormalizedEvent → SenderEnv → HttpRequest
push_to app event world = record {
  url = app.callback_url;
  payload = world.encode event;
  signature = world.sign (world.encode event) app.secret;
  event_id_header = event.event_id;
}

request_of-task_of :
    (world : SenderEnv) (event : NormalizedEvent) (wa : WatchedAddress) (app : App) (id : ℕ)
    → request_of world (task_of event wa (info_of app) id) ≡ push_to app event world
unfolding request_of task_of info_of
request_of-task_of world event wa app id = refl
