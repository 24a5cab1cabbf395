-- ===== src/Tests/Samples.antt =====
-- Values that the tests share: an event, a task, a row of webhook_logs and a broker.
use address_monitor.Prelude.{
  ◌≡◌, refl, Bool, true, false, any, text_eq, text_eq_self, arith, Option, none, some, List, [],
  ◌∷◌, Text, bytes, is_empty_text,
}
use address_monitor.Prelude.Int.{pos}
use address_monitor.Events.{NormalizedEvent, native_transfer, incoming}
use address_monitor.Dispatcher.Task.{DispatchTask}
use address_monitor.Store.WebhookLogs.{WebhookLog, LogTable, pending}
use address_monitor.AddrCodec.{Base58}
use address_monitor.Store.WatchedAddresses.{WatchedAddress, AddressTable}
use address_monitor.Matcher.Defs.{Bloom}
use address_monitor.Mq.Topology.{Declaration, QueueArgs, Broker, queue_args, bound_queues}

abbrev pub event : NormalizedEvent
event = record {
  event_id = bytes "e1";
  chain = bytes "ETH";
  tx_hash = bytes "0xab";
  block_number = 19;
  block_time = pos 1710000000;
  event_type = native_transfer;
  watched_address = bytes "0xaa";
  direction = incoming;
  from = bytes "0xbb";
  to = bytes "0xaa";
  asset = none;
  raw = [];
}

abbrev pub task : DispatchTask
task = record {
  webhook_log_id = 7;
  app_id = 1;
  address_id = 3;
  callback_url = bytes "http://cb";
  secret = bytes "sk";
  event = event;
}

abbrev pub log_row : WebhookLog
log_row = record {
  id = 7;
  event_id = bytes "e1";
  app_id = 1;
  address_id = 3;
  chain = bytes "ETH";
  tx_hash = bytes "0xab";
  event_type = native_transfer;
  payload = task;
  status = pending;
  retry_count = 0;
  callback_url = bytes "http://cb";
  response_code = none;
  response_body = none;
}

abbrev pub log_table : LogTable
log_table = record { rows = log_row ∷ []; next_id = 8 }

-- A broker that routes as documented.
single : List Text → Option Text
single [] = none
single (q ∷ []) = some q
single (q ∷ r ∷ qs) = none

declared : Text → Option QueueArgs → Option Text
declared q none = none
declared q (some args) = some q

routes_to : List Declaration → Text → Text → Option Text
routes_to t [] k = declared k (queue_args k t)
routes_to t (c ∷ ex) k = single (bound_queues (c ∷ ex) k t)

routes_to-default :
    (t : List Declaration) (q : Text) (args : QueueArgs)
    → queue_args q t ≡ some args
    → routes_to t [] q ≡ some q
unfolding routes_to declared
routes_to-default t q args e = rw e

routes_to-direct :
    (t : List Declaration) (ex k q : Text)
    → is_empty_text ex ≡ false
    → bound_queues ex k t ≡ q ∷ []
    → routes_to t ex k ≡ some q
unfolding routes_to single
routes_to-direct t [] k q ne e = cc
routes_to-direct t (c ∷ ex) k q ne e = rw e

unfoldable pub broker : Broker
unfolding routes_to single declared routes_to-default routes_to-direct
broker = record {
  arrives = routes_to;
  default_exchange = routes_to-default;
  direct_exchange = routes_to-direct;
}

-- A row of watched_addresses that asks for the event, and a table with it.
abbrev pub row : WatchedAddress
row = record {
  id = 3;
  app_id = 1;
  chain = bytes "ETH";
  address = bytes "0xaa";
  label = [];
  status = 1;
}

abbrev pub table : AddressTable
table = record { rows = row ∷ []; next_id = 4 }

-- A codec's base58 that decodes nothing.
abbrev pub base : Base58
base = record { decode = λ s. []; check_encode = λ p v. v ∷ p }

-- A filter that keeps its items, so one without false positives.
abbrev pub has : List Text → Text → Bool
has f x = any (λ y. text_eq y x) f

pub has_self : (f : List Text) (x : Text) → has (x ∷ f) x ≡ true
has_self f x = rw (text_eq_self x) refl

pub has-kept : (f : List Text) (x y : Text) → has f y ≡ true → has (x ∷ f) y ≡ true
has-kept f x y h = ground arith

abbrev pub bloom : Bloom
bloom = record {
  Filter = List Text;
  Snapshot = List Text;
  fresh = [];
  add = λ f x. x ∷ f;
  test = has;
  encode = λ f. f;
  decode = λ d. some d;
  test-add_self = has_self;
  test-add = has-kept;
  test-fresh = λ x. refl;
  decode-encode = λ f. refl;
}
