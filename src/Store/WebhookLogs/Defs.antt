-- ===== src/Store/WebhookLogs/Defs.antt =====
-- The rows of webhook_logs and the queries of internal/store/webhook_log.go.
use address_monitor.Prelude.{
  ℕ, ◌+◌, Bool, ◌&&◌, Option, List, [], ◌∷◌, ◌++◌, Text, text_eq, ◌==◌, if◌then◌else◌, any, first,
  true, bytes, is_empty_text, select, take, drop, length, ◌-◌, ◌*◌,
}
use address_monitor.Events.{EventType}
use address_monitor.Dispatcher.Task.{DispatchTask}

-- The values of the column status: pending, success, failed, dead.
pub data Status : Type 0 where
  pending success failed dead : Status

pub record WebhookLog : Type 0 where
  pub id : ℕ
  pub event_id : Text
  pub app_id : ℕ
  pub address_id : ℕ
  pub chain : Text
  pub tx_hash : Text
  pub event_type : EventType
  pub payload : DispatchTask
  pub status : Status
  pub retry_count : ℕ
  pub callback_url : Text
  pub response_code : Option ℕ
  pub response_body : Option Text

pub record LogTable : Type 0 where
  pub rows : List WebhookLog
  pub next_id : ℕ

-- UPDATE … WHERE id = ?
unfoldable pub update_where : ℕ → (WebhookLog → WebhookLog) → List WebhookLog → List WebhookLog
update_where id f [] = []
update_where id f (r ∷ rs) = (if r.id == id then f r else r) ∷ update_where id f rs

-- The row that Create inserts gets the next key.
unfoldable pub create : WebhookLog → LogTable → ℕ × LogTable
create r t = (
  t.next_id,
  record t { rows = t.rows ++ record r { id = t.next_id } ∷ []; next_id = t.next_id + 1 },
)

abbrev pub is_event_address : Text → ℕ → WebhookLog → Bool
is_event_address event_id address_id r = text_eq r.event_id event_id && (r.address_id == address_id)

unfoldable pub exists_by_event_and_address : Text → ℕ → LogTable → Bool
exists_by_event_and_address event_id address_id t =
    any (is_event_address event_id address_id) t.rows

unfoldable pub get_by_id : ℕ → LogTable → Option WebhookLog
get_by_id id t = first (λ r. r.id == id) t.rows

abbrev pub set_response : Status → ℕ → Text → WebhookLog → WebhookLog
set_response s code body r = record r {
  status = s;
  response_code = Option.some code;
  response_body = Option.some body;
}

unfoldable pub update_status : ℕ → Status → ℕ → Text → LogTable → LogTable
update_status id s code body t = record t {
  rows = update_where id (set_response s code body) t.rows;
}

abbrev pub add_retry : WebhookLog → WebhookLog
add_retry r = record r { retry_count = r.retry_count + 1 }

unfoldable pub incr_retry_count : ℕ → LogTable → LogTable
incr_retry_count id t = record t { rows = update_where id add_retry t.rows }

abbrev pub set_dead : WebhookLog → WebhookLog
set_dead r = record r { status = dead }

unfoldable pub mark_dead : ℕ → LogTable → LogTable
mark_dead id t = record t { rows = update_where id set_dead t.rows }

unfoldable pub status_text : Status → Text
status_text pending = bytes "pending"
status_text success = bytes "success"
status_text failed = bytes "failed"
status_text dead = bytes "dead"

-- The conditions of ListByApp; an empty chain or status is no condition.
abbrev pub in_app : ℕ → Text → Text → WebhookLog → Bool
in_app app_id chain status r =
    (r.app_id == app_id)
    && (if is_empty_text chain then true else text_eq r.chain chain)
    && (if is_empty_text status then true else text_eq (status_text r.status) status)

-- The page, and how many rows there are in all; `order` is how the query orders its rows.
unfoldable pub list_by_app :
    (List WebhookLog → List WebhookLog) → ℕ → Text → Text → ℕ → ℕ → LogTable → List WebhookLog × ℕ
unfolding status_text
list_by_app order app_id chain status page size t =
    let found = select (in_app app_id chain status) t.rows in
    (take size (drop ((page - 1) * size) (order found)), length found)
