-- ===== src/Store/WebhookLogs/Laws.antt =====
-- What the queries on webhook_logs return after an update.
use address_monitor.Prelude.{
  ℕ, ◌≡◌, ◌≢◌, refl, Option, none, some, List, [], ◌∷◌, arith, ◌==◌, first, Text,
}
use address_monitor.Store.WebhookLogs.Defs.{
  WebhookLog, LogTable, Status, set_response, add_retry, set_dead, update_where, update_status,
  incr_retry_count, mark_dead,
}

-- The row that get_by_id finds in a list of rows.
abbrev pub find_row : ℕ → List WebhookLog → Option WebhookLog
find_row id rows = first (λ r. r.id == id) rows

abbrev pub on_row : (WebhookLog → WebhookLog) → Option WebhookLog → Option WebhookLog
on_row f none = none
on_row f (some r) = some (f r)

-- An update that keeps the key is seen by the next lookup, and by no lookup of another key.
pub find_row-update_where :
    (id : ℕ) (f : WebhookLog → WebhookLog)
    → ((r : WebhookLog) → (f r).id ≡ r.id)
    → (rows : List WebhookLog) → find_row id (update_where id f rows) ≡ on_row f (find_row id rows)
unfolding update_where
find_row-update_where id f keeps [] = refl
find_row-update_where id f keeps (r ∷ rs) =
    ground (arith, keeps r, find_row-update_where id f keeps rs)

pub find_row-update_where_ne :
    (id other : ℕ) (f : WebhookLog → WebhookLog)
    → ((r : WebhookLog) → (f r).id ≡ r.id)
    → other ≢ id
    → (rows : List WebhookLog) → find_row other (update_where id f rows) ≡ find_row other rows
unfolding update_where
find_row-update_where_ne id other f keeps ne [] = refl
find_row-update_where_ne id other f keeps ne (r ∷ rs) =
    ground (arith, keeps r, find_row-update_where_ne id other f keeps ne rs)

module _ (id : ℕ) (t : LogTable) where
  pub find_row-update_status :
      (s : Status) (code : ℕ) (body : Text)
      → find_row id (update_status id s code body t).rows
        ≡ on_row (set_response s code body) (find_row id t.rows)
  unfolding update_status
  find_row-update_status s code body =
      find_row-update_where id (set_response s code body) (λ r. refl) t.rows

  pub find_row-incr_retry_count :
      find_row id (incr_retry_count id t).rows ≡ on_row add_retry (find_row id t.rows)
  unfolding incr_retry_count
  find_row-incr_retry_count = find_row-update_where id add_retry (λ r. refl) t.rows

  pub find_row-mark_dead : find_row id (mark_dead id t).rows ≡ on_row set_dead (find_row id t.rows)
  unfolding mark_dead
  find_row-mark_dead = find_row-update_where id set_dead (λ r. refl) t.rows

module _ (id other : ℕ) (ne : other ≢ id) (t : LogTable) where
  pub find_row-update_status_ne :
      (s : Status) (code : ℕ) (body : Text)
      → find_row other (update_status id s code body t).rows ≡ find_row other t.rows
  unfolding update_status
  find_row-update_status_ne s code body =
      find_row-update_where_ne id other (set_response s code body) (λ r. refl) ne t.rows

  pub find_row-incr_retry_count_ne :
      find_row other (incr_retry_count id t).rows ≡ find_row other t.rows
  unfolding incr_retry_count
  find_row-incr_retry_count_ne = find_row-update_where_ne id other add_retry (λ r. refl) ne t.rows

  pub find_row-mark_dead_ne : find_row other (mark_dead id t).rows ≡ find_row other t.rows
  unfolding mark_dead
  find_row-mark_dead_ne = find_row-update_where_ne id other set_dead (λ r. refl) ne t.rows
