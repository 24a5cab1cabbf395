-- ===== src/Chain/Tracker.antt =====
-- internal/chain/tracker.go, with the upsert of internal/store/chain_sync.go. Block numbers are
-- uint64; the counter, an int64 of updates since the start, is not taken to its overflow. The
-- goroutine that writes MySQL is taken to have run before the next update.
use address_monitor.Prelude.{
  ℕ, ◌+◌, ◌-◌, ◌%◌, ◌^◌, Bool, Option, none, some, if◌then◌else◌, ◌==◌, ltb, ◌&&◌,
}

pub record Tracker : Type 0 where
  pub current : ℕ
  pub counter : ℕ

-- The key last_block:<chain> of Redis and the row of chain_sync_status for the instance.
pub record Saved : Type 0 where
  pub redis : Option ℕ
  pub mysql : Option ℕ

-- a - b on uint64.
abbrev pub sub64 : ℕ → ℕ → ℕ
sub64 a b = (a + (2 ^ 64 - b)) % 2 ^ 64

-- A reading that Init goes on from: there, and above 0.
abbrev pub usable : Option ℕ → Option ℕ
usable none = none
usable (some v) = if ltb 0 v then some v else none

-- Init on what the two readings and fetchLatest return, `none` on an error or a missing entry.
unfoldable pub init : ℕ → Option ℕ → Option ℕ → Option ℕ → Option ℕ
init confirmations redis mysql latest = elim (usable redis) [
  | some v ↦ some (sub64 v confirmations)
  | none ↦ elim (usable mysql) [ some last ↦ some (sub64 last confirmations) | none ↦ latest ]
]

-- NewBlockTracker followed by Init.
abbrev pub started : ℕ → Tracker
started start = record { current = start; counter = 0 }

-- Whether the two writes of an update succeed; their errors are dropped.
pub record Writes : Type 0 where
  pub redis_ok : Bool
  pub mysql_ok : Bool

unfoldable pub update : Writes → ℕ → Tracker × Saved → Tracker × Saved
update w block (t, s) =
    let persists = (((t.counter + 1) % 100) == 0) && w.mysql_ok in
    (
      record { current = block; counter = t.counter + 1 },
      record {
        redis = if w.redis_ok then some block else s.redis;
        mysql = if persists then some block else s.mysql;
      },
    )
