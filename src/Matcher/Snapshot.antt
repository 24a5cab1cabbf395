-- ===== src/Matcher/Snapshot.antt =====
-- The filters over a restart: SnapshotBF and RestoreBF of internal/matcher/matcher.go.
pub mod Laws
use address_monitor.Prelude.{
  ℕ, Bool, true, false, Option, none, some, List, [], ◌∷◌, ◌||◌, Text, text_eq, if◌then◌else◌,
}
use address_monitor.Store.WatchedAddresses.{WatchedAddress, AddressTable}
use address_monitor.Matcher.Defs.{Bloom, Filters, sync_from_db, load_pages}
use address_monitor.Dispatcher.Expander.{put_text}

-- The keys bf:snapshot:<chain> and bf:snapshot:maxid of Redis.
pub record Snapshots (b : Bloom) : Type 0 where
  pub filters : Text → Option b.Snapshot
  pub max_id : Option ℕ

module _ (b : Bloom) where
  -- The loop of SnapshotBF; `fails` are the chains whose filter is not encoded or not written.
  unfoldable pub snapshot_filters :
      (Text → Bool) → Filters b → (Text → Option b.Snapshot) → Text → Option b.Snapshot
  snapshot_filters fails [] snaps = snaps
  snapshot_filters fails ((c, f) ∷ bfs) snaps =
      let rest = snapshot_filters fails bfs snaps in
      if fails c then rest else put_text c (b.encode f) rest

  -- SnapshotBF: the water mark is written whatever became of the filters.
  unfoldable pub snapshot_bf : (Text → Bool) → Bool → Filters b × ℕ → Snapshots b → Snapshots b
  unfolding snapshot_filters
  snapshot_bf fails mark_fails (bfs, last_id) s = record {
    filters = snapshot_filters fails bfs s.filters;
    max_id = if mark_fails then s.max_id else some last_id;
  }

  abbrev pub decoded : Option b.Snapshot → Option b.Filter
  decoded none = none
  decoded (some d) = b.decode d

  abbrev pub or_else : b.Filter → Option b.Filter → b.Filter
  or_else f none = f
  or_else f (some g) = g

  abbrev pub is_there : Option b.Filter → Bool
  is_there none = false
  is_there (some g) = true

  -- The loop of RestoreBF, with whether any filter was restored.
  unfoldable pub restore_filters : (Text → Option b.Snapshot) → Filters b → Filters b × Bool
  restore_filters snaps [] = ([], false)
  restore_filters snaps ((c, f) ∷ bfs) =
      let (bfs', any_restored) = restore_filters snaps bfs in
      ((c, or_else f (decoded (snaps c))) ∷ bfs', is_there (decoded (snaps c)) || any_restored)

  -- RestoreBF on the filters and lastDBSyncID, with its Boolean result.
  unfoldable pub restore_bf :
      Bool → Snapshots b → AddressTable → Filters b × ℕ → (Filters b × ℕ) × Bool
  unfolding restore_filters
  restore_bf list_fails s t (bfs, last_id) =
      let (bfs', any_restored) = restore_filters s.filters bfs in
      if any_restored
      then (
        elim s.max_id [ none ↦ (bfs', last_id) | some m ↦ sync_from_db b list_fails t (bfs', m) ],
        true,
      )
      else ((bfs, last_id), false)

  -- The start of cmd/worker/main.go: a full load if nothing was restored, 10000 rows to a page.
  -- A load that fails leaves what the pages before it have added out of the model's result.
  unfoldable pub start_filters :
      (ℕ → List WatchedAddress → List WatchedAddress)
      → ℕ
      → Bool
      → (ℕ → Bool)
      → Snapshots b
      → AddressTable
      → Filters b × ℕ
      → Option (Filters b × ℕ)
  unfolding restore_bf
  start_filters order fuel list_fails query_fails s t start =
      let (restored, ok) = restore_bf list_fails s t start in
      let loaded = load_pages b order fuel query_fails 1 10000 t (start.0, 0) in
      if ok then some restored else loaded
