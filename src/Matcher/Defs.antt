-- ===== src/Matcher/Defs.antt =====
-- internal/matcher/matcher.go, subscriber.go and event.go, over pkg/bloom.
use address_monitor.Prelude.{
  ℕ, zero, suc, ◌+◌, ◌*◌, ◌≡◌, Bool, true, false, Option, none, some, List, [], ◌∷◌, ◌||◌, Text,
  text_eq, TextMap, lookup, insert, to_upper, if◌then◌else◌, leb, is_empty, any, select, not, take,
  max,
}
use address_monitor.Store.WatchedAddresses.{
  WatchedAddress, AddressTable, list_by_app, list_after_id, list_by_chain_address,
}
use address_monitor.Dispatcher.Expander.{put_text}

-- The library behind pkg/bloom, with what it documents: an added item tests positive, and stays
-- so; a marshalled filter is unmarshalled to itself; a new filter is empty.
pub record Bloom : Type 1 where
  pub Filter : Type 0
  pub Snapshot : Type 0
  pub fresh : Filter
  pub add : Filter → Text → Filter
  pub test : Filter → Text → Bool
  pub encode : Filter → Snapshot
  pub decode : Snapshot → Option Filter
  pub test-add_self : (f : Filter) (x : Text) → test (add f x) x ≡ true
  pub test-add : (f : Filter) (x y : Text) → test f y ≡ true → test (add f x) y ≡ true
  pub test-fresh : (x : Text) → test fresh x ≡ false
  pub decode-encode : (f : Filter) → decode (encode f) ≡ some f

-- The constants of event.go; `unknown` is any other text.
pub data AddressEventType : Type 0 where
  add remove batch_add unknown : AddressEventType

pub record AddressEvent : Type 0 where
  pub type : AddressEventType
  pub chain : Text
  pub address : Text
  pub count : ℕ

abbrev pub incremental_max_len : ℕ
incremental_max_len = 50000

-- The keys watch:hot:<chain>, hot:last_active:<chain> and bf:incremental:<chain> of Redis.
pub record Redis : Type 0 where
  pub hot : Text → List Text
  pub last_active : Text → Text → Option ℕ
  pub incremental : Text → List Text

abbrev pub sadd : Text → List Text → List Text
sadd a xs = if any (λ x. text_eq x a) xs then xs else a ∷ xs

abbrev pub srem : Text → List Text → List Text
srem a xs = select (λ x. not (text_eq x a)) xs

abbrev pub update_at {ℓ} : {V : Type ℓ} → Text → (V → V) → (Text → V) → Text → V
update_at k f m j = if text_eq k j then f (m j) else m j

unfoldable pub promote_to_hot : ℕ → Text → Text → Redis → Redis
promote_to_hot now chain a r = record r {
  hot = update_at chain (sadd a) r.hot;
  last_active = update_at chain (put_text a now) r.last_active;
}

unfoldable pub update_last_active : ℕ → Text → Text → Redis → Redis
update_last_active now chain a r = record r {
  last_active = update_at chain (put_text a now) r.last_active;
}

-- The test of the loop of downgradeHotToCold, `threshold` seven days ago.
abbrev pub is_active : ℕ → Option ℕ → Bool
is_active threshold none = false
is_active threshold (some t) = leb threshold t

unfoldable pub downgrade_hot_to_cold : ℕ → Text → Redis → Redis
downgrade_hot_to_cold threshold chain r = record r {
  hot = update_at chain (select (λ a. is_active threshold (r.last_active chain a))) r.hot;
}

-- A list with its error, as the store returns it.
pub data Watched : Type 0 where
  found : List WatchedAddress → Watched
  failed : Watched

module _ (b : Bloom) where
  open b use {Filter, fresh, test}

  abbrev pub Filters : Type 0
  Filters = TextMap Filter

  -- New: one filter for each chain.
  unfoldable pub new_filters : List Text → Filters
  new_filters [] = []
  new_filters (c ∷ cs) = insert (to_upper c) fresh (new_filters cs)

  -- bf, ok := m.bfs[chain]; ok && bf.Test(address)
  unfoldable pub tests : Filters → Text → Text → Bool
  tests bfs chain a = elim (lookup chain bfs) [ none ↦ false | some f ↦ test f a ]

  unfoldable pub is_known : Filters → Text → Bool
  is_known bfs chain = elim (lookup chain bfs) [ none ↦ false | some f ↦ true ]

  -- AddToBF
  unfoldable pub add_to_bf : Text → Text → Filters → Filters
  add_to_bf chain a bfs = elim (lookup chain bfs) [
    | none ↦ bfs
    | some f ↦ insert chain (b.add f a) bfs
  ]

  -- IsWatched, and whether it starts promoteToHot. `hot_hit` is what SIsMember returns, `none` on
  -- an error.
  unfoldable pub is_watched :
      (Text → Text → Bool)
      → Bool
      → Option Bool
      → Text
      → Text
      → Filters
      → AddressTable
      → Watched × Bool
  unfolding tests
  is_watched same list_fails hot_hit chain a bfs t =
      let rows = list_by_chain_address same chain a t in
      let answer = if list_fails then failed else found rows in
      if not (tests bfs chain a) then (found [], false) else elim hot_hit [
        | some true ↦ (answer, false)
        | some false ↦ (
          if list_fails then failed else if is_empty rows then found [] else found rows,
          if list_fails then false else not (is_empty rows),
        )
        | none ↦ (
          if list_fails then failed else if is_empty rows then found [] else found rows,
          if list_fails then false else not (is_empty rows),
        )
      ]

  -- The loop over a result of the store: filters, and the greatest key of the known chains.
  unfoldable pub add_rows : List WatchedAddress → Filters × ℕ → Filters × ℕ
  unfolding add_to_bf is_known
  add_rows [] s = s
  add_rows (wa ∷ was) (bfs, max_id) = add_rows was (
    add_to_bf wa.chain wa.address bfs,
    if is_known bfs wa.chain then max max_id wa.id else max_id,
  )

  -- The loop of LoadFromDB from a page on; `none` is a query's error or the end of the fuel. Each
  -- page is a query of its own, with an order of its own.
  unfoldable pub load_pages :
      (ℕ → List WatchedAddress → List WatchedAddress)
      → ℕ
      → (ℕ → Bool)
      → ℕ
      → ℕ
      → AddressTable
      → Filters × ℕ
      → Option (Filters × ℕ)
  unfolding add_rows
  load_pages order zero query_fails page size t s = none
  load_pages order (suc fuel) query_fails page size t s =
      let (was, count) = list_by_app (order page) 0 [] page size t in
      let s' = add_rows was s in
      let rest = load_pages order fuel query_fails (page + 1) size t s' in
      if query_fails page then none else if leb count (page * size) then some s' else rest

  -- The loop of syncFromDB: the greatest key counts the unknown chains too.
  unfoldable pub sync_rows : List WatchedAddress → Filters × ℕ → Filters × ℕ
  unfolding add_to_bf
  sync_rows [] s = s
  sync_rows (wa ∷ was) (bfs, max_id) =
      sync_rows was (add_to_bf wa.chain wa.address bfs, max max_id wa.id)

  -- syncFromDB, on the filters and lastDBSyncID.
  unfoldable pub sync_from_db : Bool → AddressTable → Filters × ℕ → Filters × ℕ
  unfolding sync_rows
  sync_from_db list_fails t (bfs, last_id) =
      let was = list_after_id last_id t in
      if list_fails || is_empty was then (bfs, last_id) else sync_rows was (bfs, 0)

  -- The loop over addresses in syncIncremental and handleBatchAdd.
  unfoldable pub add_missing : Text → List Text → Filters → Filters
  unfolding add_to_bf tests
  add_missing chain [] bfs = bfs
  add_missing chain (a ∷ as') bfs =
      add_missing chain as' (if tests bfs chain a then bfs else add_to_bf chain a bfs)

  -- handleBatchAdd reads the newest `count` entries of the incremental log.
  unfoldable pub handle_batch_add : Bool → Text → ℕ → Redis → Filters → Filters
  unfolding add_missing
  handle_batch_add redis_fails chain count r bfs =
      if redis_fails then bfs else add_missing chain (take count (r.incremental chain)) bfs

  -- handleAddressEvent; `none` is a payload that does not decode.
  unfoldable pub handle_address_event :
      Bool → Option AddressEvent → Redis × Filters → Redis × Filters
  unfolding add_to_bf handle_batch_add
  handle_address_event redis_fails none (r, bfs) = (r, bfs)
  handle_address_event redis_fails (some e) (r, bfs) = elim e.type [
    | add ↦ (r, add_to_bf e.chain e.address bfs)
    | batch_add ↦ (r, handle_batch_add redis_fails e.chain e.count r bfs)
    | remove ↦ (
      if redis_fails then r else record r { hot = update_at e.chain (srem e.address) r.hot },
      bfs,
    )
    | unknown ↦ (r, bfs)
  ]
