-- ===== src/Chain/Supervisor.antt =====
-- internal/chain/supervisor.go: handleRawEvent, from a raw event to the matched events published,
-- up to the channel of the raw events. The two events of a transfer share
-- their asset in the code; both are completed from the same chain and contract, so to the same value. The
-- goroutine of promoteToHot is taken to run at once.
pub mod Laws
pub mod Only
use address_monitor.Prelude.{
  ℕ, ◌-◌, ◌%◌, ◌^◌, Bool, true, false, Option, none, some, List, [], ◌∷◌, ◌++◌, Text, bytes,
  is_empty_text, if◌then◌else◌, ◌==◌, ltb, length, not,
}
use address_monitor.Prelude.Int.{ℤ, pos, negsuc}
use address_monitor.AddrCodec.{Base58}
use address_monitor.Events.{NormalizedEvent, AssetInfo, RawEvent, EventType}
use address_monitor.Store.WatchedAddresses.{AddressTable}
use address_monitor.Chain.ContractFilter.{ContractFilter, is_allowed, get_symbol, get_decimals}
use address_monitor.Dispatcher.Expander.{contract_of}
use address_monitor.Matcher.Defs.{
  Bloom, Filters, Redis, Watched, found, failed, is_watched, promote_to_hot, update_last_active,
}

-- uint32(x) of an int64.
abbrev pub to_uint32 : ℤ → ℕ
to_uint32 (pos n) = n % 2 ^ 32
to_uint32 (negsuc n) = 2 ^ 32 - 1 - n % 2 ^ 32

-- rawEventItem
pub record RawItem : Type 0 where
  pub chain : Text
  pub tx_hash : Text
  pub block_number : ℕ
  pub block_time : ℕ
  pub event_type : EventType
  pub raw_data : Text

-- What the outside answers for an event: the parsers, the column's comparison, the errors.
pub record SupervisorEnv : Type 0 where
  pub parsers : Text → Option (RawEvent → Option (List NormalizedEvent))
  pub base : Base58
  pub same : Text → Text → Bool
  pub now : ℕ
  pub hot_hit : NormalizedEvent → Option Bool
  pub list_fails : NormalizedEvent → Bool
  pub publish_fails : NormalizedEvent → Bool

-- The messages published to matched.exchange under "matched", oldest first, the hot sets, and the
-- channel rawWriteCh.
pub record Pipeline : Type 0 where
  pub published : List NormalizedEvent
  pub redis : Redis
  pub raw_writes : List RawItem

abbrev pub raw_capacity : ℕ
raw_capacity = 2000

abbrev pub complete_asset : ContractFilter → Text → AssetInfo → AssetInfo
complete_asset f chain a = if is_empty_text a.contract_address then a else record a {
  symbol = if is_empty_text a.symbol then get_symbol f chain a.contract_address else a.symbol;
  decimals = if a.decimals == 0 then get_decimals f chain a.contract_address else a.decimals;
}

-- The symbol and decimals of a token, from the whitelist.
unfoldable pub complete : ContractFilter → NormalizedEvent → NormalizedEvent
complete f e = elim e.asset [
  | none ↦ e
  | some a ↦ record e { asset = some (complete_asset f e.chain a) }
]

abbrev pub item_of : RawEvent → NormalizedEvent → RawItem
item_of raw e = record {
  chain = raw.chain;
  tx_hash = raw.tx_hash;
  block_number = raw.block_num;
  block_time = to_uint32 raw.block_time;
  event_type = e.event_type;
  raw_data = raw.payload;
}

-- The select with a default: an item that finds the channel full is dropped.
abbrev pub offer : RawItem → List RawItem → List RawItem
offer item xs = if ltb (length xs) raw_capacity then xs ++ item ∷ [] else xs

module _ (b : Bloom) (env : SupervisorEnv) (f : ContractFilter) (bfs : Filters b)
    (t : AddressTable) where
  -- The body of the loop behind IsWatched, for an address that somebody watches.
  unfoldable pub publish_matched : RawEvent → NormalizedEvent → Pipeline → Pipeline
  publish_matched raw e s =
      let s' = record s { redis = update_last_active env.now e.chain e.watched_address s.redis } in
      if env.publish_fails e then s' else record s' {
        published = s.published ++ e ∷ [];
        raw_writes = offer (item_of raw e) s.raw_writes;
      }

  abbrev pub after_match : RawEvent → NormalizedEvent → Watched × Bool → Pipeline → Pipeline
  after_match raw e (failed, hot) s = s
  after_match raw e (found [], hot) s = s
  after_match raw e (found (wa ∷ was), hot) s = publish_matched raw e (
      if hot
      then record s { redis = promote_to_hot env.now e.chain e.watched_address s.redis }
      else s)

  -- One round of the loop over the parsed events.
  unfoldable pub match_event : RawEvent → NormalizedEvent → Pipeline → Pipeline
  match_event raw e s =
      let c = complete f e in
      if is_allowed env.base f e.chain (contract_of e)
      then after_match raw c
          (is_watched b env.same (env.list_fails e) (env.hot_hit e) c.chain c.watched_address bfs t)
          s
      else s

  unfoldable pub match_events : RawEvent → List NormalizedEvent → Pipeline → Pipeline
  unfolding match_event
  match_events raw [] s = s
  match_events raw (e ∷ es) s = match_events raw es (match_event raw e s)

  -- handleRawEvent
  unfoldable pub handle_raw_event : RawEvent → Pipeline → Pipeline
  unfolding match_events
  handle_raw_event raw s = elim (env.parsers raw.chain) [
    | none ↦ s
    | some parse ↦ elim (parse raw) [ none ↦ s | some es ↦ match_events raw es s ]
  ]
