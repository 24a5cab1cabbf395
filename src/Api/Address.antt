-- ===== src/Api/Address.antt =====
-- internal/api/service/address.go. A pipeline of Redis commands runs whole or not at all.
pub mod Laws
use address_monitor.Prelude.{
  ℕ, zero, suc, ◌+◌, Bool, true, false, Option, none, some, List, [], ◌∷◌, ◌++◌, Text, bytes,
  text_eq, is_empty_text, is_empty, any, take, drop, length, reverse, map, ◌||◌, to_upper,
  if◌then◌else◌, ◌==◌,
}
use address_monitor.Prelude.Strings.{trim_space}
use address_monitor.Prelude.Int.{ℤ}
use address_monitor.AddrCodec.{Base58, codec_of, normalize}
use address_monitor.Store.WatchedAddresses
use address_monitor.Store.WatchedAddresses.{WatchedAddress, AddressTable, list_by_app}
use address_monitor.Dispatcher.Expander.{sub_cache_key}
use address_monitor.Matcher.Defs.{
  AddressEvent, AddressEventType, Redis, incremental_max_len, sadd, srem, update_at,
}
use address_monitor.Api.Page.{normalize_page}

-- What the service works on: the table, the sets and logs of Redis, the keys sub_cache:…, and the
-- events published on the channel of the matchers, oldest first.
pub record AddressState : Type 0 where
  pub table : AddressTable
  pub redis : Redis
  pub sub_cache : Text → Option (List WatchedAddress)
  pub events : List AddressEvent

pub data AddressError : Type 0 where
  address_not_found address_forbidden no_valid_address store_failed : AddressError

pub data Result (A : Type 0) : Type 0 where
  ok : A → Result A
  err : AddressError → Result A

pub record AddressResp : Type 0 where
  pub id : ℕ
  pub chain : Text
  pub address : Text
  pub label : Text
  pub status : ℕ

pub record BatchResp : Type 0 where
  pub total : ℕ
  pub success : List AddressResp
  pub fail : List Text

unfoldable pub to_address_resp : WatchedAddress → AddressResp
to_address_resp wa = record {
  id = wa.id;
  chain = wa.chain;
  address = wa.address;
  label = wa.label;
  status = wa.status;
}

abbrev event_of : AddressEventType → Text → Text → ℕ → AddressEvent
event_of type chain address count = record {
  type = type;
  chain = chain;
  address = address;
  count = count;
}

abbrev with_table : AddressTable → AddressState → AddressState
with_table t s = record s { table = t }

-- A row that is not stored yet.
abbrev pub new_row : ℕ → Text → Text → Text → WatchedAddress
new_row app_id chain label address = record {
  id = 0;
  app_id = app_id;
  chain = chain;
  address = address;
  label = label;
  status = 1;
}

-- LPUSH of several members and LTRIM.
abbrev pub push_log : List Text → List Text → List Text
push_log as' xs = take incremental_max_len (reverse as' ++ xs)

abbrev pub sadd_all : List Text → List Text → List Text
sadd_all [] xs = xs
sadd_all (a ∷ as') xs = sadd_all as' (sadd a xs)

-- The pipeline of publishAddEvent and BatchCreate.
unfoldable pub announce : Bool → Text → List Text → AddressEvent → AddressState → AddressState
announce redis_fails chain as' e s = if redis_fails then s else record s {
  redis = record s.redis {
    hot = update_at chain (sadd_all as') s.redis.hot;
    incremental = update_at chain (push_log as') s.redis.incremental;
  };
  events = s.events ++ e ∷ [];
}

-- AddressService.Create; the flags are the errors of the store and of Redis.
unfoldable pub create :
    Base58 → Bool → Bool → ℕ → Text → Text → Text → AddressState → Result AddressResp × AddressState
unfolding announce to_address_resp WatchedAddresses.create
create base store_fails redis_fails app_id chain address label s =
    let (wa, t) =
      WatchedAddresses.create
        (new_row app_id (to_upper chain) label (normalize base (codec_of chain) address)) s.table in
    let e = event_of AddressEventType.add wa.chain wa.address 0 in
    if store_fails then (err store_failed, s) else (
      ok (to_address_resp wa),
      announce redis_fails wa.chain (wa.address ∷ []) e (with_table t s),
    )

-- The loop of BatchCreate that drops empty and repeated addresses; `seen` are those before.
unfoldable pub valid_addresses : Base58 → Text → List Text → List Text → List Text
valid_addresses base chain seen [] = []
valid_addresses base chain seen (a ∷ as') =
    let addr = normalize base (codec_of chain) (trim_space a) in
    let skips = is_empty_text addr || any (λ x. text_eq x addr) seen in
    let rest = valid_addresses base chain (if skips then seen else addr ∷ seen) as' in
    if skips then rest else addr ∷ rest

abbrev pub batch_size : ℕ
batch_size = 500

-- The rows stored and the addresses refused.
pub record Stored : Type 0 where
  pub success : List AddressResp
  pub fail : List Text
  pub table : AddressTable

-- The loop over batches from batch number i; `batch_fails` are those that the store refuses.
unfoldable pub create_batches :
    (ℕ → Bool) → ℕ → Text → Text → ℕ → ℕ → List Text → AddressTable → Stored
unfolding to_address_resp WatchedAddresses.batch_create
create_batches batch_fails app_id chain label zero i as' t = record {
  success = [];
  fail = [];
  table = t;
}
create_batches batch_fails app_id chain label (suc fuel) i [] t = record {
  success = [];
  fail = [];
  table = t;
}
create_batches batch_fails app_id chain label (suc fuel) i (a ∷ as') t =
    let batch = take batch_size (a ∷ as') in
    let (rows, t') = WatchedAddresses.batch_create (map (new_row app_id chain label) batch) t in
    let rest =
      create_batches batch_fails app_id chain label fuel (i + 1) (drop batch_size (a ∷ as'))
        (if batch_fails i then t else t') in
    if batch_fails i
    then record { success = rest.success; fail = batch ++ rest.fail; table = rest.table }
    else record {
      success = map to_address_resp rows ++ rest.success;
      fail = rest.fail;
      table = rest.table;
    }

-- AddressService.BatchCreate; as many rounds as there are addresses are enough.
unfoldable pub batch_create :
    Base58
    → (ℕ → Bool)
    → Bool
    → ℕ
    → Text
    → List Text
    → Text
    → AddressState
    → Result BatchResp × AddressState
unfolding valid_addresses create_batches announce
batch_create base batch_fails redis_fails app_id chain addresses label s =
    let valid = valid_addresses base chain [] addresses in
    let c = to_upper chain in
    let done = create_batches batch_fails app_id c label (length valid) 0 valid s.table in
    let e = event_of AddressEventType.batch_add c [] (length done.success) in
    let s' = with_table done.table s in
    if is_empty valid then (err no_valid_address, s) else (
      ok (record { total = length valid; success = done.success; fail = done.fail }),
      (if is_empty done.success
          then s'
          else announce redis_fails c (map (λ r. r.address) done.success) e s'),
    )

-- AddressService.Delete
unfoldable pub delete : Bool → Bool → Bool → ℕ → ℕ → AddressState → Result Bool × AddressState
unfolding WatchedAddresses.delete WatchedAddresses.get_by_id sub_cache_key
delete get_fails store_fails redis_fails app_id id s =
    elim (if get_fails then none else WatchedAddresses.get_by_id id s.table) [
      | none ↦ (err address_not_found, s)
      | some wa ↦
          let s' = with_table (WatchedAddresses.delete id s.table) s in
          let e = event_of AddressEventType.remove wa.chain wa.address 0 in
          if wa.app_id == app_id
          then (if store_fails then (err store_failed, s) else (
            ok true,
            if redis_fails then s' else record s' {
              redis = record s.redis { hot = update_at wa.chain (srem wa.address) s.redis.hot };
              sub_cache = λ k.
                  if text_eq (sub_cache_key wa.chain wa.address) k then none else s.sub_cache k;
              events = s.events ++ e ∷ [];
            },
          ))
          else (err address_forbidden, s)
    ]

-- AddressService.GetByID
unfoldable pub get_by_id : Bool → ℕ → ℕ → AddressState → Result AddressResp
unfolding to_address_resp WatchedAddresses.get_by_id
get_by_id get_fails app_id id s =
    elim (if get_fails then none else WatchedAddresses.get_by_id id s.table) [
      | none ↦ err address_not_found
      | some wa ↦ if wa.app_id == app_id then ok (to_address_resp wa) else err address_forbidden
    ]

-- AddressService.List: the page, the number of rows, and the page and size used.
unfoldable pub list :
    (List WatchedAddress → List WatchedAddress)
    → Bool
    → ℕ
    → Text
    → ℤ
    → ℤ
    → AddressState
    → Result (List AddressResp × ℕ × ℕ × ℕ)
unfolding normalize_page to_address_resp
list order list_fails app_id chain page size s =
    let (page', size') = normalize_page page size in
    let (was, total) = list_by_app order app_id chain page' size' s.table in
    if list_fails then err store_failed else ok (map to_address_resp was, total, page', size')
