-- ===== src/Dispatcher/Expander.antt =====
-- internal/dispatcher/expander.go: a matched event becomes one push task for each subscription.
-- Redis and the database are the state; the environment says which of their calls fail, those of
-- the loop by the subscription, and what the broker answers to each attempt of Publish. Cache
-- entries are dropped by their time to live between messages.
pub mod Laws
pub mod Served
use address_monitor.Prelude.{
  ℕ, zero, suc, Bool, true, false, Option, none, some, List, [], ◌∷◌, ◌++◌, ◌||◌, Text, bytes,
  text_eq, TextMap, lookup, insert, to_upper, to_lower, if◌then◌else◌, is_empty_text, is_empty,
  ◌==◌,
}
use address_monitor.Prelude.Int.{pos}
use address_monitor.Events.{NormalizedEvent}
use address_monitor.AddrCodec.{Base58, codec_of, normalize}
use address_monitor.Store.WatchedAddresses.{WatchedAddress, AddressTable, list_by_chain_address}
use address_monitor.Store.Apps.{AllowedJson, App, AppTable}
use address_monitor.Store.Apps
use address_monitor.Store.WebhookLogs.{WebhookLog, LogTable, pending, exists_by_event_and_address}
use address_monitor.Store.WebhookLogs
use address_monitor.Chain.ContractFilter.{passes}
use address_monitor.Dispatcher.Task.{DispatchTask, Delivery, Publishing}
use address_monitor.Mq.Publisher.{Attempt, publish}

-- The hash app_info:<id>; a field that HMGet does not find is nil.
pub record CachedApp : Type 0 where
  pub callback_url : Option Text
  pub secret : Option Text
  pub allowed_contracts : Option AllowedJson

pub record AppInfo : Type 0 where
  pub callback_url : Text
  pub secret : Text
  pub allowed_contracts : TextMap (List Text)

pub record ExpanderState : Type 0 where
  pub logs : LogTable
  pub addresses : AddressTable
  pub apps : AppTable
  pub sub_cache : Text → Option (List WatchedAddress)
  pub app_cache : ℕ → Option CachedApp
  pub published : List (Publishing DispatchTask)

pub record ExpanderEnv : Type 0 where
  pub base : Base58
  pub same : Text → Text → Bool
  pub redis_fails : Bool
  pub list_fails : Bool
  pub check_fails : WatchedAddress → Bool
  pub app_fails : WatchedAddress → Bool
  pub create_fails : WatchedAddress → Bool
  pub attempts : WatchedAddress → ℕ → Attempt

-- fmt.Sprintf("sub_cache:%s:%s", chain, addr)
unfoldable pub sub_cache_key : Text → Text → Text
sub_cache_key chain addr = bytes "sub_cache:" ++ (chain ++ (bytes ":" ++ addr))

abbrev pub put_text {ℓ} : {V : Type ℓ} → Text → V → (Text → Option V) → Text → Option V
put_text k v m j = if text_eq k j then some v else m j

abbrev pub put_id {ℓ} : {V : Type ℓ} → ℕ → V → (ℕ → Option V) → ℕ → Option V
put_id k v m j = if k == j then some v else m j

-- getWatchedAddresses after a miss of the cache.
unfoldable pub load_watched_addresses :
    ExpanderEnv → Text → Text → ExpanderState → List WatchedAddress × ExpanderState
load_watched_addresses env chain addr s =
    let was = list_by_chain_address env.same chain addr s.addresses in
    if env.list_fails || is_empty was then ([], s) else (
      was,
      if env.redis_fails
          then s
          else record s { sub_cache = put_text (sub_cache_key chain addr) was s.sub_cache },
    )

unfoldable pub get_watched_addresses :
    ExpanderEnv → Text → Text → ExpanderState → List WatchedAddress × ExpanderState
unfolding load_watched_addresses sub_cache_key
get_watched_addresses env chain address s =
    let addr = to_lower address in
    elim (if env.redis_fails then none else s.sub_cache (sub_cache_key chain addr)) [
      | some was ↦ (was, s)
      | none ↦ load_watched_addresses env chain addr s
    ]

-- The loop of parseAllowedContracts, over the entries in the order of the iteration.
unfoldable pub upper_keys : List (Text × List Text) → TextMap (List Text) → TextMap (List Text)
upper_keys [] result = result
upper_keys ((c, addrs) ∷ m) result = upper_keys m (insert (to_upper c) addrs result)

unfoldable pub parse_allowed_contracts : AllowedJson → TextMap (List Text)
unfolding upper_keys
parse_allowed_contracts AllowedJson.blank = []
parse_allowed_contracts AllowedJson.malformed = []
parse_allowed_contracts (AllowedJson.object m) = upper_keys m []

unfoldable pub is_contract_allowed : Base58 → TextMap (List Text) → Text → Text → Bool
is_contract_allowed base allowed chain contract =
    if is_empty_text contract || is_empty allowed
    then true
    else passes (lookup (to_upper chain) allowed) (normalize base (codec_of chain) contract)

-- HMGet: the cached info, if callback_url and secret are both there.
unfoldable pub cached_info : Option CachedApp → Option AppInfo
unfolding parse_allowed_contracts
cached_info none = none
cached_info (some c) = elim c.callback_url [
  | none ↦ none
  | some url ↦ elim c.secret [
    | none ↦ none
    | some secret ↦ some (record {
      callback_url = url;
      secret = secret;
      allowed_contracts = elim c.allowed_contracts [
        | none ↦ []
        | some raw ↦ parse_allowed_contracts raw
      ];
    })
  ]
]

unfoldable pub info_of : App → AppInfo
unfolding parse_allowed_contracts
info_of app = record {
  callback_url = app.callback_url;
  secret = app.secret;
  allowed_contracts = parse_allowed_contracts app.allowed_contracts;
}

unfoldable pub cache_of : App → CachedApp
cache_of app = record {
  callback_url = some app.callback_url;
  secret = some app.secret;
  allowed_contracts = some app.allowed_contracts;
}

-- getAppInfo; `fails` is the query's failure.
unfoldable pub get_app_info :
    ExpanderEnv → Bool → ℕ → ExpanderState → Option AppInfo × ExpanderState
unfolding cached_info info_of cache_of
get_app_info env fails id s =
    elim (if env.redis_fails then none else cached_info (s.app_cache id)) [
      | some info ↦ (some info, s)
      | none ↦ elim (if fails then none else Apps.get_by_id id s.apps) [
        | none ↦ (none, s)
        | some app ↦ (
          some (info_of app),
          if env.redis_fails
              then s
              else record s { app_cache = put_id id (cache_of app) s.app_cache },
        )
      ]
    ]

abbrev pub contract_of : NormalizedEvent → Text
contract_of e = elim e.asset [ none ↦ [] | some a ↦ a.contract_address ]

unfoldable pub task_of : NormalizedEvent → WatchedAddress → AppInfo → ℕ → DispatchTask
task_of event wa info log_id = record {
  webhook_log_id = log_id;
  app_id = wa.app_id;
  address_id = wa.id;
  callback_url = info.callback_url;
  secret = info.secret;
  event = event;
}

-- The row holds the task as it is before the row has a key.
unfoldable pub log_of : NormalizedEvent → WatchedAddress → AppInfo → WebhookLog
unfolding task_of
log_of event wa info = record {
  id = 0;
  event_id = event.event_id;
  app_id = wa.app_id;
  address_id = wa.id;
  chain = event.chain;
  tx_hash = event.tx_hash;
  event_type = event.event_type;
  payload = task_of event wa info 0;
  status = pending;
  retry_count = 0;
  callback_url = info.callback_url;
  response_code = none;
  response_body = none;
}

unfoldable pub publishing_of : DispatchTask → Publishing DispatchTask
publishing_of task = record {
  exchange = bytes "dispatch.exchange";
  routing_key = bytes "dispatch";
  body = task;
  retry_count = pos 0;
}

abbrev pub copies {ℓ} : {A : Type ℓ} → ℕ → A → List A
copies zero x = []
copies (suc n) x = x ∷ copies n x

-- The row is written first and the task published then, as often as Publish hands it over.
unfoldable pub create_and_publish :
    ExpanderEnv → NormalizedEvent → WatchedAddress → AppInfo → ExpanderState → ExpanderState
unfolding log_of publishing_of publish
create_and_publish env event wa info s =
    if env.create_fails wa
    then s
    else (let (id, logs) = WebhookLogs.create (log_of event wa info) s.logs in
        let p = publishing_of (task_of event wa info id) in
        record s {
          logs = logs;
          published = copies (publish (env.attempts wa)).sent p ++ s.published;
        })

unfoldable pub filter_and_create :
    ExpanderEnv → NormalizedEvent → WatchedAddress → Option AppInfo → ExpanderState → ExpanderState
unfolding create_and_publish is_contract_allowed
filter_and_create env event wa none s = s
filter_and_create env event wa (some info) s =
    if is_empty_text info.callback_url
    then s
    else if is_contract_allowed env.base info.allowed_contracts event.chain (contract_of event)
    then create_and_publish env event wa info s
    else s

-- One round of the loop of Handle.
unfoldable pub expand_one :
    ExpanderEnv → NormalizedEvent → WatchedAddress → ExpanderState → ExpanderState
unfolding filter_and_create get_app_info
expand_one env event wa s =
    if env.check_fails wa
    then s
    else if exists_by_event_and_address event.event_id wa.id s.logs
    then s
    else (let (info, s') = get_app_info env (env.app_fails wa) wa.app_id s in
        filter_and_create env event wa info s')

unfoldable pub expand_all :
    ExpanderEnv → NormalizedEvent → List WatchedAddress → ExpanderState → ExpanderState
expand_all env event [] s = s
expand_all env event (wa ∷ was) s = expand_all env event was (expand_one env event wa s)

unfoldable pub handle_event : ExpanderEnv → NormalizedEvent → ExpanderState → ExpanderState
unfolding get_watched_addresses expand_all
handle_event env event s =
    let (was, s') = get_watched_addresses env event.chain event.watched_address s in
    expand_all env event was s'

-- Expander.Handle; every branch acknowledges the message.
unfoldable pub expander_handle :
    ExpanderEnv → Delivery NormalizedEvent → ExpanderState → ExpanderState
unfolding handle_event
expander_handle env msg s = elim msg.body [ none ↦ s | some event ↦ handle_event env event s ]
