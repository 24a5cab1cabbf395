-- ===== src/Dispatcher/Expander/Laws.antt =====
-- Laws of expander_handle and of expand_one, the body of its loop.
use address_monitor.Prelude.{
  ℕ, zero, suc, ◌+◌, ◌*◌, ◌≡◌, ◌∙◌, ◌≤◌, refl, text_eq_self, ==_self, Bool, true, false, ◌&&◌,
  Option, none, some, List, [], ◌∷◌, ◌++◌, Text, text_eq, text_eq_iff, if◌then◌else◌, is_empty_text,
  ◌==◌, arith, length, select, any, Bool-cases, inl, inr,
}
use address_monitor.Events.{NormalizedEvent}
use address_monitor.Store.WatchedAddresses.{WatchedAddress}
use address_monitor.Store.WebhookLogs.{
  WebhookLog, LogTable, exists_by_event_and_address, is_event_address,
}
use address_monitor.Store.WebhookLogs
use address_monitor.Mq.Publisher.{publish, publish_bounded}
use address_monitor.Store.Apps.{App}
use address_monitor.Store.Apps
use address_monitor.Dispatcher.Task.{DispatchTask, Delivery, Publishing}
use address_monitor.Dispatcher.Expander.{
  ExpanderEnv, ExpanderState, AppInfo, expand_one, expand_all, expander_handle, handle_event,
  get_watched_addresses, get_app_info, filter_and_create, create_and_publish, log_of, task_of,
  publishing_of, load_watched_addresses, is_contract_allowed, contract_of, parse_allowed_contracts,
  info_of, cached_info, copies,
}

-- Whether a publication is of a task for an event and a subscription.
abbrev pub is_for : Text → ℕ → Publishing DispatchTask → Bool
is_for event_id address_id p =
    text_eq p.body.event.event_id event_id && (p.body.address_id == address_id)

abbrev pub log_count : Text → ℕ → ExpanderState → ℕ
log_count e a s = length (select (is_event_address e a) s.logs.rows)

abbrev pub task_count : Text → ℕ → ExpanderState → ℕ
task_count e a s = length (select (is_for e a) s.published)

-- For every event and subscription there are at most one row and at most three tasks for each row.
abbrev pub IsOnce : ExpanderState → Type 0
IsOnce s = (e : Text) (a : ℕ) → (task_count e a s ≤ 3 * log_count e a s) × (log_count e a s ≤ 1)

length-select-copies :
    (p : Publishing DispatchTask → Bool) (n : ℕ) (x : Publishing DispatchTask)
    (xs : List (Publishing DispatchTask))
    → length (select p (copies n x ++ xs)) ≡ (if p x then n else 0) + length (select p xs)
length-select-copies p zero x xs = ground arith
length-select-copies p (suc n) x xs = ground (arith, length-select-copies p n x xs)

length-select-snoc :
    (p : WebhookLog → Bool) (xs : List WebhookLog) (x : WebhookLog)
    → length (select p (xs ++ x ∷ [])) ≡ length (select p xs) + (if p x then 1 else 0)
length-select-snoc p [] x = ground arith
length-select-snoc p (y ∷ xs) x = ground (arith, length-select-snoc p xs x)

none_found :
    (p : WebhookLog → Bool) (xs : List WebhookLog) → any p xs ≡ false → length (select p xs) ≡ 0
none_found p [] h = refl
none_found p (x ∷ xs) h = ground (arith, none_found p xs)

create_and_publish-IsOnce :
    (env : ExpanderEnv) (event : NormalizedEvent) (wa : WatchedAddress) (info : AppInfo)
    (s : ExpanderState)
    → exists_by_event_and_address event.event_id wa.id s.logs ≡ false
    → IsOnce s
    → IsOnce (create_and_publish env event wa info s)
unfolding create_and_publish exists_by_event_and_address WebhookLogs.create
create_and_publish-IsOnce env event wa info s fresh once e a =
    let row = log_of event wa info in
    let task = publishing_of (task_of event wa info s.logs.next_id) in
    let run = publish (env.attempts wa) in
    ground (
      arith,
      once e a,
      length-select-copies (is_for e a) run.sent task s.published,
      (publish_bounded (env.attempts wa)).1,
      length-select-snoc (is_event_address e a) s.logs.rows (record row { id = s.logs.next_id }),
      none_found (is_event_address e a) s.logs.rows,
      text_eq_iff event.event_id e,
    )

-- Reading the app changes neither the rows nor the tasks.
get_app_info_keeps :
    (env : ExpanderEnv) (fails : Bool) (id : ℕ) (s : ExpanderState)
    → ((get_app_info env fails id s).1.logs ≡ s.logs)
      × ((get_app_info env fails id s).1.published ≡ s.published)
unfolding get_app_info
get_app_info_keeps env fails id s = ground arith

IsOnce-of_same :
    (s t : ExpanderState) → t.logs ≡ s.logs → t.published ≡ s.published → IsOnce s → IsOnce t
IsOnce-of_same s t l p once e a = rw (l, p) (once e a)

filter_and_create-IsOnce :
    (env : ExpanderEnv) (event : NormalizedEvent) (wa : WatchedAddress) (info : Option AppInfo)
    (s : ExpanderState)
    → exists_by_event_and_address event.event_id wa.id s.logs ≡ false
    → IsOnce s
    → IsOnce (filter_and_create env event wa info s)
unfolding filter_and_create
filter_and_create-IsOnce env event wa none s fresh once = once
filter_and_create-IsOnce env event wa (some info) s fresh once =
    elim (Bool-cases (is_empty_text info.callback_url)) [
      | inl e ↦ rw e once
      | inr e ↦
          rw e
            (elim (Bool-cases (
              is_contract_allowed env.base info.allowed_contracts event.chain
                (contract_of event))) [
                  | inl ok ↦ rw ok (create_and_publish-IsOnce env event wa info s fresh once)
                  | inr no_entry ↦ rw no_entry once
                ])
    ]

pub expand_one-IsOnce :
    (env : ExpanderEnv) (event : NormalizedEvent) (wa : WatchedAddress) (s : ExpanderState)
    → IsOnce s
    → IsOnce (expand_one env event wa s)
unfolding expand_one
expand_one-IsOnce env event wa s once = elim (Bool-cases (env.check_fails wa)) [
  | inl e ↦ rw e once
  | inr e ↦ rw e (elim (Bool-cases (exists_by_event_and_address event.event_id wa.id s.logs)) [
    | inl found ↦ rw found once
    | inr fresh ↦
        let (l, p) = get_app_info_keeps env (env.app_fails wa) wa.app_id s in
        rw fresh (
          filter_and_create-IsOnce env event wa (get_app_info env (env.app_fails wa) wa.app_id s).0
            (get_app_info env (env.app_fails wa) wa.app_id s).1 (rw l fresh)
            (IsOnce-of_same s (get_app_info env (env.app_fails wa) wa.app_id s).1 l p once))
  ])
]

expand_all-IsOnce :
    (env : ExpanderEnv) (event : NormalizedEvent) (was : List WatchedAddress) (s : ExpanderState)
    → IsOnce s
    → IsOnce (expand_all env event was s)
unfolding expand_all
expand_all-IsOnce env event [] s once = once
expand_all-IsOnce env event (wa ∷ was) s once =
    expand_all-IsOnce env event was (expand_one env event wa s)
      (expand_one-IsOnce env event wa s once)

get_watched_addresses_keeps :
    (env : ExpanderEnv) (chain address : Text) (s : ExpanderState)
    → ((get_watched_addresses env chain address s).1.logs ≡ s.logs)
      × ((get_watched_addresses env chain address s).1.published ≡ s.published)
unfolding get_watched_addresses load_watched_addresses
get_watched_addresses_keeps env chain address s = ground arith

handle_event-IsOnce :
    (env : ExpanderEnv) (event : NormalizedEvent) (s : ExpanderState)
    → IsOnce s
    → IsOnce (handle_event env event s)
unfolding handle_event
handle_event-IsOnce env event s once =
    let (l, p) = get_watched_addresses_keeps env event.chain event.watched_address s in
    let r = get_watched_addresses env event.chain event.watched_address s in
    expand_all-IsOnce env event r.0 r.1 (IsOnce-of_same s r.1 l p once)

body-IsOnce :
    (env : ExpanderEnv) (body : Option NormalizedEvent) (s : ExpanderState)
    → IsOnce s
    → IsOnce (elim body [ none ↦ s | some event ↦ handle_event env event s ])
body-IsOnce env none s once = once
body-IsOnce env (some event) s once = handle_event-IsOnce env event s once

-- Handling a message, whatever fails in it, keeps every event and subscription at one row of
-- webhook_logs at most, and at three messages to the sender at most, as many as the attempts of
-- one call of Publish.
pub expander_handle-IsOnce :
    (env : ExpanderEnv) (msg : Delivery NormalizedEvent) (s : ExpanderState)
    → IsOnce s
    → IsOnce (expander_handle env msg s)
unfolding expander_handle
expander_handle-IsOnce env msg s once = body-IsOnce env msg.body s once

row_blocks :
    (env : ExpanderEnv) (event : NormalizedEvent) (wa : WatchedAddress) (s : ExpanderState)
    → exists_by_event_and_address event.event_id wa.id s.logs ≡ true
    → expand_one env event wa s ≡ s
unfolding expand_one
row_blocks env event wa s h = rw h (ground arith)

-- A subscription without a row for the event, whose app is in the table and not in the cache, with
-- a callback URL and a whitelist that lets the event's contract pass, while the calls of the
-- database succeed.
pub record IsServed (env : ExpanderEnv) (event : NormalizedEvent) (wa : WatchedAddress) (app : App)
    (s : ExpanderState) : Type 0 where
  pub check : env.check_fails wa ≡ false
  pub read : env.app_fails wa ≡ false
  pub create : env.create_fails wa ≡ false
  pub fresh : exists_by_event_and_address event.event_id wa.id s.logs ≡ false
  pub uncached : s.app_cache wa.app_id ≡ none
  pub found : Apps.get_by_id wa.app_id s.apps ≡ some app
  pub url : is_empty_text app.callback_url ≡ false
  pub allowed :
      is_contract_allowed env.base
        (parse_allowed_contracts app.allowed_contracts)
        event.chain
        (contract_of event)
      ≡ true

get_app_info_read :
    (env : ExpanderEnv) (id : ℕ) (s : ExpanderState) (app : App)
    → s.app_cache id ≡ none
    → Apps.get_by_id id s.apps ≡ some app
    → (get_app_info env false id s).0 ≡ some (info_of app)
unfolding get_app_info cached_info
get_app_info_read env id s app c e = elim (Bool-cases env.redis_fails) [
  | inl f ↦ rw (get_app_info, f) (rw (get_app_info, e) refl)
  | inr f ↦ rw (get_app_info, f) (rw (get_app_info, c) (rw (get_app_info, e) refl))
]

-- The row and the messages of a subscription that is served.
pub expand_one-served :
    (env : ExpanderEnv) (event : NormalizedEvent) (wa : WatchedAddress) (app : App)
    (s : ExpanderState)
    → IsServed env event wa app s
    → let s' = expand_one env event wa s in
      let info = info_of app in
      let row = log_of event wa info in
      let task = task_of event wa info s.logs.next_id in
      (s'.logs.rows ≡ s.logs.rows ++ record row { id = s.logs.next_id } ∷ [])
      × (s'.published ≡ copies (publish (env.attempts wa)).sent (publishing_of task) ++ s.published)
unfolding expand_one filter_and_create create_and_publish WebhookLogs.create info_of
expand_one-served env event wa app s h =
    let (l, p) = get_app_info_keeps env false wa.app_id s in
    rw
      (
        h.check,
        h.fresh,
        h.read,
        get_app_info_read env wa.app_id s app h.uncached h.found,
        h.url,
        h.allowed,
        h.create,
        l,
        p,
      )
      (refl, refl)

any-snoc :
    (p : WebhookLog → Bool) (xs : List WebhookLog) (x : WebhookLog)
    → p x ≡ true
    → any p (xs ++ x ∷ []) ≡ true
any-snoc p [] x h = ground arith
any-snoc p (y ∷ xs) x h = ground (arith, any-snoc p xs x)

row_written :
    (env : ExpanderEnv) (event : NormalizedEvent) (wa : WatchedAddress) (app : App)
    (s : ExpanderState)
    → IsServed env event wa app s
    → exists_by_event_and_address event.event_id wa.id (expand_one env event wa s).logs ≡ true
unfolding exists_by_event_and_address log_of
row_written env event wa app s h = rw ((expand_one-served env event wa app s h).0) (
    any-snoc (is_event_address event.event_id wa.id) s.logs.rows _
      (rw (text_eq_self event.event_id, ==_self wa.id) refl))

-- If a subscription is served but Publish hands nothing over, its row is written and no message is
-- sent, and from then on no round for the event and the subscription, whatever works in it, sends
-- a message or changes anything.
pub unpublished_is_lost :
    (env env' : ExpanderEnv) (event : NormalizedEvent) (wa : WatchedAddress) (app : App)
    (s : ExpanderState)
    → IsServed env event wa app s
    → (publish (env.attempts wa)).sent ≡ 0
    → let s' = expand_one env event wa s in
      (exists_by_event_and_address event.event_id wa.id s'.logs ≡ true)
      × (s'.published ≡ s.published)
      × (expand_one env' event wa s' ≡ s')
unfolding publishing_of
unpublished_is_lost env env' event wa app s h nothing =
    let row = row_written env event wa app s h in
    let sent = (expand_one-served env event wa app s h).1 in
    (row, sent ∙ rw nothing refl, row_blocks env' event wa (expand_one env event wa s) row)
