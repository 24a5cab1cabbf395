-- ===== src/Api/Apps/Whitelist.antt =====
-- What the expander sees of an app after AppService has changed it.
use address_monitor.Prelude.{
  ℕ, ◌≡◌, refl, Bool, true, false, none, some, List, [], is_empty, Text, ◌==◌, ==_self, Bool-cases,
  inl, inr, first_passes, first-update_if,
}
use address_monitor.AddrCodec.{Base58}
use address_monitor.Store.Apps.{App, AppTable, get_by_id, update}
use address_monitor.Dispatcher.Expander.{
  AppInfo, ExpanderEnv, ExpanderState, get_app_info, info_of, is_contract_allowed, cached_info,
}
use address_monitor.Api.Result.{ok, err}
use address_monitor.Api.Apps.{
  AppState, AppCall, AppError, AppResp, get_owned, normalize_contracts, with_contracts, with_secret,
  drop_id, update_allowed_contracts, reset_secret, change, generate_secret, to_app_resp,
}
use address_monitor.Api.Apps.Stored.{allows, stored, is_contract_allowed-stored, is_json-stored}

-- The row behind an update, for the app that was read.
get_by_id-update :
    (id : ℕ) (f : App → App) (app : App) (t : AppTable)
    → ((a : App) → (f a).id ≡ a.id)
    → get_by_id id t ≡ some app
    → get_by_id id (update id f t) ≡ some (f app)
unfolding get_by_id update
get_by_id-update id f app t keeps h =
    rw (first-update_if (λ a. a.id == id) (λ a. a.id == id) f (λ a. rw (keeps a) refl) t.rows app h)
      (rw (first_passes (λ a. a.id == id) t.rows app h) refl)

-- The expander's view of the stores of the service.
abbrev pub seen : ExpanderState → AppState → ExpanderState
seen x s = record x { apps = s.apps; app_cache = s.app_cache }

get_app_info_fresh :
    (env : ExpanderEnv) (id : ℕ) (x : ExpanderState) (app : App)
    → x.app_cache id ≡ none
    → get_by_id id x.apps ≡ some app
    → (get_app_info env false id x).0 ≡ some (info_of app)
unfolding get_app_info cached_info
get_app_info_fresh env id x app c e = elim (Bool-cases env.redis_fails) [
  | inl f ↦ rw (get_app_info, f) (rw (get_app_info, e) refl)
  | inr f ↦ rw (get_app_info, f) (rw (get_app_info, c) (rw (get_app_info, e) refl))
]

get_owned_found :
    (c : AppCall) (user_id app_id : ℕ) (s : AppState) (app : App)
    → c.get_fails ≡ false
    → get_by_id app_id s.apps ≡ some app
    → (app.user_id == user_id) ≡ true
    → get_owned c user_id app_id s ≡ ok app
unfolding get_owned
get_owned_found c user_id app_id s app f e o = rw (get_owned, f) (rw (get_owned, e) (rw o refl))

update_allowed_contracts_ok :
    (base : Base58) (c : AppCall) (user_id app_id : ℕ) (req : List (Text × List Text))
    → (s : AppState) (app : App) → is_empty req ≡ false
    → c.get_fails ≡ false
    → c.store_fails ≡ false
    → c.redis_fails ≡ false
    → get_by_id app_id s.apps ≡ some app
    → (app.user_id == user_id) ≡ true
    → update_allowed_contracts base c user_id app_id req s ≡ (
      ok true,
      record s {
        apps = update app_id (with_contracts (stored base req)) s.apps;
        app_cache = drop_id app_id s.app_cache;
      },
    )
unfolding update_allowed_contracts
update_allowed_contracts_ok base c user_id app_id req s app filled g w r e o =
    rw (update_allowed_contracts, get_owned_found c user_id app_id s app g e o)
      (rw (update_allowed_contracts, w) (rw (is_json-stored base req, filled) (rw r refl)))

-- The empty text of an empty request is no JSON.
update_allowed_contracts_empty :
    (base : Base58) (c : AppCall) (user_id app_id : ℕ) (s : AppState) (app : App)
    → get_owned c user_id app_id s ≡ ok app
    → update_allowed_contracts base c user_id app_id [] s ≡ (err AppError.store_failed, s)
unfolding update_allowed_contracts normalize_contracts
update_allowed_contracts_empty base c user_id app_id s app o = elim (Bool-cases c.store_fails) [
  | inl w ↦ rw (update_allowed_contracts, o) (rw (update_allowed_contracts, w) refl)
  | inr w ↦ rw (update_allowed_contracts, o) (rw (update_allowed_contracts, w) refl)
]

reset_secret_ok :
    (c : AppCall) (user_id app_id : ℕ) (s : AppState) (app : App)
    → c.get_fails ≡ false
    → c.store_fails ≡ false
    → get_by_id app_id s.apps ≡ some app
    → (app.user_id == user_id) ≡ true
    → reset_secret c user_id app_id s ≡ (
      ok (to_app_resp true (with_secret (generate_secret c.uuid) app)),
      record s { apps = update app_id (with_secret (generate_secret c.uuid)) s.apps },
    )
unfolding reset_secret change
reset_secret_ok c user_id app_id s app g w e o =
    rw (reset_secret, get_owned_found c user_id app_id s app g e o) (rw w refl)

-- A request with entries to change the whitelist of an own app, when the stores and Redis work: it
-- answers, and the expander, whatever it had cached, then reads the app, and lets a contract of a
-- chain pass exactly if the request allows it. A request without entries fails and changes nothing.
pub update_allowed_contracts_reaches_expander :
    (base : Base58) (c : AppCall) (user_id app_id : ℕ) (req : List (Text × List Text))
    → (s : AppState) (app : App) (env : ExpanderEnv) (x : ExpanderState) (chain contract : Text)
    → is_empty req ≡ false
    → c.get_fails ≡ false
    → c.store_fails ≡ false
    → c.redis_fails ≡ false
    → get_by_id app_id s.apps ≡ some app
    → (app.user_id == user_id) ≡ true
    → ((update_allowed_contracts base c user_id app_id req s).0 ≡ ok true)
      × (info : AppInfo) × ((get_app_info env false app_id
            (seen x (update_allowed_contracts base c user_id app_id req s).1)).0
          ≡ some info)
      × (is_contract_allowed base info.allowed_contracts chain contract
          ≡ allows base req chain contract)
      × (update_allowed_contracts base c user_id app_id [] s ≡ (err AppError.store_failed, s))
unfolding info_of
update_allowed_contracts_reaches_expander base c user_id app_id req s app env x chain contract
      filled g w r e o =
    let f = with_contracts (stored base req) in
    let s' : AppState = record {
      apps = update app_id f s.apps;
      app_cache = drop_id app_id s.app_cache;
    } in
    rw (update_allowed_contracts_ok base c user_id app_id req s app filled g w r e o) (
      refl,
      info_of (f app),
      get_app_info_fresh env app_id (seen x s') (f app) (rw (==_self app_id) refl)
          (get_by_id-update app_id f app s.apps (λ a. refl) e),
      is_contract_allowed-stored base req chain contract,
      update_allowed_contracts_empty base c user_id app_id s app
          (get_owned_found c user_id app_id s app g e o),
    )

-- A new secret of an own app, when the stores work, is in the table and in the answer, but the
-- expander goes on with the cached secret as long as Redis has it.
pub reset_secret_stale :
    (c : AppCall) (user_id app_id : ℕ) (s : AppState) (app : App) (info : AppInfo)
    → (env : ExpanderEnv) (fails : Bool) (x : ExpanderState) → c.get_fails ≡ false
    → c.store_fails ≡ false
    → env.redis_fails ≡ false
    → get_by_id app_id s.apps ≡ some app
    → (app.user_id == user_id) ≡ true
    → cached_info (s.app_cache app_id) ≡ some info
    → (r : AppResp) × ((reset_secret c user_id app_id s).0 ≡ ok r)
      × (r.secret ≡ generate_secret c.uuid)
      × (a : App) × (get_by_id app_id (reset_secret c user_id app_id s).1.apps ≡ some a)
      × (a.secret ≡ generate_secret c.uuid)
      × ((get_app_info env fails app_id (seen x (reset_secret c user_id app_id s).1)).0 ≡ some info)
unfolding to_app_resp get_app_info
reset_secret_stale c user_id app_id s app info env fails x g w r e o cached =
    let f = with_secret (generate_secret c.uuid) in
    rw (reset_secret_ok c user_id app_id s app g w e o) (
      to_app_resp true (f app),
      refl,
      refl,
      f app,
      get_by_id-update app_id f app s.apps (λ a. refl) e,
      refl,
      rw (get_app_info, r) (rw (get_app_info, cached) refl),
    )
