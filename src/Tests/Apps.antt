-- ===== src/Tests/Apps.antt =====
-- The application service at concrete inputs.
use address_monitor.Prelude.{
  ◌≡◌, refl, true, false, none, some, List, [], ◌∷◌, Text, bytes, ◌==◌, if◌then◌else◌,
}
use address_monitor.Store.Apps.{AllowedJson, App, get_by_id}
use address_monitor.Dispatcher.Expander.{
  AppInfo, get_app_info, is_contract_allowed, cache_of, cached_info, info_of,
}
use address_monitor.Api.Result.{ok, err}
use address_monitor.Api.Apps.{
  AppState, AppCall, AppError, AppResp, update_allowed_contracts, reset_secret, generate_secret,
}
use address_monitor.Api.Apps.Tidy.{IsTidy}
use address_monitor.Api.Apps.Ops.{AppOp, Op, apply, apply_other, run, run-IsTidy}
use address_monitor.Api.Apps.Stored.{allows}
use address_monitor.Api.Apps.Whitelist.{
  seen, update_allowed_contracts_reaches_expander, reset_secret_stale,
}
use address_monitor.Tests.Samples.{base}
use address_monitor.Tests.Expander.{env, fresh}

abbrev app : App
app = record {
  id = 1;
  user_id = 7;
  name = bytes "shop";
  api_key = bytes "ak";
  secret = bytes "sk";
  callback_url = bytes "http://a";
  allowed_contracts = AllowedJson.blank;
  status = 1;
}

abbrev app_state : AppState
app_state = record {
  apps = record { rows = app ∷ []; next_id = 2 };
  app_cache = λ k. if k == 1 then some (cache_of app) else none;
}

abbrev call : Text → AppCall
call uuid = record {
  uuid = uuid;
  other_uuid = bytes "x";
  get_fails = false;
  name_fails = false;
  url_fails = false;
  store_fails = false;
  redis_fails = false;
}

abbrev app_state-IsTidy : IsTidy app_state.apps
app_state-IsTidy = record {
  ids = refl;
  below = refl;
  positive = refl;
  next = refl;
  names = refl;
  urls = refl;
}

abbrev ops : List (AppCall × Op)
ops =
    (call (bytes "1"), Op.creates 7 (bytes "shop") (bytes "http://b"))
    ∷ (call (bytes "2"), Op.creates 7 (bytes "blog") (bytes "http://b"))
    ∷ (call (bytes "3"), Op.calls 7 2 (AppOp.renames (bytes "shop") []))
    ∷ (call (bytes "4"), Op.calls 7 1 AppOp.deletes)
    ∷ (call (bytes "5"), Op.calls 7 2 (AppOp.renames (bytes "shop") []))
    ∷ []

run-IsTidy_example : IsTidy (run base ops app_state).apps
run-IsTidy_example = run-IsTidy base ops app_state app_state-IsTidy

apply_other_example :
    apply base (call (bytes "1")) 8 1 AppOp.resets_secret app_state
    ≡ (err AppError.app_forbidden, app_state)
unfolding get_by_id
apply_other_example =
    apply_other base (call (bytes "1")) 8 1 AppOp.resets_secret app_state app refl refl

abbrev request : List (Text × List Text)
request = (bytes "eth", bytes "0xAA" ∷ []) ∷ []

update_allowed_contracts_reaches_expander_example :
    ((update_allowed_contracts base (call (bytes "1")) 7 1 request app_state).0 ≡ ok true)
    × (info : AppInfo) × ((get_app_info env false 1
          (seen fresh (update_allowed_contracts base (call (bytes "1")) 7 1 request app_state).1)).0
        ≡ some info)
    × (is_contract_allowed base info.allowed_contracts (bytes "ETH") (bytes "0xaa")
        ≡ allows base request (bytes "ETH") (bytes "0xaa"))
    × (update_allowed_contracts base (call (bytes "1")) 7 1 [] app_state
        ≡ (err AppError.store_failed, app_state))
unfolding get_by_id
update_allowed_contracts_reaches_expander_example =
    update_allowed_contracts_reaches_expander base (call (bytes "1")) 7 1 request app_state app env
      fresh (bytes "ETH") (bytes "0xaa") refl refl refl refl refl refl

reset_secret_stale_example :
    (r : AppResp) × ((reset_secret (call (bytes "9")) 7 1 app_state).0 ≡ ok r)
    × (r.secret ≡ generate_secret (bytes "9"))
    × (a : App) × (get_by_id 1 (reset_secret (call (bytes "9")) 7 1 app_state).1.apps ≡ some a)
    × (a.secret ≡ generate_secret (bytes "9"))
    × ((get_app_info env false 1 (seen fresh (reset_secret (call (bytes "9")) 7 1 app_state).1)).0
        ≡ some (info_of app))
unfolding get_by_id cached_info cache_of info_of
reset_secret_stale_example =
    reset_secret_stale (call (bytes "9")) 7 1 app_state app (info_of app) env false fresh refl refl
      refl refl refl refl
