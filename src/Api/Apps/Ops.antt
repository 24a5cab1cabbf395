-- ===== src/Api/Apps/Ops.antt =====
-- The calls of AppService as one step on its state.
use address_monitor.Prelude.{
  ℕ, ◌≡◌, refl, Bool, true, false, not, ◌||◌, some, List, [], ◌∷◌, Text, if◌then◌else◌, ◌==◌,
  Bool-cases, Option-cases, inl, inr, arith,
}
use address_monitor.AddrCodec.{Base58}
use address_monitor.Store.Apps.{AllowedJson, App, get_by_id, update}
use address_monitor.Api.Result.{Result, ok, err, Result-cases}
use address_monitor.Api.Apps.{
  AppState, AppError, AppCall, check_duplicate, get_owned, get, new_app, create, renamed, with_key,
  with_secret, with_contracts, change, update_app, delete, reset_api_key, reset_secret,
  update_allowed_contracts, generate_api_key, generate_secret, raw_of, is_json, normalize_contracts,
}
use address_monitor.Api.Apps.Tidy.{IsTidy}
use address_monitor.Api.Apps.Laws.{
  IsNeutral, update-IsTidy, delete-IsTidy, rename-IsTidy, create-IsTidy, check_duplicate-IsFree,
}

-- A call on one app: Get, Update, Delete, ResetAPIKey, ResetSecret or UpdateAllowedContracts.
pub data AppOp : Type 0 where
  renames : Text → Text → AppOp
  reads deletes resets_key resets_secret : AppOp
  allows : List (Text × List Text) → AppOp

-- How a call answers, its value left out.
abbrev answer : {A : Type 0} → Result AppError A → Result AppError Bool
answer (err e) = err e
answer (ok a) = ok true

unfoldable pub apply : Base58 → AppCall → ℕ → ℕ → AppOp → AppState → Result AppError Bool × AppState
apply base c user_id app_id (AppOp.renames name url) s =
    let (r, s') = update_app c user_id app_id name url s in (answer r, s')
apply base c user_id app_id AppOp.reads s = (answer (get c user_id app_id s), s)
apply base c user_id app_id AppOp.deletes s = delete c user_id app_id s
apply base c user_id app_id AppOp.resets_key s =
    let (r, s') = reset_api_key c user_id app_id s in (answer r, s')
apply base c user_id app_id AppOp.resets_secret s =
    let (r, s') = reset_secret c user_id app_id s in (answer r, s')
apply base c user_id app_id (AppOp.allows req) s =
    update_allowed_contracts base c user_id app_id req s

apply_refused :
    (base : Base58) (c : AppCall) (user_id app_id : ℕ) (op : AppOp) (s : AppState) (e : AppError)
    → get_owned c user_id app_id s ≡ err e
    → apply base c user_id app_id op s ≡ (err e, s)
unfolding apply get update_app delete reset_api_key reset_secret update_allowed_contracts
apply_refused base c user_id app_id (AppOp.renames name url) s e h = rw (apply, update_app, h) refl
apply_refused base c user_id app_id AppOp.reads s e h = rw (apply, get, h) refl
apply_refused base c user_id app_id AppOp.deletes s e h = rw (delete, h) refl
apply_refused base c user_id app_id AppOp.resets_key s e h = rw (reset_api_key, h) refl
apply_refused base c user_id app_id AppOp.resets_secret s e h = rw (reset_secret, h) refl
apply_refused base c user_id app_id (AppOp.allows req) s e h = rw (update_allowed_contracts, h) refl

owned_other :
    (c : AppCall) (user_id app_id : ℕ) (s : AppState) (app : App)
    → get_by_id app_id s.apps ≡ some app
    → (app.user_id == user_id) ≡ false
    → get_owned c user_id app_id s
      ≡ err (if c.get_fails then AppError.app_not_found else AppError.app_forbidden)
unfolding get_owned
owned_other c user_id app_id s app e other = elim (Bool-cases c.get_fails) [
  | inl f ↦ rw (get_owned, f) refl
  | inr f ↦ rw (get_owned, f) (rw (get_owned, e) (rw other refl))
]

pub get_owned_ok :
    (c : AppCall) (user_id app_id : ℕ) (s : AppState) (app : App)
    → get_owned c user_id app_id s ≡ ok app
    → (get_by_id app_id s.apps ≡ some app) × ((app.user_id == user_id) ≡ true)
unfolding get_owned
get_owned_ok c user_id app_id s app h = ground arith

-- Whatever the call, an app that belongs to another user is refused, as not found if the query fails
-- and else as forbidden, and nothing changes.
pub apply_other :
    (base : Base58) (c : AppCall) (user_id app_id : ℕ) (op : AppOp) (s : AppState) (app : App)
    → get_by_id app_id s.apps ≡ some app
    → (app.user_id == user_id) ≡ false
    → apply base c user_id app_id op s
      ≡ (err (if c.get_fails then AppError.app_not_found else AppError.app_forbidden), s)
apply_other base c user_id app_id op s app e other =
    apply_refused base c user_id app_id op s _ (owned_other c user_id app_id s app e other)

-- The calls of the service but List, which changes nothing.
pub data Op : Type 0 where
  creates : ℕ → Text → Text → Op
  calls : ℕ → ℕ → AppOp → Op

unfoldable pub step : Base58 → AppCall → Op → AppState → AppState
step base c (Op.creates user_id name url) s = (create c user_id name url s).1
step base c (Op.calls user_id app_id op) s = (apply base c user_id app_id op s).1

unfoldable pub run : Base58 → List (AppCall × Op) → AppState → AppState
run base [] s = s
run base ((c, op) ∷ ops) s = run base ops (step base c op s)

change-IsTidy :
    (c : AppCall) (shows : Bool) (f : App → App) (app : App) (app_id : ℕ) (s : AppState)
    → IsTidy s.apps
    → IsTidy (update app_id f s.apps)
    → IsTidy (change c shows f app app_id s).1.apps
unfolding change
change-IsTidy c shows f app app_id s v w = elim (Bool-cases c.store_fails) [
  | inl e ↦ rw (change, e) v
  | inr e ↦ rw (change, e) w
]

step_create-IsTidy :
    (c : AppCall) (user_id : ℕ) (name url : Text) (s : AppState)
    → IsTidy s.apps
    → IsTidy (create c user_id name url s).1.apps
unfolding create new_app
step_create-IsTidy c user_id name url s v =
    elim (Option-cases (check_duplicate c user_id name url 0 s)) [
      | inr (x, e) ↦ rw (create, e) v
      | inl e ↦ elim (Bool-cases c.store_fails) [
        | inl f ↦ rw (create, e) (rw (create, f) v)
        | inr f ↦
            rw (create, e)
              (rw (create, f)
                (create-IsTidy (new_app c user_id name url) s.apps
                  (check_duplicate-IsFree c user_id name url 0 s e) v))
      ]
    ]

update_app-IsTidy :
    (c : AppCall) (user_id app_id : ℕ) (name url : Text) (app : App) (s : AppState)
    → get_owned c user_id app_id s ≡ ok app
    → IsTidy s.apps
    → IsTidy (update_app c user_id app_id name url s).1.apps
unfolding update_app
update_app-IsTidy c user_id app_id name url app s o v =
    elim (Option-cases (check_duplicate c user_id name url app_id s)) [
      | inr (x, e) ↦ rw (update_app, o) (rw (update_app, e) v)
      | inl e ↦
          let (found, mine) = get_owned_ok c user_id app_id s app o in
          rw (update_app, o)
            (rw (update_app, e)
              (change-IsTidy c false (renamed name url) app app_id s v (
                rename-IsTidy user_id app_id name url app s.apps found mine
                  (check_duplicate-IsFree c user_id name url app_id s e) v)))
    ]

-- Columns that the uniqueness of names and URLs does not read.
key-IsNeutral : (key : Text) → IsNeutral (with_key key)
key-IsNeutral key = record {
  id = λ a. refl;
  user_id = λ a. refl;
  status = λ a. refl;
  name = λ a. refl;
  callback_url = λ a. refl;
}

secret-IsNeutral : (secret : Text) → IsNeutral (with_secret secret)
secret-IsNeutral secret = record {
  id = λ a. refl;
  user_id = λ a. refl;
  status = λ a. refl;
  name = λ a. refl;
  callback_url = λ a. refl;
}

contracts-IsNeutral : (raw : AllowedJson) → IsNeutral (with_contracts raw)
contracts-IsNeutral raw = record {
  id = λ a. refl;
  user_id = λ a. refl;
  status = λ a. refl;
  name = λ a. refl;
  callback_url = λ a. refl;
}

owned-IsTidy :
    (base : Base58) (c : AppCall) (user_id app_id : ℕ) (op : AppOp) (s : AppState) (app : App)
    → get_owned c user_id app_id s ≡ ok app
    → IsTidy s.apps
    → IsTidy (apply base c user_id app_id op s).1.apps
unfolding apply delete reset_api_key reset_secret update_allowed_contracts
owned-IsTidy base c user_id app_id (AppOp.renames name url) s app o v =
    update_app-IsTidy c user_id app_id name url app s o v
owned-IsTidy base c user_id app_id AppOp.reads s app o v = v
owned-IsTidy base c user_id app_id AppOp.deletes s app o v = elim (Bool-cases c.store_fails) [
  | inl e ↦ rw (delete, o) (rw (delete, e) v)
  | inr e ↦ rw (delete, o) (rw (delete, e) (delete-IsTidy app_id s.apps v))
]
owned-IsTidy base c user_id app_id AppOp.resets_key s app o v =
    rw (reset_api_key, o)
      (change-IsTidy c true (with_key (generate_api_key c.uuid)) app app_id s v
        (update-IsTidy app_id _ s.apps (key-IsNeutral _) v))
owned-IsTidy base c user_id app_id AppOp.resets_secret s app o v =
    rw (reset_secret, o)
      (change-IsTidy c true (with_secret (generate_secret c.uuid)) app app_id s v
        (update-IsTidy app_id _ s.apps (secret-IsNeutral _) v))
owned-IsTidy base c user_id app_id (AppOp.allows req) s app o v =
    elim (Bool-cases (c.store_fails || not (is_json (raw_of (normalize_contracts base req []))))) [
      | inl e ↦ rw (update_allowed_contracts, o) (rw (update_allowed_contracts, e) v)
      | inr e ↦
          rw (update_allowed_contracts, o)
            (rw (update_allowed_contracts, e)
              (update-IsTidy app_id (with_contracts (raw_of (normalize_contracts base req [])))
                s.apps (contracts-IsNeutral _) v))
    ]

step-IsTidy :
    (base : Base58) (c : AppCall) (op : Op) (s : AppState)
    → IsTidy s.apps
    → IsTidy (step base c op s).apps
unfolding step
step-IsTidy base c (Op.creates user_id name url) s v = step_create-IsTidy c user_id name url s v
step-IsTidy base c (Op.calls user_id app_id op) s v =
    elim (Result-cases (get_owned c user_id app_id s)) [
      | inl (app, o) ↦ owned-IsTidy base c user_id app_id op s app o v
      | inr (e, o) ↦ rw (step, apply_refused base c user_id app_id op s e o) v
    ]

-- Over any calls of the service, keys stay unique, and no two active apps of a user have the same
-- name or the same callback URL that is not empty.
pub run-IsTidy :
    (base : Base58) (ops : List (AppCall × Op)) (s : AppState)
    → IsTidy s.apps
    → IsTidy (run base ops s).apps
unfolding run
run-IsTidy base [] s v = v
run-IsTidy base ((c, op) ∷ ops) s v =
    run-IsTidy base ops (step base c op s) (step-IsTidy base c op s v)
