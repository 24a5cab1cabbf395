-- ===== src/Api/Apps.antt =====
-- internal/api/service/app.go. The random texts of a call and the errors of its queries and
-- statements are values that the call gets. The whitelist of a request is a list of the entries of
-- its map, in the order in which the loop visits them.
pub mod Tidy
pub mod Laws
pub mod Ops
pub mod Stored
pub mod Whitelist
use address_monitor.Prelude.{
  ℕ, Bool, true, false, Option, none, some, List, [], ◌∷◌, ◌++◌, map, ◌&&◌, ◌||◌, not, Text,
  TextMap, insert, bytes, to_upper, is_empty_text, is_empty, if◌then◌else◌, ◌==◌,
}
use address_monitor.AddrCodec.{Base58, codec_of, normalize}
use address_monitor.Store.Apps.{
  AllowedJson, App, AppTable, get_by_id, list_by_user_id, name_exists, callback_url_exists, update,
}
use address_monitor.Store.Apps
use address_monitor.Dispatcher.Expander.{CachedApp}
use address_monitor.Api.Result.{Result, ok, err}

-- The table, and the hashes app_info:<id> of the dispatcher.
pub record AppState : Type 0 where
  pub apps : AppTable
  pub app_cache : ℕ → Option CachedApp

pub data AppError : Type 0 where
  app_not_found app_forbidden app_name_exists app_callback_url_exists store_failed : AppError

pub record AppCall : Type 0 where
  pub uuid : Text
  pub other_uuid : Text
  pub get_fails : Bool
  pub name_fails : Bool
  pub url_fails : Bool
  pub store_fails : Bool
  pub redis_fails : Bool

pub record AppResp : Type 0 where
  pub id : ℕ
  pub name : Text
  pub api_key : Text
  pub secret : Text
  pub callback_url : Text
  pub allowed_contracts : List (Text × List Text)
  pub status : ℕ

abbrev entries_of : AllowedJson → List (Text × List Text)
entries_of AllowedJson.blank = []
entries_of AllowedJson.malformed = []
entries_of (AllowedJson.object m) = m

unfoldable pub to_app_resp : Bool → App → AppResp
to_app_resp with_secret app = record {
  id = app.id;
  name = app.name;
  api_key = app.api_key;
  secret = if with_secret then app.secret else [];
  callback_url = app.callback_url;
  allowed_contracts = entries_of app.allowed_contracts;
  status = app.status;
}

-- generateAPIKey and generateSecret
unfoldable pub generate_api_key : Text → Text
generate_api_key uuid = bytes "ak_" ++ uuid

unfoldable pub generate_secret : Text → Text
generate_secret uuid = bytes "sk_" ++ uuid

-- The second check of checkDuplicate.
unfoldable pub check_callback_url : AppCall → ℕ → Text → ℕ → AppState → Option AppError
unfolding callback_url_exists
check_callback_url c user_id url exclude s =
    if is_empty_text url
    then none
    else if c.url_fails
    then some store_failed
    else if callback_url_exists user_id url exclude s.apps
    then some app_callback_url_exists
    else none

-- checkDuplicate: none if nothing is repeated.
unfoldable pub check_duplicate : AppCall → ℕ → Text → Text → ℕ → AppState → Option AppError
unfolding check_callback_url name_exists
check_duplicate c user_id name url exclude s =
    if is_empty_text name
    then check_callback_url c user_id url exclude s
    else if c.name_fails
    then some store_failed
    else if name_exists user_id name exclude s.apps
    then some app_name_exists
    else check_callback_url c user_id url exclude s

-- getOwned
unfoldable pub get_owned : AppCall → ℕ → ℕ → AppState → Result AppError App
unfolding get_by_id
get_owned c user_id app_id s = elim (if c.get_fails then none else get_by_id app_id s.apps) [
  | none ↦ err app_not_found
  | some app ↦ if app.user_id == user_id then ok app else err app_forbidden
]

unfoldable pub new_app : AppCall → ℕ → Text → Text → App
unfolding generate_api_key generate_secret
new_app c user_id name url = record {
  id = 0;
  user_id = user_id;
  name = name;
  api_key = generate_api_key c.uuid;
  secret = generate_secret c.other_uuid;
  callback_url = url;
  allowed_contracts = AllowedJson.blank;
  status = 1;
}

unfoldable pub create : AppCall → ℕ → Text → Text → AppState → Result AppError AppResp × AppState
unfolding check_duplicate to_app_resp Apps.create new_app
create c user_id name url s = elim (check_duplicate c user_id name url 0 s) [
  | some e ↦ (err e, s)
  | none ↦
      let (row, t) = Apps.create (new_app c user_id name url) s.apps in
      if c.store_fails
      then (err store_failed, s)
      else (ok (to_app_resp true row), record s { apps = t })
]

unfoldable pub list : (List App → List App) → Bool → ℕ → AppState → Result AppError (List AppResp)
unfolding list_by_user_id to_app_resp
list order list_fails user_id s =
    if list_fails
    then err store_failed
    else ok (map (to_app_resp false) (list_by_user_id order user_id s.apps))

unfoldable pub get : AppCall → ℕ → ℕ → AppState → Result AppError AppResp
unfolding get_owned to_app_resp
get c user_id app_id s = elim (get_owned c user_id app_id s) [
  | err e ↦ err e
  | ok app ↦ ok (to_app_resp false app)
]

-- The columns that a request changes: those that it does not leave empty.
abbrev pub renamed : Text → Text → App → App
renamed name url app = record app {
  name = if is_empty_text name then app.name else name;
  callback_url = if is_empty_text url then app.callback_url else url;
}

abbrev pub with_key : Text → App → App
with_key key app = record app { api_key = key }

abbrev pub with_secret : Text → App → App
with_secret secret app = record app { secret = secret }

abbrev pub with_contracts : AllowedJson → App → App
with_contracts raw app = record app { allowed_contracts = raw }

-- A statement on the row of an app that was read, and the answer from the copy that was read.
unfoldable pub change :
    AppCall → Bool → (App → App) → App → ℕ → AppState → Result AppError AppResp × AppState
unfolding update to_app_resp
change c shows f app app_id s =
    if c.store_fails
    then (err store_failed, s)
    else (ok (to_app_resp shows (f app)), record s { apps = update app_id f s.apps })

unfoldable pub update_app :
    AppCall → ℕ → ℕ → Text → Text → AppState → Result AppError AppResp × AppState
unfolding get_owned check_duplicate change
update_app c user_id app_id name url s = elim (get_owned c user_id app_id s) [
  | err e ↦ (err e, s)
  | ok app ↦ elim (check_duplicate c user_id name url app_id s) [
    | some e ↦ (err e, s)
    | none ↦ change c false (renamed name url) app app_id s
  ]
]

unfoldable pub delete : AppCall → ℕ → ℕ → AppState → Result AppError Bool × AppState
unfolding get_owned Apps.delete
delete c user_id app_id s = elim (get_owned c user_id app_id s) [
  | err e ↦ (err e, s)
  | ok app ↦
      if c.store_fails
      then (err store_failed, s)
      else (ok true, record s { apps = Apps.delete app_id s.apps })
]

unfoldable pub reset_api_key : AppCall → ℕ → ℕ → AppState → Result AppError AppResp × AppState
unfolding get_owned change generate_api_key
reset_api_key c user_id app_id s = elim (get_owned c user_id app_id s) [
  | err e ↦ (err e, s)
  | ok app ↦ change c true (with_key (generate_api_key c.uuid)) app app_id s
]

unfoldable pub reset_secret : AppCall → ℕ → ℕ → AppState → Result AppError AppResp × AppState
unfolding get_owned change generate_secret
reset_secret c user_id app_id s = elim (get_owned c user_id app_id s) [
  | err e ↦ (err e, s)
  | ok app ↦ change c true (with_secret (generate_secret c.uuid)) app app_id s
]

-- The loop of UpdateAllowedContracts over the entries of the request.
unfoldable pub normalize_contracts :
    Base58 → List (Text × List Text) → TextMap (List Text) → TextMap (List Text)
normalize_contracts base [] normalized = normalized
normalize_contracts base ((c, addrs) ∷ m) normalized =
    normalize_contracts base m
      (insert (to_upper c) (map (normalize base (codec_of c)) addrs) normalized)

unfoldable pub raw_of : TextMap (List Text) → AllowedJson
raw_of normalized = if is_empty normalized then AllowedJson.blank else AllowedJson.object normalized

abbrev pub drop_id {ℓ} : {V : Type ℓ} → ℕ → (ℕ → Option V) → ℕ → Option V
drop_id k m j = if k == j then none else m j

-- The JSON column takes no text that is not JSON, and an empty text is none.
unfoldable pub is_json : AllowedJson → Bool
is_json AllowedJson.blank = false
is_json AllowedJson.malformed = false
is_json (AllowedJson.object m) = true

-- UpdateAllowedContracts; the error of the deletion in Redis is not looked at.
unfoldable pub update_allowed_contracts :
    Base58 → AppCall → ℕ → ℕ → List (Text × List Text) → AppState → Result AppError Bool × AppState
unfolding get_owned normalize_contracts raw_of is_json update
update_allowed_contracts base c user_id app_id req s = elim (get_owned c user_id app_id s) [
  | err e ↦ (err e, s)
  | ok app ↦
      let raw = raw_of (normalize_contracts base req []) in
      if c.store_fails || not (is_json raw) then (err store_failed, s) else (
        ok true,
        record s {
          apps = update app_id (with_contracts raw) s.apps;
          app_cache = if c.redis_fails then s.app_cache else drop_id app_id s.app_cache;
        },
      )
]
