-- ===== src/Store/Apps.antt =====
-- internal/store/app.go: the table apps. The JSON column allowed_contracts is kept as the value
-- that the code reads: an empty text for NULL, a text that does not parse, or a map from chains to
-- addresses.
use address_monitor.Prelude.{
  ℕ, ◌+◌, Bool, Option, List, [], ◌∷◌, ◌++◌, ◌&&◌, not, Text, text_eq, ◌==◌, select, first, any,
  update_if,
}

pub data AllowedJson : Type 0 where
  blank malformed : AllowedJson
  object : List (Text × List Text) → AllowedJson

pub record App : Type 0 where
  pub id : ℕ
  pub user_id : ℕ
  pub name : Text
  pub api_key : Text
  pub secret : Text
  pub callback_url : Text
  pub allowed_contracts : AllowedJson
  pub status : ℕ

pub record AppTable : Type 0 where
  pub rows : List App
  pub next_id : ℕ

unfoldable pub create : App → AppTable → App × AppTable
create app t =
    let row = record app { id = t.next_id } in
    (row, record { rows = t.rows ++ row ∷ []; next_id = t.next_id + 1 })

-- First(&app, id) looks at every row, those that are switched off too.
unfoldable pub get_by_id : ℕ → AppTable → Option App
get_by_id id t = first (λ a. a.id == id) t.rows

unfoldable pub get_by_api_key : Text → AppTable → Option App
get_by_api_key key t = first (λ a. text_eq a.api_key key && (a.status == 1)) t.rows

-- `order` is how the query orders its rows, by created_at alone.
unfoldable pub list_by_user_id : (List App → List App) → ℕ → AppTable → List App
list_by_user_id order user_id t =
    order (select (λ a. (a.user_id == user_id) && (a.status == 1)) t.rows)

unfoldable pub update : ℕ → (App → App) → AppTable → AppTable
update id f t = record t { rows = update_if (λ a. a.id == id) f t.rows }

abbrev pub switch_off : App → App
switch_off a = record a { status = 0 }

unfoldable pub delete : ℕ → AppTable → AppTable
delete id t = record t { rows = update_if (λ a. a.id == id) switch_off t.rows }

abbrev pub has_name : ℕ → Text → ℕ → App → Bool
has_name user_id name exclude a =
    (a.user_id == user_id) && text_eq a.name name && (a.status == 1) && not (a.id == exclude)

abbrev pub has_callback_url : ℕ → Text → ℕ → App → Bool
has_callback_url user_id url exclude a =
    (a.user_id == user_id) && text_eq a.callback_url url && (a.status == 1) && not (a.id == exclude)

unfoldable pub name_exists : ℕ → Text → ℕ → AppTable → Bool
name_exists user_id name exclude t = any (has_name user_id name exclude) t.rows

unfoldable pub callback_url_exists : ℕ → Text → ℕ → AppTable → Bool
callback_url_exists user_id url exclude t = any (has_callback_url user_id url exclude) t.rows
