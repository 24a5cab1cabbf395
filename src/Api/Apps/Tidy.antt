-- ===== src/Api/Apps/Tidy.antt =====
-- Names and callback URLs that are unique among the active apps of a user.
use address_monitor.Prelude.{
  ℕ, ◌≡◌, Bool, true, false, ◌&&◌, ◌||◌, not, Text, text_eq, text_eq_iff, is_empty_text, leb,
  if◌then◌else◌, ◌==◌, arith, any, is_unique,
}
use address_monitor.Store.Apps.{App, AppTable, has_name, has_callback_url}
use address_monitor.Api.Apps.{renamed}

abbrev pub same_id : App → App → Bool
same_id a b = a.id == b.id

-- Two active apps of one user with the same name, or URL, that is not empty.
abbrev pub same_name : App → App → Bool
same_name a b =
    not (a.id == b.id)
    && (a.user_id == b.user_id)
    && text_eq a.name b.name
    && not (is_empty_text a.name)
    && (a.status == 1)
    && (b.status == 1)

abbrev pub same_url : App → App → Bool
same_url a b =
    not (a.id == b.id)
    && (a.user_id == b.user_id)
    && text_eq a.callback_url b.callback_url
    && not (is_empty_text a.callback_url)
    && (a.status == 1)
    && (b.status == 1)

pub record IsTidy (t : AppTable) : Type 0 where
  pub ids : is_unique same_id t.rows ≡ true
  pub below : any (λ a. leb t.next_id a.id) t.rows ≡ false
  pub positive : any (λ a. a.id == 0) t.rows ≡ false
  pub next : (t.next_id == 0) ≡ false
  pub names : is_unique same_name t.rows ≡ true
  pub urls : is_unique same_url t.rows ≡ true

-- A row that is not one of the user's although it has the key, or that has the name already.
abbrev pub clashes : ℕ → ℕ → Text → App → Bool
clashes user_id id name a =
    has_name user_id name id a || ((a.id == id) && not (a.user_id == user_id))

pub rename_apart :
    (user_id id : ℕ) (name url : Text) (x y : App)
    → is_empty_text name ≡ false
    → clashes user_id id name x ≡ false
    → clashes user_id id name y ≡ false
    → same_name x y ≡ false
    → same_name
        (if x.id == id then renamed name url x else x)
        (if y.id == id then renamed name url y else y)
      ≡ false
rename_apart user_id id name url x y e bx by h = ground (
  arith,
  text_eq_iff name x.name,
  text_eq_iff name y.name,
  text_eq_iff x.name name,
  text_eq_iff y.name name,
)

pub reurl_apart :
    (user_id id : ℕ) (name url : Text) (x y : App)
    → is_empty_text url ≡ false
    → (has_callback_url user_id url id x || ((x.id == id) && not (x.user_id == user_id))) ≡ false
    → (has_callback_url user_id url id y || ((y.id == id) && not (y.user_id == user_id))) ≡ false
    → same_url x y ≡ false
    → same_url
        (if x.id == id then renamed name url x else x)
        (if y.id == id then renamed name url y else y)
      ≡ false
reurl_apart user_id id name url x y e bx by h = ground (
  arith,
  text_eq_iff url x.callback_url,
  text_eq_iff url y.callback_url,
  text_eq_iff x.callback_url url,
  text_eq_iff y.callback_url url,
)
