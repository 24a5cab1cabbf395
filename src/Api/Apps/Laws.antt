-- ===== src/Api/Apps/Laws.antt =====
-- Which changes of the table keep the names and callback URLs of a user unique.
use address_monitor.Prelude.{
  ℕ, ◌+◌, ◌≡◌, refl, Bool, true, false, none, some, List, [], ◌∷◌, ◌&&◌, ◌||◌, not, Text,
  text_eq_iff, is_empty_text, leb, ◌==◌, inl, inr, Bool-cases, arith, any, first, any_of_implies,
  any-append, any-update_if, is_unique, is_unique-update_if, is_unique-append,
  is_unique-update_if_apart,
}
use address_monitor.Store.Apps.{
  AllowedJson, App, AppTable, has_name, has_callback_url, switch_off, get_by_id, name_exists,
  callback_url_exists, update,
}
use address_monitor.Store.Apps
use address_monitor.Api.Apps.{AppState, AppCall, check_duplicate, check_callback_url, renamed}
use address_monitor.Api.Apps.Tidy.{
  same_id, same_name, same_url, IsTidy, clashes, rename_apart, reurl_apart,
}

other_rows :
    (user_id id : ℕ) (x : App) (xs : List App)
    → (x.id == id) ≡ true
    → any (same_id x) xs ≡ false
    → any (λ a. (a.id == id) && not (a.user_id == user_id)) xs ≡ false
other_rows user_id id x [] e h = refl
other_rows user_id id x (y ∷ ys) e h = ground (arith, other_rows user_id id x ys)

-- The rows with the key of an app that was read are the user's.
owned_rows :
    (user_id id : ℕ) (app : App) (rows : List App)
    → is_unique same_id rows ≡ true
    → first (λ a. a.id == id) rows ≡ some app
    → (app.user_id == user_id) ≡ true
    → any (λ a. (a.id == id) && not (a.user_id == user_id)) rows ≡ false
owned_rows user_id id app [] u h o = refl
owned_rows user_id id app (x ∷ xs) u h o =
    ground (arith, other_rows user_id id x xs, owned_rows user_id id app xs)

any_either :
    {A : Type 0} (p q : A → Bool) (xs : List A)
    → any p xs ≡ false
    → any q xs ≡ false
    → any (λ x. p x || q x) xs ≡ false
any_either p q [] h k = refl
any_either p q (x ∷ xs) h k = ground (arith, any_either p q xs)

-- An update of columns that the tests do not read.
pub record IsNeutral (f : App → App) : Type 0 where
  pub id : (a : App) → (f a).id ≡ a.id
  pub user_id : (a : App) → (f a).user_id ≡ a.user_id
  pub status : (a : App) → (f a).status ≡ a.status
  pub name : (a : App) → (f a).name ≡ a.name
  pub callback_url : (a : App) → (f a).callback_url ≡ a.callback_url

pub update-IsTidy :
    (id : ℕ) (f : App → App) (t : AppTable) → IsNeutral f → IsTidy t → IsTidy (update id f t)
unfolding update
update-IsTidy id f t n v = record {
  ids =
      rw
        (is_unique-update_if same_id (λ a. a.id == id) f (λ x y. rw (n.id x) refl)
          (λ x y. rw (n.id y) refl) t.rows)
        v.ids;
  below =
      rw
        (any-update_if (λ a. leb t.next_id a.id) (λ a. a.id == id) f (λ x. rw (n.id x) refl) t.rows)
        v.below;
  positive =
      rw (any-update_if (λ a. a.id == 0) (λ a. a.id == id) f (λ x. rw (n.id x) refl) t.rows)
        v.positive;
  next = v.next;
  names =
      rw
        (is_unique-update_if same_name (λ a. a.id == id) f
          (λ x y. rw (n.id x, n.user_id x, n.name x, n.status x) refl)
          (λ x y. rw (n.id y, n.user_id y, n.name y, n.status y) refl) t.rows)
        v.names;
  urls =
      rw
        (is_unique-update_if same_url (λ a. a.id == id) f
          (λ x y. rw (n.id x, n.user_id x, n.callback_url x, n.status x) refl)
          (λ x y. rw (n.id y, n.user_id y, n.callback_url y, n.status y) refl) t.rows)
        v.urls;
}

none_false : {A : Type 0} (xs : List A) → any (λ x. false) xs ≡ false
none_false [] = refl
none_false (x ∷ xs) = none_false xs

pub delete-IsTidy : (id : ℕ) (t : AppTable) → IsTidy t → IsTidy (Apps.delete id t)
unfolding Apps.delete
delete-IsTidy id t v = record {
  ids =
      rw
        (is_unique-update_if same_id (λ a. a.id == id) switch_off (λ x y. refl) (λ x y. refl)
          t.rows)
        v.ids;
  below =
      rw (any-update_if (λ a. leb t.next_id a.id) (λ a. a.id == id) switch_off (λ x. refl) t.rows)
        v.below;
  positive =
      rw (any-update_if (λ a. a.id == 0) (λ a. a.id == id) switch_off (λ x. refl) t.rows)
        v.positive;
  next = v.next;
  names =
      is_unique-update_if_apart same_name (λ a. false) (λ a. a.id == id) switch_off
        (λ x y bx by h. ground arith) t.rows (none_false t.rows) v.names;
  urls =
      is_unique-update_if_apart same_url (λ a. false) (λ a. a.id == id) switch_off
        (λ x y bx by h. ground arith) t.rows (none_false t.rows) v.urls;
}

-- What the checks before a renaming say.
pub record IsFree (user_id : ℕ) (name url : Text) (exclude : ℕ) (t : AppTable) : Type 0 where
  pub free_name : is_empty_text name ≡ false → any (has_name user_id name exclude) t.rows ≡ false
  pub free_url :
      is_empty_text url ≡ false → any (has_callback_url user_id url exclude) t.rows ≡ false

pub check_duplicate-IsFree :
    (c : AppCall) (user_id : ℕ) (name url : Text) (exclude : ℕ) (s : AppState)
    → check_duplicate c user_id name url exclude s ≡ none
    → IsFree user_id name url exclude s.apps
unfolding check_duplicate check_callback_url name_exists callback_url_exists
check_duplicate-IsFree c user_id name url exclude s h = record {
  free_name = λ e. ground arith;
  free_url = λ e. ground arith;
}

pub rename-IsTidy :
    (user_id id : ℕ) (name url : Text) (app : App) (t : AppTable)
    → get_by_id id t ≡ some app
    → (app.user_id == user_id) ≡ true
    → IsFree user_id name url id t
    → IsTidy t
    → IsTidy (update id (renamed name url) t)
unfolding update get_by_id
rename-IsTidy user_id id name url app t e o free v =
    let q : App → Bool = λ a. a.id == id in
    let f = renamed name url in
    let mine = owned_rows user_id id app t.rows v.ids e o in
    record {
      ids = rw (is_unique-update_if same_id q f (λ x y. refl) (λ x y. refl) t.rows) v.ids;
      below = rw (any-update_if (λ a. leb t.next_id a.id) q f (λ x. refl) t.rows) v.below;
      positive = rw (any-update_if (λ a. a.id == 0) q f (λ x. refl) t.rows) v.positive;
      next = v.next;
      names = elim (Bool-cases (is_empty_text name)) [
        | inl z ↦
            rw (is_unique-update_if same_name q f (λ x y. rw z refl) (λ x y. rw z refl) t.rows)
              v.names
        | inr z ↦
            is_unique-update_if_apart same_name (clashes user_id id name) q f
              (λ x y bx by h. rename_apart user_id id name url x y z bx by h) t.rows
              (any_either (has_name user_id name id) _ t.rows (free.free_name z) mine) v.names
      ];
      urls = elim (Bool-cases (is_empty_text url)) [
        | inl z ↦
            rw (is_unique-update_if same_url q f (λ x y. rw z refl) (λ x y. rw z refl) t.rows)
              v.urls
        | inr z ↦
            is_unique-update_if_apart same_url
              (λ a.
                has_callback_url user_id url id a || ((a.id == id) && not (a.user_id == user_id)))
              q f (λ x y bx by h. reurl_apart user_id id name url x y z bx by h) t.rows
              (any_either (has_callback_url user_id url id) _ t.rows (free.free_url z) mine) v.urls
      ];
    }

swap_name : (a b : App) → same_name a b ≡ same_name b a
swap_name a b = ground (arith, text_eq_iff a.name b.name, text_eq_iff b.name a.name)

swap_url : (a b : App) → same_url a b ≡ same_url b a
swap_url a b =
    ground
      (arith, text_eq_iff a.callback_url b.callback_url, text_eq_iff b.callback_url a.callback_url)

new_name :
    (r : App) (rows : List App)
    → (is_empty_text r.name ≡ false → any (has_name r.user_id r.name 0) rows ≡ false)
    → any (λ a. a.id == 0) rows ≡ false
    → any (same_name r) rows ≡ false
new_name r [] free pos = refl
new_name r (y ∷ ys) free pos =
    ground (arith, text_eq_iff r.name y.name, text_eq_iff y.name r.name, new_name r ys)

new_url :
    (r : App) (rows : List App)
    → (is_empty_text r.callback_url ≡ false
        → any (has_callback_url r.user_id r.callback_url 0) rows ≡ false)
    → any (λ a. a.id == 0) rows ≡ false
    → any (same_url r) rows ≡ false
new_url r [] free pos = refl
new_url r (y ∷ ys) free pos = ground (
  arith,
  text_eq_iff r.callback_url y.callback_url,
  text_eq_iff y.callback_url r.callback_url,
  new_url r ys,
)

pub create-IsTidy :
    (app : App) (t : AppTable)
    → IsFree app.user_id app.name app.callback_url 0 t
    → IsTidy t
    → IsTidy (Apps.create app t).1
unfolding Apps.create
create-IsTidy app t free v =
    let r : App = record app { id = t.next_id } in
    record {
      ids =
          is_unique-append same_id r (λ a b. ground arith) t.rows v.ids
            (any_of_implies (same_id r) (λ a. leb t.next_id a.id) (λ a p. ground arith) t.rows
              v.below);
      below = ground (
        arith,
        any-append (λ a. leb (t.next_id + 1) a.id) t.rows (r ∷ []),
        any_of_implies (λ a. leb (t.next_id + 1) a.id) (λ a. leb t.next_id a.id)
            (λ a p. ground arith) t.rows v.below,
      );
      positive = ground (arith, any-append (λ a. a.id == 0) t.rows (r ∷ []), v.positive, v.next);
      next = ground arith;
      names =
          is_unique-append same_name r swap_name t.rows v.names
            (new_name r t.rows free.free_name v.positive);
      urls =
          is_unique-append same_url r swap_url t.rows v.urls
            (new_url r t.rows free.free_url v.positive);
    }
