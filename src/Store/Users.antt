-- ===== src/Store/Users.antt =====
-- internal/store/user.go: the table users. The column email is UNIQUE, and how it compares texts
-- is a parameter, `same`. The status is 0 before the address is verified, 1 after, 2 when disabled.
pub mod Laws
use address_monitor.Prelude.{
  ℕ, ◌+◌, Bool, Option, none, some, List, [], ◌∷◌, ◌++◌, Text, bytes, is_empty_text, ◌==◌,
  if◌then◌else◌, first, any, update_if,
}

pub record User : Type 0 where
  pub id : ℕ
  pub email : Text
  pub password_hash : Text
  pub status : ℕ
  pub role : Text

pub record UserTable : Type 0 where
  pub rows : List User
  pub next_id : ℕ

-- The column's default stands for an empty role.
unfoldable pub inserted : ℕ → User → User
inserted id u = record u { id = id; role = if is_empty_text u.role then bytes "user" else u.role }

unfoldable pub create : (Text → Text → Bool) → User → UserTable → Option (User × UserTable)
unfolding inserted
create same u t =
    let row = inserted t.next_id u in
    if any (λ r. same r.email u.email) t.rows
    then none
    else some (row, record { rows = t.rows ++ row ∷ []; next_id = t.next_id + 1 })

unfoldable pub get_by_email : (Text → Text → Bool) → Text → UserTable → Option User
get_by_email same email t = first (λ u. same u.email email) t.rows

unfoldable pub get_by_id : ℕ → UserTable → Option User
get_by_id id t = first (λ u. u.id == id) t.rows

abbrev pub set_status : ℕ → User → User
set_status status u = record u { status = status }

unfoldable pub update_status : ℕ → ℕ → UserTable → UserTable
update_status id status t = record t {
  rows = update_if (λ u. u.id == id) (set_status status) t.rows;
}
