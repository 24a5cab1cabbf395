-- ===== src/Store/WatchedAddresses.antt =====
-- internal/store/watched_address.go: the table watched_addresses. Rows stand in the order of their
-- keys, which is that of their creation. How the column compares texts is a parameter, `same`.
use address_monitor.Prelude.{
  ℕ, ◌+◌, ◌-◌, ◌*◌, Bool, true, Option, List, [], ◌∷◌, ◌++◌, ◌&&◌, Text, text_eq, is_empty_text,
  length, take, drop, ◌==◌, if◌then◌else◌, select, first, update_if, ltb,
}

pub record WatchedAddress : Type 0 where
  pub id : ℕ
  pub app_id : ℕ
  pub chain : Text
  pub address : Text
  pub label : Text
  pub status : ℕ

pub record AddressTable : Type 0 where
  pub rows : List WatchedAddress
  pub next_id : ℕ

unfoldable pub create : WatchedAddress → AddressTable → WatchedAddress × AddressTable
create wa t =
    let row = record wa { id = t.next_id } in
    (row, record { rows = t.rows ++ row ∷ []; next_id = t.next_id + 1 })

-- CreateInBatches in one statement: the rows get consecutive keys.
unfoldable pub batch_create :
    List WatchedAddress → AddressTable → List WatchedAddress × AddressTable
unfolding create
batch_create [] t = ([], t)
batch_create (wa ∷ was) t =
    let (row, t') = create wa t in let (rows, t'') = batch_create was t' in (row ∷ rows, t'')

abbrev pub disable : WatchedAddress → WatchedAddress
disable wa = record wa { status = 0 }

-- Delete switches the row off.
unfoldable pub delete : ℕ → AddressTable → AddressTable
delete id t = record t { rows = update_if (λ wa. wa.id == id) disable t.rows }

unfoldable pub get_by_id : ℕ → AddressTable → Option WatchedAddress
get_by_id id t = first (λ wa. wa.id == id) t.rows

abbrev pub in_app : ℕ → Text → WatchedAddress → Bool
in_app app_id chain wa =
    (wa.status == 1)
    && (if ltb 0 app_id then wa.app_id == app_id else true)
    && (if is_empty_text chain then true else text_eq wa.chain chain)

-- The page of the enabled rows, and how many there are in all. ORDER BY created_at DESC says nothing
-- of rows of the same second, so how this query orders its rows is a parameter.
unfoldable pub list_by_app :
    (List WatchedAddress → List WatchedAddress)
    → ℕ
    → Text
    → ℕ
    → ℕ
    → AddressTable
    → List WatchedAddress × ℕ
list_by_app order app_id chain page size t =
    let found = select (in_app app_id chain) t.rows in
    (take size (drop ((page - 1) * size) (order found)), length found)

abbrev pub is_after : ℕ → WatchedAddress → Bool
is_after since wa = ltb since wa.id && (wa.status == 1)

unfoldable pub list_after_id : ℕ → AddressTable → List WatchedAddress
list_after_id since t = select (is_after since) t.rows

abbrev pub is_match : (Text → Text → Bool) → Text → Text → WatchedAddress → Bool
is_match same chain address wa = same wa.chain chain && same wa.address address && (wa.status == 1)

unfoldable pub list_by_chain_address :
    (Text → Text → Bool) → Text → Text → AddressTable → List WatchedAddress
list_by_chain_address same chain address t = select (is_match same chain address) t.rows
