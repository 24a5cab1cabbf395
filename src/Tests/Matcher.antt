-- ===== src/Tests/Matcher.antt =====
-- The matcher at concrete inputs.
use address_monitor.Prelude.{
  ◌≡◌, ◌≤◌, refl, ℕ, true, false, none, some, List, [], ◌∷◌, Text, bytes, text_eq, text_eq_self,
  arith, In, inl, inr, lookup, insert, reverse, to_upper, upper_byte, subst, sym, if◌then◌else◌,
}
use address_monitor.Store.WatchedAddresses.{WatchedAddress, list_by_chain_address}
use address_monitor.Matcher.Defs.{
  Filters, found, failed, tests, is_known, is_watched, load_pages, new_filters,
}
use address_monitor.Matcher.Filters.{Covers}
use address_monitor.Matcher.Laws.{is_watched_lem, is_watched_complete, CoversUpTo}
use address_monitor.Matcher.Load.{load_pages-Covers, reverse-IsOrder}
use address_monitor.Matcher.Snapshot.{Snapshots, restore_bf, snapshot_bf, start_filters}
use address_monitor.Matcher.Snapshot.Laws.{restart-Covers, restart_misses}
use address_monitor.Tests.Samples.{bloom, row, table}

abbrev chains : List Text
chains = bytes "ETH" ∷ bytes "BSC" ∷ []

abbrev fresh_filters : Filters bloom
fresh_filters = (bytes "BSC", []) ∷ (bytes "ETH", []) ∷ []

abbrev pub filled : Filters bloom
filled = (bytes "BSC", []) ∷ (bytes "ETH", bytes "0xaa" ∷ []) ∷ []

-- New for two chains gives the empty filters.
fresh_filters_new : new_filters bloom chains ≡ fresh_filters
unfolding new_filters insert to_upper upper_byte text_eq
fresh_filters_new = refl

pub filled-Covers : Covers bloom filled table.rows
unfolding tests lookup text_eq
filled-Covers wa (inl e) s k = subst (λ x. tests bloom filled x.chain x.address ≡ true) (sym e) refl
filled-Covers wa (inr i) s k = elim i [ ]

is_watched_lem_example :
    (is_watched bloom text_eq false none (bytes "ETH") (bytes "0xaa") filled table).0 ≡ (
      if tests bloom filled (bytes "ETH") (bytes "0xaa")
      then (if false
          then failed
          else found (list_by_chain_address text_eq (bytes "ETH") (bytes "0xaa") table))
      else found [])
is_watched_lem_example =
    is_watched_lem bloom text_eq false none (bytes "ETH") (bytes "0xaa") filled table

is_watched_complete_example :
    (rows : List WatchedAddress) × ((is_watched bloom text_eq false
        (some true)
        row.chain
        row.address
        filled
        table).0
      ≡ found rows)
    × In row rows
unfolding is_known lookup text_eq
is_watched_complete_example =
    is_watched_complete bloom text_eq (some true) row filled table text_eq_self filled-Covers refl
      (inl refl) refl

two_of_three : 3 ≤ 2 → ⊥
two_of_three h = omega arith

-- The row has a key above 2, so the empty filters cover the rows up to 2.
nothing_old : CoversUpTo bloom 2 fresh_filters table.rows
nothing_old wa (inl e) s le k = absurd (two_of_three (subst (λ x. x.id ≤ 2) e le))
nothing_old wa (inr i) s le k = elim i [ ]

load_pages-Covers_example :
    (s' : Filters bloom × ℕ) × (load_pages bloom
        (λ p. reverse)
        2
        (λ p. false)
        1
        10000
        table
        (fresh_filters, 0)
      ≡ some s')
    × Covers bloom s'.0 table.rows
load_pages-Covers_example =
    load_pages-Covers bloom reverse 1 10000 table (fresh_filters, 0) reverse-IsOrder (omega arith)

abbrev no_snapshots : Snapshots bloom
no_snapshots = record { filters = λ c. none; max_id = none }

abbrev bsc_only : Snapshots bloom
bsc_only = record {
  filters = λ c. if text_eq c (bytes "BSC") then some [] else none;
  max_id = some 3;
}

restart-Covers_example :
    let r =
      restore_bf bloom false
        (snapshot_bf bloom (λ x. false) false (fresh_filters, 2) no_snapshots)
        table
        (fresh_filters, 0) in
    (r.1 ≡ true) × Covers bloom r.0.0 table.rows
unfolding is_known lookup text_eq
restart-Covers_example =
    restart-Covers bloom fresh_filters fresh_filters 2 0 no_snapshots table (bytes "ETH")
      nothing_old (λ c. refl) refl

in_rows : (wa : WatchedAddress) → In wa table.rows → wa.chain ≡ bytes "ETH" → wa.id ≤ 3
in_rows wa (inl e) c = subst (λ x. x.id ≤ 3) (sym e) (omega arith)
in_rows wa (inr i) c = elim i [ ]

restart_misses_example :
    (r : Filters bloom × ℕ) × (start_filters bloom
        (λ p. reverse)
        2
        false
        (λ p. false)
        bsc_only
        table
        (fresh_filters, 0)
      ≡ some r)
    × ((a : Text) → tests bloom r.0 (bytes "ETH") a ≡ false)
unfolding text_eq lookup is_known
restart_misses_example =
    restart_misses bloom (λ p. reverse) 2 false (λ p. false) fresh_filters 0 3 bsc_only table
      (bytes "ETH") (bytes "BSC") [] [] refl refl refl refl refl refl in_rows
