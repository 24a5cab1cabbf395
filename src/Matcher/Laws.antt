-- ===== src/Matcher/Laws.antt =====
-- Laws of sync_from_db and is_watched.
use address_monitor.Prelude.{
  ℕ, ◌≡◌, ◌≤◌, Bool, true, false, Option, none, some, List, [], ◌∷◌, Text, if◌then◌else◌, arith, In,
  inl, inr, Bool-cases, ltb, is_empty, In-select,
}
use address_monitor.Store.WatchedAddresses.{
  WatchedAddress, AddressTable, list_after_id, list_by_chain_address, is_after, is_match,
}
use address_monitor.Matcher.Defs.{
  Bloom, Filters, found, failed, tests, is_known, sync_from_db, is_watched,
}
use address_monitor.Matcher.Filters.{Covers, IsAbove-sync_rows, tests-sync_rows}

-- A row behind the water mark is in the result of the query.
listed :
    (t : AddressTable) (last_id : ℕ) (wa : WatchedAddress)
    → In wa t.rows
    → ltb last_id wa.id ≡ true
    → wa.status ≡ 1
    → In wa (list_after_id last_id t)
unfolding list_after_id
listed t last_id wa i lt s = In-select wa (is_after last_id) t.rows i (ground arith)

empty_In : (wa : WatchedAddress) (xs : List WatchedAddress) → is_empty xs ≡ true → In wa xs → ⊥
empty_In wa [] e i = i
empty_In wa (x ∷ xs) e i = cc

not_listed :
    (t : AddressTable) (last_id : ℕ) (wa : WatchedAddress)
    → In wa t.rows
    → ltb last_id wa.id ≡ true
    → wa.status ≡ 1
    → is_empty (list_after_id last_id t) ≡ true
    → ⊥
not_listed t last_id wa i lt s e =
    empty_In wa (list_after_id last_id t) e (listed t last_id wa i lt s)

module _ (b : Bloom) where
  -- Every enabled row up to a key, on a chain that has a filter, tests positive.
  abbrev pub CoversUpTo : ℕ → Filters b → List WatchedAddress → Type 0
  CoversUpTo last_id bfs was =
      (wa : WatchedAddress)
      → In wa was
      → wa.status ≡ 1
      → wa.id ≤ last_id
      → is_known b bfs wa.chain ≡ true
      → tests b bfs wa.chain wa.address ≡ true

  -- A synchronisation whose query succeeds covers the whole table, if the filters covered the rows
  -- up to the water mark before.
  pub sync_from_db-Covers :
      (t : AddressTable) (bfs : Filters b) (last_id : ℕ)
      → CoversUpTo last_id bfs t.rows
      → Covers b (sync_from_db b false t (bfs, last_id)).0 t.rows
  unfolding sync_from_db
  sync_from_db-Covers t bfs last_id h wa i s =
      elim (Bool-cases (is_empty (list_after_id last_id t))) [
        | inl e ↦ rw e (λ k. elim (Bool-cases (ltb last_id wa.id)) [
          | inl lt ↦ absurd (not_listed t last_id wa i lt s e)
          | inr ge ↦ h wa i s (ground arith) k
        ])
        | inr e ↦ rw e (λ k.
            let above = IsAbove-sync_rows b (list_after_id last_id t) bfs 0 in
            let k' = rw (above.known wa.chain) at k in
            elim (Bool-cases (ltb last_id wa.id)) [
              | inl lt ↦
                  tests-sync_rows b (list_after_id last_id t) bfs 0 wa (listed t last_id wa i lt s)
                    k'
              | inr ge ↦ above.kept wa.chain wa.address (h wa i s (ground arith) k')
            ])
      ]

  -- IsWatched answers the same whether the hot set of Redis has the address, lacks it or cannot be
  -- read: nothing for an address outside the chain's filter, and else what the database returns.
  pub is_watched_lem :
      (same : Text → Text → Bool) (list_fails : Bool) (hot_hit : Option Bool) (chain a : Text)
      (bfs : Filters b) (t : AddressTable)
      → (is_watched b same list_fails hot_hit chain a bfs t).0 ≡ (
          if tests b bfs chain a
          then (if list_fails then failed else found (list_by_chain_address same chain a t))
          else found [])
  unfolding is_watched
  is_watched_lem same list_fails none chain a bfs t = ground arith
  is_watched_lem same list_fails (some true) chain a bfs t = ground arith
  is_watched_lem same list_fails (some false) chain a bfs t = ground arith

  -- If the filters cover the table, an enabled row is in the answer of IsWatched for its chain and
  -- address, whatever Redis says, when the query succeeds and the column's comparison finds equal
  -- texts equal.
  pub is_watched_complete :
      (same : Text → Text → Bool) (hot_hit : Option Bool) (wa : WatchedAddress) (bfs : Filters b)
      (t : AddressTable)
      → ((x : Text) → same x x ≡ true)
      → Covers b bfs t.rows
      → is_known b bfs wa.chain ≡ true
      → In wa t.rows
      → wa.status ≡ 1
      → (rows : List WatchedAddress) × ((is_watched b same false hot_hit wa.chain wa.address bfs
            t).0
          ≡ found rows)
        × In wa rows
  unfolding list_by_chain_address
  is_watched_complete same hot_hit wa bfs t same_refl covers k i s = (
    list_by_chain_address same wa.chain wa.address t,
    rw (is_watched_lem same false hot_hit wa.chain wa.address bfs t, covers wa i s k),
    In-select wa (is_match same wa.chain wa.address) t.rows i
        (ground (arith, same_refl wa.chain, same_refl wa.address)),
  )
