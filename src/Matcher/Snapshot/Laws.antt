-- ===== src/Matcher/Snapshot/Laws.antt =====
-- Laws of restore_bf after snapshot_bf.
use address_monitor.Prelude.{
  ℕ, ◌≡◌, ◌≤◌, ◌∙◌, refl, Bool, true, false, Option, none, some, List, [], ◌∷◌, ◌||◌, Text, text_eq,
  text_eq_iff, lookup, arith, In, inl, inr, Option-cases, Bool-cases, is_empty, In_of_select, sym,
}
use address_monitor.Store.WatchedAddresses.{WatchedAddress, AddressTable, list_after_id, is_after}
use address_monitor.Matcher.Defs.{Bloom, Filters, tests, is_known, sync_rows, sync_from_db}
use address_monitor.Matcher.Filters.{Covers, lookup-add_to_bf}
use address_monitor.Matcher.Laws.{CoversUpTo, sync_from_db-Covers}
use address_monitor.Matcher.Snapshot.{
  Snapshots, snapshot_filters, snapshot_bf, restore_filters, restore_bf, start_filters, decoded,
  or_else, is_there,
}

module _ (b : Bloom) where
  abbrev encoded : Option b.Filter → Option b.Snapshot → Option b.Snapshot
  encoded none old = old
  encoded (some f) old = some (b.encode f)

  lookup-snapshot_filters :
      (bfs : Filters b) (snaps : Text → Option b.Snapshot) (c : Text)
      → snapshot_filters b (λ x. false) bfs snaps c ≡ encoded (lookup c bfs) (snaps c)
  unfolding snapshot_filters lookup
  lookup-snapshot_filters [] snaps c = refl
  lookup-snapshot_filters ((k, f) ∷ bfs) snaps c =
      ground (arith, text_eq_iff k c, lookup-snapshot_filters bfs snaps c)

  abbrev restored : Option b.Snapshot → Option b.Filter → Option b.Filter
  restored d none = none
  restored d (some f) = some (or_else b f (decoded b d))

  lookup-restore_filters :
      (bfs : Filters b) (snaps : Text → Option b.Snapshot) (c : Text)
      → lookup c (restore_filters b snaps bfs).0 ≡ restored (snaps c) (lookup c bfs)
  unfolding restore_filters lookup
  lookup-restore_filters [] snaps c = refl
  lookup-restore_filters ((k, f) ∷ bfs) snaps c = elim (Bool-cases (text_eq k c)) [
    | inl e ↦ rw (e, (text_eq_iff k c).0 e)
    | inr e ↦ rw (e, lookup-restore_filters bfs snaps c)
  ]

  is_known-restore_filters :
      (bfs : Filters b) (snaps : Text → Option b.Snapshot) (c : Text)
      → is_known b (restore_filters b snaps bfs).0 c ≡ is_known b bfs c
  unfolding is_known
  is_known-restore_filters bfs snaps c = elim (Option-cases (lookup c bfs)) [
    | inl e ↦ ground (arith, lookup-restore_filters bfs snaps c)
    | inr (f, e) ↦ ground (arith, lookup-restore_filters bfs snaps c)
  ]

  any_restored :
      (bfs : Filters b) (snaps : Text → Option b.Snapshot) (c : Text)
      → is_known b bfs c ≡ true
      → is_there b (decoded b (snaps c)) ≡ true
      → (restore_filters b snaps bfs).1 ≡ true
  unfolding is_known restore_filters lookup
  any_restored [] snaps c k h = cc
  any_restored ((j, f) ∷ bfs) snaps c k h = elim (Bool-cases (text_eq j c)) [
    | inl e ↦ rw ((text_eq_iff j c).0 e, h)
    | inr e ↦ ground (arith, any_restored bfs snaps c)
  ]

  is_known-some :
      (bfs : Filters b) (c : Text)
      → is_known b bfs c ≡ true
      → (f : b.Filter) × (lookup c bfs ≡ some f)
  unfolding is_known
  is_known-some bfs c k = elim (Option-cases (lookup c bfs)) [
    | inl e ↦ ground arith
    | inr found ↦ found
  ]

  -- A chain that both matchers know is restored to the filter that was saved.
  lookup-restart :
      (bfs start : Filters b) (old : Text → Option b.Snapshot) (c : Text) {f g : b.Filter}
      → lookup c bfs ≡ some f
      → lookup c start ≡ some g
      → lookup c (restore_filters b (snapshot_filters b (λ x. false) bfs old) start).0 ≡ some f
  lookup-restart bfs start old c {f} ef eg = rw (
    lookup-restore_filters start _ c,
    eg,
    lookup-snapshot_filters bfs old c,
    ef,
    b.decode-encode f,
  )

  tests-restart :
      (bfs start : Filters b) (old : Text → Option b.Snapshot) (c a : Text)
      → is_known b bfs c ≡ true
      → is_known b start c ≡ true
      → tests b (restore_filters b (snapshot_filters b (λ x. false) bfs old) start).0 c a
        ≡ tests b bfs c a
  unfolding tests
  tests-restart bfs start old c a kb ks =
      let (f, ef) = is_known-some bfs c kb in
      let (g, eg) = is_known-some start c ks in
      ground (arith, lookup-restart bfs start old c ef eg, ef)

  restored_covers :
      (bfs start : Filters b) (last_id : ℕ) (old : Text → Option b.Snapshot) (t : AddressTable)
      → CoversUpTo b last_id bfs t.rows
      → ((c : Text) → is_known b start c ≡ is_known b bfs c)
      → CoversUpTo b last_id
          (restore_filters b (snapshot_filters b (λ x. false) bfs old) start).0
          t.rows
  restored_covers bfs start last_id old t covers same wa i s le k =
      let ks = sym (is_known-restore_filters start _ wa.chain) ∙ k in
      let kb = sym (same wa.chain) ∙ ks in
      tests-restart bfs start old wa.chain wa.address kb ks ∙ covers wa i s le kb

  -- If all the writes of a snapshot succeed, a matcher that is restored from it knows the same
  -- chains and has at least one, and the query of its synchronisation succeeds, then it covers
  -- every enabled row of the table, provided the saved filters covered the rows up to their mark.
  pub restart-Covers :
      (bfs start : Filters b) (last_id mark : ℕ) (old : Snapshots b) (t : AddressTable)
      (chain : Text)
      → CoversUpTo b last_id bfs t.rows
      → ((c : Text) → is_known b start c ≡ is_known b bfs c)
      → is_known b start chain ≡ true
      → let r =
          restore_bf b false
            (snapshot_bf b (λ x. false) false (bfs, last_id) old)
            t
            (start, mark) in
        (r.1 ≡ true) × Covers b r.0.0 t.rows
  unfolding restore_bf snapshot_bf
  restart-Covers bfs start last_id mark old t chain covers same known =
      let (f, ef) = is_known-some bfs chain (sym (same chain) ∙ known) in
      rw
        (any_restored start (snapshot_filters b (λ x. false) bfs old.filters) chain known
          (rw (lookup-snapshot_filters bfs old.filters chain, ef, b.decode-encode f)))
        (
          refl,
          sync_from_db-Covers b t _ last_id
              (restored_covers bfs start last_id old.filters t covers same),
        )

  lookup-sync_rows_other :
      (was : List WatchedAddress) (bfs : Filters b) (m : ℕ) (c : Text)
      → ((wa : WatchedAddress) → In wa was → text_eq wa.chain c ≡ false)
      → lookup c (sync_rows b was (bfs, m)).0 ≡ lookup c bfs
  unfolding sync_rows
  lookup-sync_rows_other [] bfs m c other = refl
  lookup-sync_rows_other (wa ∷ was) bfs m c other =
      lookup-sync_rows_other was _ _ c (λ x i. other x (inr i))
      ∙ rw (lookup-add_to_bf b wa.chain wa.address bfs c, other wa (inl refl)) refl

  other_chain :
      (m : ℕ) (t : AddressTable) (c : Text)
      → ((wa : WatchedAddress) → In wa t.rows → wa.chain ≡ c → wa.id ≤ m)
      → (wa : WatchedAddress) → In wa (list_after_id m t)
      → text_eq wa.chain c ≡ false
  unfolding list_after_id
  other_chain m t c old wa i =
      let (row, after) = In_of_select wa (is_after m) t.rows i in
      elim (Bool-cases (text_eq wa.chain c)) [
        | inl e ↦ let le = old wa row ((text_eq_iff wa.chain c).0 e) in ground arith
        | inr e ↦ e
      ]

  lookup-sync_from_db_other :
      (fails : Bool) (t : AddressTable) (bfs : Filters b) (m : ℕ) (c : Text)
      → ((wa : WatchedAddress) → In wa t.rows → wa.chain ≡ c → wa.id ≤ m)
      → lookup c (sync_from_db b fails t (bfs, m)).0 ≡ lookup c bfs
  unfolding sync_from_db
  lookup-sync_from_db_other fails t bfs m c old =
      elim (Bool-cases (fails || is_empty (list_after_id m t))) [
        | inl e ↦ rw e refl
        | inr e ↦ rw e (
            lookup-sync_rows_other (list_after_id m t) bfs 0 c (λ wa i. other_chain m t c old wa i))
      ]

  restore_bf-any :
      (start : Filters b) (mark m : ℕ) (list_fails : Bool) (s : Snapshots b) (t : AddressTable)
      → (restore_filters b s.filters start).1 ≡ true
      → s.max_id ≡ some m
      → restore_bf b list_fails s t (start, mark)
        ≡ (sync_from_db b list_fails t ((restore_filters b s.filters start).0, m), true)
  unfolding restore_bf
  restore_bf-any start mark m list_fails s t e saved = rw (restore_bf, e) (rw saved refl)

  tests_fresh :
      (bfs : Filters b) (c a : Text) → lookup c bfs ≡ some b.fresh → tests b bfs c a ≡ false
  unfolding tests
  tests_fresh bfs c a e = rw (tests, e) (b.test-fresh a)

  -- When a worker starts with new filters for two chains, of which one has a snapshot that decodes
  -- and the other has none, it goes on without a full load, whatever fails, and takes every address
  -- of the other chain for one that is not watched, if the rows of that chain have keys up to the
  -- saved mark.
  pub restart_misses :
      (order : ℕ → List WatchedAddress → List WatchedAddress) (fuel : ℕ) (list_fails : Bool)
      (query_fails : ℕ → Bool) (start : Filters b) (mark m : ℕ) (s : Snapshots b) (t : AddressTable)
      (chain other : Text) (d : b.Snapshot) (f : b.Filter)
      → lookup chain start ≡ some b.fresh
      → s.filters chain ≡ none
      → is_known b start other ≡ true
      → s.filters other ≡ some d
      → b.decode d ≡ some f
      → s.max_id ≡ some m
      → ((wa : WatchedAddress) → In wa t.rows → wa.chain ≡ chain → wa.id ≤ m)
      → (r : Filters b × ℕ) × (start_filters b order fuel list_fails query_fails s t (start, mark)
          ≡ some r)
        × ((a : Text) → tests b r.0 chain a ≡ false)
  unfolding start_filters
  restart_misses order fuel list_fails query_fails start mark m s t chain other d f new no_snapshot
        known snapshot decodes saved old_rows =
      let same_filter = lookup-restore_filters start s.filters chain in
      let synced =
        lookup-sync_from_db_other list_fails t (restore_filters b s.filters start).0 m chain
          old_rows in
      let any = any_restored start s.filters other known (rw (snapshot, decodes)) in
      (
        sync_from_db b list_fails t ((restore_filters b s.filters start).0, m),
        rw (start_filters, restore_bf-any start mark m list_fails s t any saved) refl,
        λ a. tests_fresh _ chain a (synced ∙ same_filter ∙ rw (no_snapshot, new) refl),
      )
