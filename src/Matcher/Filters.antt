-- ===== src/Matcher/Filters.antt =====
-- What the filters test positive after addresses are added to them.
use address_monitor.Prelude.{
  ℕ, ◌≡◌, refl, true, Option, none, some, List, [], ◌∷◌, Text, text_eq, text_eq_iff, text_eq_self,
  lookup, lookup-insert, ◌∙◌, if◌then◌else◌, arith, In, inl, inr, Option-cases, Bool-cases,
}
use address_monitor.Store.WatchedAddresses.{WatchedAddress}
use address_monitor.Matcher.Defs.{
  Bloom, Filters, tests, is_known, add_to_bf, add_rows, sync_rows, add_missing,
}

module _ (b : Bloom) where
  abbrev pub added : Text → Option b.Filter → Option b.Filter
  added a none = none
  added a (some f) = some (b.add f a)

  pub lookup-add_to_bf :
      (chain a : Text) (bfs : Filters b) (c : Text)
      → lookup c (add_to_bf b chain a bfs)
        ≡ (if text_eq chain c then added a (lookup c bfs) else lookup c bfs)
  unfolding add_to_bf
  lookup-add_to_bf chain a bfs c = elim (Option-cases (lookup chain bfs)) [
    | inl e ↦ rw (e, add_to_bf) (ground (arith, text_eq_iff chain c))
    | inr (f, e) ↦ rw (e, add_to_bf, lookup-insert) (ground (arith, text_eq_iff chain c))
  ]

  pub is_known-add_to_bf :
      (chain a : Text) (bfs : Filters b) (c : Text)
      → is_known b (add_to_bf b chain a bfs) c ≡ is_known b bfs c
  unfolding is_known
  is_known-add_to_bf chain a bfs c = ground (arith, lookup-add_to_bf chain a bfs c)

  pub tests-add_to_bf :
      (chain a : Text) (bfs : Filters b) (c x : Text)
      → tests b bfs c x ≡ true
      → tests b (add_to_bf b chain a bfs) c x ≡ true
  unfolding tests
  tests-add_to_bf chain a bfs c x h = elim (Option-cases (lookup c bfs)) [
    | inl e ↦ ground arith
    | inr (f, e) ↦ ground (arith, lookup-add_to_bf chain a bfs c, b.test-add f a x)
  ]

  pub tests-add_to_bf_self :
      (chain a : Text) (bfs : Filters b)
      → is_known b bfs chain ≡ true
      → tests b (add_to_bf b chain a bfs) chain a ≡ true
  unfolding tests is_known
  tests-add_to_bf_self chain a bfs h = elim (Option-cases (lookup chain bfs)) [
    | inl e ↦ ground arith
    | inr (f, e) ↦
        ground (arith, lookup-add_to_bf chain a bfs chain, text_eq_self chain, b.test-add_self f a)
  ]

  -- Every enabled row of a list, on a chain that has a filter, tests positive.
  abbrev pub Covers : Filters b → List WatchedAddress → Type 0
  Covers bfs was =
      (wa : WatchedAddress)
      → In wa was
      → wa.status ≡ 1
      → is_known b bfs wa.chain ≡ true
      → tests b bfs wa.chain wa.address ≡ true

  -- One state of the filters is above another if it knows the same chains and tests as much.
  pub record IsAbove (bfs bfs' : Filters b) : Type 0 where
    pub known : (c : Text) → is_known b bfs' c ≡ is_known b bfs c
    pub kept : (c x : Text) → tests b bfs c x ≡ true → tests b bfs' c x ≡ true

  pub IsAbove-refl : (bfs : Filters b) → IsAbove bfs bfs
  IsAbove-refl bfs = record { known = λ c. refl; kept = λ c x h. h }

  pub IsAbove-trans : {x y z : Filters b} → IsAbove x y → IsAbove y z → IsAbove x z
  IsAbove-trans p q = record {
    known = λ c. q.known c ∙ p.known c;
    kept = λ c x h. q.kept c x (p.kept c x h);
  }

  pub IsAbove-add_to_bf : (chain a : Text) (bfs : Filters b) → IsAbove bfs (add_to_bf b chain a bfs)
  IsAbove-add_to_bf chain a bfs = record {
    known = is_known-add_to_bf chain a bfs;
    kept = tests-add_to_bf chain a bfs;
  }

  pub IsAbove-sync_rows :
      (was : List WatchedAddress) (bfs : Filters b) (m : ℕ)
      → IsAbove bfs (sync_rows b was (bfs, m)).0
  unfolding sync_rows
  IsAbove-sync_rows [] bfs m = IsAbove-refl bfs
  IsAbove-sync_rows (wa ∷ was) bfs m =
      IsAbove-trans (IsAbove-add_to_bf wa.chain wa.address bfs) (IsAbove-sync_rows was _ _)

  pub IsAbove-add_rows :
      (was : List WatchedAddress) (bfs : Filters b) (m : ℕ)
      → IsAbove bfs (add_rows b was (bfs, m)).0
  unfolding add_rows
  IsAbove-add_rows [] bfs m = IsAbove-refl bfs
  IsAbove-add_rows (wa ∷ was) bfs m =
      IsAbove-trans (IsAbove-add_to_bf wa.chain wa.address bfs) (IsAbove-add_rows was _ _)

  pub IsAbove-add_missing :
      (chain : Text) (as' : List Text) (bfs : Filters b) → IsAbove bfs (add_missing b chain as' bfs)
  unfolding add_missing
  IsAbove-add_missing chain [] bfs = IsAbove-refl bfs
  IsAbove-add_missing chain (a ∷ as') bfs = elim (Bool-cases (tests b bfs chain a)) [
    | inl e ↦ rw e (IsAbove-add_missing chain as' bfs)
    | inr e ↦ rw e (IsAbove-trans (IsAbove-add_to_bf chain a bfs) (IsAbove-add_missing chain as' _))
  ]

  -- After its loop every row of the list is in its chain's filter.
  pub tests-sync_rows :
      (was : List WatchedAddress) (bfs : Filters b) (m : ℕ) (wa : WatchedAddress)
      → In wa was
      → is_known b bfs wa.chain ≡ true
      → tests b (sync_rows b was (bfs, m)).0 wa.chain wa.address ≡ true
  unfolding sync_rows
  tests-sync_rows [] bfs m wa i k = elim i [ ]
  tests-sync_rows (x ∷ was) bfs m wa (inl e) k = rw e (
      (IsAbove-sync_rows was _ _).kept x.chain x.address
        (tests-add_to_bf_self x.chain x.address bfs (rw e at k)))
  tests-sync_rows (x ∷ was) bfs m wa (inr i) k =
      tests-sync_rows was _ _ wa i (rw (is_known-add_to_bf x.chain x.address bfs) k)

  pub tests-add_rows :
      (was : List WatchedAddress) (bfs : Filters b) (m : ℕ) (wa : WatchedAddress)
      → In wa was
      → is_known b bfs wa.chain ≡ true
      → tests b (add_rows b was (bfs, m)).0 wa.chain wa.address ≡ true
  unfolding add_rows
  tests-add_rows [] bfs m wa i k = elim i [ ]
  tests-add_rows (x ∷ was) bfs m wa (inl e) k = rw e (
      (IsAbove-add_rows was _ _).kept x.chain x.address
        (tests-add_to_bf_self x.chain x.address bfs (rw e at k)))
  tests-add_rows (x ∷ was) bfs m wa (inr i) k =
      tests-add_rows was _ _ wa i (rw (is_known-add_to_bf x.chain x.address bfs) k)
