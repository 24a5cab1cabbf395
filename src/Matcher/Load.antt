-- ===== src/Matcher/Load.antt =====
-- Laws of load_pages, which models LoadFromDB.
use native.Mathlib.Nat.{zero-add, suc-add, zero-mul}
use address_monitor.Prelude.{
  ℕ, zero, suc, ◌+◌, ◌*◌, ◌-◌, ◌≡◌, ◌≤◌, ◌<◌, refl, Bool, true, false, Option, some, List, [], ◌∷◌,
  ◌++◌, if◌then◌else◌, leb, arith, In, inl, inr, Bool-cases, select, In-select, take, drop, length,
  length-drop, take-append-drop, length-append, le→leb, leb→le, ap, reverse, In-append_left,
  In-append_right, subst, sym, ◌⊎◌, ◌∙◌,
}
use mathlib.Core.List.{reverse-append}
use address_monitor.Store.WatchedAddresses.{WatchedAddress, AddressTable, list_by_app, in_app}
use address_monitor.Matcher.Defs.{Bloom, Filters, tests, is_known, add_rows, load_pages}
use address_monitor.Matcher.Filters.{
  Covers, IsAbove, IsAbove-add_rows, IsAbove-trans, tests-add_rows,
}

module _ {A : Type 0} where
  drop-nil : (n : ℕ) → drop {A = A} n [] ≡ []
  drop-nil zero = refl
  drop-nil (suc n) = refl

  drop-drop : (m n : ℕ) (xs : List A) → drop m (drop n xs) ≡ drop (n + m) xs
  drop-drop m zero xs = rw zero-add refl
  drop-drop m (suc n) [] = drop-nil m ∙ sym (drop-nil (suc n + m))
  drop-drop m (suc n) (x ∷ xs) = rw suc-add (drop-drop m n xs)

  drop_all : (n : ℕ) (xs : List A) → length xs ≤ n → drop n xs ≡ []
  drop_all zero [] h = refl
  drop_all zero (x ∷ xs) h = absurd (omega arith)
  drop_all (suc n) [] h = refl
  drop_all (suc n) (x ∷ xs) h = drop_all n xs (omega arith)

  In-split : (a : A) (xs ys : List A) → In a (xs ++ ys) → In a xs ⊎ In a ys
  In-split a [] ys h = inr h
  In-split a (x ∷ xs) ys (inl e) = inl (inl e)
  In-split a (x ∷ xs) ys (inr h) = ground (arith, In-split a xs ys h)

  In-take_drop : (a : A) (n : ℕ) (xs : List A) → In a xs → In a (take n xs) ⊎ In a (drop n xs)
  In-take_drop a n xs h =
      In-split a (take n xs) (drop n xs) (subst (λ l. In a l) (sym (take-append-drop n xs)) h)

  In-snoc : (a x : A) (xs : List A) → In a (x ∷ []) ⊎ In a xs → In a (xs ++ x ∷ [])
  In-snoc a x xs (inl h) = In-append_right a xs (x ∷ []) h
  In-snoc a x xs (inr h) = In-append_left a xs (x ∷ []) h

  In-reverse : (a : A) (xs : List A) → In a xs → In a (reverse xs)
  In-reverse a [] h = elim h [ ]
  In-reverse a (x ∷ xs) (inl e) =
      subst (λ l. In a l) (sym (reverse-append (x ∷ []) xs))
        (In-snoc a x (reverse xs) (inl (inl e)))
  In-reverse a (x ∷ xs) (inr h) =
      subst (λ l. In a l) (sym (reverse-append (x ∷ []) xs))
        (In-snoc a x (reverse xs) (inr (In-reverse a xs h)))

  length-reverse : (xs : List A) → length (reverse xs) ≡ length xs
  length-reverse [] = refl
  length-reverse (x ∷ xs) =
      rw (reverse-append (x ∷ []) xs)
        (omega (arith, length-append (reverse xs) (x ∷ []), length-reverse xs))

-- An order shows every row, and as many as there are.
pub record IsOrder (order : List WatchedAddress → List WatchedAddress) : Type 0 where
  pub shows : (wa : WatchedAddress) (was : List WatchedAddress) → In wa was → In wa (order was)
  pub keeps : (was : List WatchedAddress) → length (order was) ≡ length was

-- Newest first, where no two rows are of the same second.
pub reverse-IsOrder : IsOrder reverse
reverse-IsOrder = record { shows = In-reverse; keeps = length-reverse }

-- The enabled rows in the order in which the pages show them.
abbrev shown : (List WatchedAddress → List WatchedAddress) → AddressTable → List WatchedAddress
shown order t = order (select (in_app 0 []) t.rows)

abbrev row_count : AddressTable → ℕ
row_count t = length (select (in_app 0 []) t.rows)

pages_done :
    (order : List WatchedAddress → List WatchedAddress) (ok : IsOrder order) (t : AddressTable)
    (size k : ℕ)
    → row_count t ≤ (k + 1) * size
    → drop size (drop (k * size) (shown order t)) ≡ []
pages_done order ok t size k h =
    drop_all size (drop (k * size) (shown order t)) (
      omega (arith, length-drop (k * size) (shown order t), ok.keeps (select (in_app 0 []) t.rows)))

back : (k : ℕ) → k + 1 - 1 ≡ k
back k = omega arith

next_page : (k size : ℕ) → k * size + size ≡ (k + 1) * size
next_page k size = omega arith

module _ (b : Bloom) (order : List WatchedAddress → List WatchedAddress) (ok : IsOrder order)
    (t : AddressTable) (size : ℕ) where
  abbrev page : ℕ → List WatchedAddress
  page k = take size (drop (k * size) (shown order t))

  abbrev no_failure : ℕ → Bool
  no_failure p = false

  load_pages-suc :
      (fuel k : ℕ) (s : Filters b × ℕ)
      → load_pages b (λ p. order) (suc fuel) no_failure (k + 1) size t s ≡ (
          if leb (row_count t) ((k + 1) * size)
          then some (add_rows b (page k) s)
          else load_pages b (λ p. order) fuel no_failure (k + 1 + 1) size t (add_rows b (page k) s))
  unfolding load_pages list_by_app
  load_pages-suc fuel k s = rw (back k)

  -- What the pages behind the first k do to the filters.
  abbrev Loads : ℕ → Filters b × ℕ → Option (Filters b × ℕ) → Type 0
  Loads k s r =
      (s' : Filters b × ℕ) × (r ≡ some s')
      × IsAbove b s.0 s'.0
      × ((wa : WatchedAddress)
          → In wa (drop (k * size) (shown order t))
          → is_known b s.0 wa.chain ≡ true
          → tests b s'.0 wa.chain wa.address ≡ true)

  Loads-last :
      (k : ℕ) (s : Filters b × ℕ)
      → row_count t ≤ (k + 1) * size
      → Loads k s (some (add_rows b (page k) s))
  Loads-last k s h = (
    add_rows b (page k) s,
    refl,
    IsAbove-add_rows b (page k) s.0 s.1,
    λ wa i known. elim (In-take_drop wa size (drop (k * size) (shown order t)) i) [
      | inl here ↦ tests-add_rows b (page k) s.0 s.1 wa here known
      | inr more ↦ absurd (subst (λ l. In wa l) (pages_done order ok t size k h) more)
    ],
  )

  Loads-more :
      (k : ℕ) (s : Filters b × ℕ) (r : Option (Filters b × ℕ))
      → Loads (k + 1) (add_rows b (page k) s) r
      → Loads k s r
  Loads-more k s r (s', e, above, later) =
      let first = IsAbove-add_rows b (page k) s.0 s.1 in
      (
        s',
        e,
        IsAbove-trans b first above,
        λ wa i known. elim (In-take_drop wa size (drop (k * size) (shown order t)) i) [
          | inl here ↦
              above.kept wa.chain wa.address (tests-add_rows b (page k) s.0 s.1 wa here known)
          | inr more ↦
              later wa
                (subst (λ l. In wa l)
                  (drop-drop size (k * size) (shown order t)
                    ∙ ap (λ n. drop n (shown order t)) (next_page k size))
                  more)
                (first.known wa.chain ∙ known)
        ],
      )

  load_pages-Loads :
      (fuel k : ℕ) (s : Filters b × ℕ)
      → row_count t < (k + suc fuel) * size
      → Loads k s (load_pages b (λ p. order) (suc fuel) no_failure (k + 1) size t s)
  load_pages-Loads zero k s h =
      rw (load_pages-suc zero k s, le→leb (row_count t) ((k + 1) * size) (omega arith))
        (Loads-last k s (omega arith))
  load_pages-Loads (suc fuel) k s h = elim (Bool-cases (leb (row_count t) ((k + 1) * size))) [
    | inl e ↦ rw (load_pages-suc (suc fuel) k s, e) (Loads-last k s (leb→le _ _ e))
    | inr e ↦
        rw (load_pages-suc (suc fuel) k s, e)
          (Loads-more k s _ (load_pages-Loads fuel (k + 1) (add_rows b (page k) s) (omega arith)))
  ]

-- LoadFromDB, when no query fails, the queries of all pages order the rows alike, and the fuel is
-- more than the pages that the table fills, ends with filters that cover the whole table.
pub load_pages-Covers :
    (b : Bloom) (order : List WatchedAddress → List WatchedAddress) (fuel size : ℕ)
    (t : AddressTable) (s : Filters b × ℕ)
    → IsOrder order
    → row_count t < suc fuel * size
    → (s' : Filters b × ℕ) × (load_pages b (λ p. order) (suc fuel) (λ p. false) 1 size t s
        ≡ some s')
      × Covers b s'.0 t.rows
load_pages-Covers b order fuel size t s ok h =
    let (s', e, above, all) = load_pages-Loads b order ok t size fuel 0 s (omega arith) in
    (
      s',
      e,
      λ wa i enabled known.
          all wa
            (subst (λ n. In wa (drop n (shown order t))) (sym (zero-mul size))
              (ok.shows wa _ (In-select wa (in_app 0 []) t.rows i (ground arith))))
            (sym (above.known wa.chain) ∙ known),
    )
