-- ===== src/DistLock/Laws.antt =====
-- At most one instance has a lease of a key that has not run out.
use address_monitor.Prelude.{
  ℕ, ◌+◌, ◌≡◌, ◌≤◌, ◌<◌, refl, sym, ◌∙◌, Bool, true, false, Option, none, some, List, [], ◌∷◌, Text,
  text_eq, eq_of_text_eq, is_empty_text, ◌==◌, ltb, ltb→lt, Bool-cases, Option-cases, inl, inr,
  arith,
}
use address_monitor.DistLock.{
  Entry, live, lock, if_held, unlock, renew, Action, World, act, run, set_key, set_lease, leased,
  granted,
}
use address_monitor.DistLock.Grants.{
  is_own, are_own, backs, is_named, IsSafe, live_of_backs, if_same, lease_other_key, lease_other_id,
  grant-IsSafe,
}

-- The world after a script of an instance that has the key: a new entry, and a lease up to t.
abbrev scripted : ℕ → Text → Option Entry → ℕ → World → World
scripted i key entry t w = record {
  state = record w.state { store = set_key key entry w.state.store };
  lease = set_lease i key t w.lease;
}

some_inj : {A : Type 0} {a b : A} → some a ≡ some b → a ≡ b
some_inj h = cc

two_owners :
    (owner : Text → ℕ) (v : Text) (i j : ℕ)
    → (owner v == i) ≡ true
    → (owner v == j) ≡ true
    → (i == j) ≡ false
    → ⊥
two_owners owner v i j h k f = ground arith

scripted-IsSafe :
    (owner : Text → ℕ) (i : ℕ) (key : Text) (entry : Option Entry) (t : ℕ) (w : World) (e : Entry)
    → w.state.store key ≡ some e
    → (owner e.value == i) ≡ true
    → (w.state.now < t → backs owner i t entry ≡ true)
    → is_named owner entry ≡ true
    → IsSafe owner w
    → IsSafe owner (scripted i key entry t w)
scripted-IsSafe owner i key entry t w e here has backed named s = record {
  backed = λ j k lt. elim (Bool-cases (text_eq key k)) [
    | inl same ↦ elim (Bool-cases (i == j)) [
      | inl f ↦
          rw (same, f) (let own : i ≡ j = ground arith in rw (← own) (backed (rw (same, f) at lt)))
      | inr f ↦ absurd (
          let lt' : w.state.now < w.lease j k = rw (lease_other_id i key t w.lease j k f) at lt in
          let (x, _, there, mine) =
            live_of_backs owner j w.state.now (w.lease j k) (w.state.store k) lt'
              (s.backed j k lt') in
          let here' : w.state.store k ≡ some e = rw (eq_of_text_eq key k same) at here in
          let one : e ≡ x = some_inj (sym here' ∙ there) in
          two_owners owner e.value i j has (rw (← one) at mine) f)
    ]
    | inr other ↦
        let lt' : w.state.now < w.lease j k =
          rw (lease_other_key i key t w.lease j k other) at lt in
        rw (other, if_same (i == j) (w.lease j k)) (s.backed j k lt')
  ];
  values = s.values;
  named = λ k. elim (Bool-cases (text_eq key k)) [
    | inl same ↦ rw same named
    | inr other ↦ rw other (s.named k)
  ];
}

live_here :
    (now : ℕ) (o : Option Entry) (e : Entry)
    → live now o ≡ some e
    → (o ≡ some e) × (now < e.expires_at)
unfolding live
live_here now none e h = cc
live_here now (some x) e h = ground arith

-- The value of an entry that an instance has is its own.
own_value :
    (owner : Text → ℕ) (i : ℕ) (key : Text) (w : World) (e : Entry)
    → w.state.store key ≡ some e
    → text_eq e.value (w.state.values i) ≡ true
    → IsSafe owner w
    → owner (w.state.values i) ≡ i
own_value owner i key w e here has s =
    let named : is_named owner (some e) ≡ true = rw here at (s.named key) in
    let same : e.value ≡ w.state.values i = eq_of_text_eq e.value (w.state.values i) has in
    s.values i (rw (← same) (ground arith))

either-IsSafe :
    (owner : Text → ℕ) (i : ℕ) (key : Text) (entry : Option Entry) (t : ℕ) (fails : Bool)
    (w : World)
    → (w.state.now < t → owner (w.state.values i) ≡ i → backs owner i t entry ≡ true)
    → ((e : Entry)
        → w.state.store key ≡ some e
        → text_eq e.value (w.state.values i) ≡ true
        → is_named owner entry ≡ true)
    → IsSafe owner w
    → IsSafe owner (leased i key t (if_held fails i key entry w.state) w)
unfolding if_held
either-IsSafe owner i key entry t true w backed named s = s
either-IsSafe owner i key entry t false w backed named s =
    elim (Option-cases (live w.state.now (w.state.store key))) [
      | inl free ↦ rw (if_held, free) s
      | inr (e, is_live) ↦
          let (here, lt) = live_here w.state.now (w.state.store key) e is_live in
          elim (Bool-cases (text_eq e.value (w.state.values i))) [
            | inr other ↦ rw (if_held, is_live) (rw other s)
            | inl has ↦
                let own = own_value owner i key w e here has s in
                rw (if_held, is_live)
                  (rw has (
                    scripted-IsSafe owner i key entry t w e here
                      (rw (eq_of_text_eq e.value (w.state.values i) has) (ground arith))
                      (λ h. backed h own) (named e here has) s))
          ]
    ]

locks-IsSafe :
    (owner : Text → ℕ) (fails : Bool) (i : ℕ) (key uuid : Text) (ttl : ℕ) (w : World)
    → (owner uuid == i) ≡ true
    → is_empty_text uuid ≡ false
    → IsSafe owner w
    → IsSafe owner (granted i key (w.state.now + ttl) (lock fails i key uuid ttl w.state) w)
unfolding lock
locks-IsSafe owner true i key uuid ttl w own filled s = s
locks-IsSafe owner false i key uuid ttl w own filled s =
    elim (Option-cases (live w.state.now (w.state.store key))) [
      | inl free ↦ rw (lock, free) (grant-IsSafe owner i key uuid ttl w free own filled s)
      | inr (e, held) ↦ rw (lock, held) s
    ]

act-IsSafe :
    (owner : Text → ℕ) (a : Action) (w : World)
    → is_own owner a ≡ true
    → IsSafe owner w
    → IsSafe owner (act a w)
unfolding act unlock renew
act-IsSafe owner (Action.waits d) w o s = record {
  backed = λ i key lt. s.backed i key (omega arith);
  values = s.values;
  named = s.named;
}
act-IsSafe owner (Action.locks fails i key uuid ttl) w o s =
    locks-IsSafe owner fails i key uuid ttl w (ground arith) (ground arith) s
act-IsSafe owner (Action.unlocks fails i key) w o s =
    either-IsSafe owner i key none 0 fails w (λ lt own. absurd (omega arith)) (λ e here has. refl) s
act-IsSafe owner (Action.renews fails i key ttl) w o s =
    either-IsSafe owner i key
      (some (record { value = w.state.values i; expires_at = w.state.now + ttl }))
      (w.state.now + ttl) fails w (λ lt own. rw own (ground arith))
      (λ e here has. rw (← eq_of_text_eq e.value (w.state.values i) has) (rw here at (s.named key)))
      s

run-IsSafe :
    (owner : Text → ℕ) (as' : List Action) (w : World)
    → are_own owner as' ≡ true
    → IsSafe owner w
    → IsSafe owner (run as' w)
unfolding run
run-IsSafe owner [] w o s = s
run-IsSafe owner (a ∷ as') w o s =
    run-IsSafe owner as' (act a w) (ground arith) (act-IsSafe owner a w (ground arith) s)

same_holder :
    (owner : Text → ℕ) (v : World) (i j : ℕ) (key : Text)
    → IsSafe owner v
    → v.state.now < v.lease i key
    → v.state.now < v.lease j key
    → i ≡ j
same_holder owner v i j key safe li lj =
    let (x, _, a, mine) =
      live_of_backs owner i v.state.now (v.lease i key) (v.state.store key) li
        (safe.backed i key li) in
    let (y, _, b, yours) =
      live_of_backs owner j v.state.now (v.lease j key) (v.state.store key) lj
        (safe.backed j key lj) in
    let same : x ≡ y = some_inj (sym a ∙ b) in
    let yours' : (owner x.value == j) ≡ true = rw (← same) at yours in ground (arith, mine, yours')

-- Over any calls of Lock, Unlock and Renew by the instances, with errors of Redis, and any waiting:
-- while an instance has a lease of a key, by what Lock and Renew granted it, the leases of the other
-- instances of the key have run out, if no two instances ever get the same random text and none is
-- empty.
pub one_lease :
    (owner : Text → ℕ) (as' : List Action) (w : World) (i j : ℕ) (key : Text)
    → IsSafe owner w
    → are_own owner as' ≡ true
    → (run as' w).state.now < (run as' w).lease i key
    → (i == j) ≡ false
    → (run as' w).lease j key ≤ (run as' w).state.now
one_lease owner as' w i j key s o li other =
    elim (Bool-cases (ltb (run as' w).state.now ((run as' w).lease j key))) [
      | inl lj ↦
          let same =
            same_holder owner (run as' w) i j key (run-IsSafe owner as' w o s) li (ltb→lt _ _ lj) in
          absurd (ground arith)
      | inr gone ↦ ground arith
    ]
