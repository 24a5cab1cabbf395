-- ===== src/DistLock/Grants.antt =====
-- What makes leases safe, and that a grant of Lock keeps it.
use address_monitor.Prelude.{
  ℕ, ◌+◌, ◌≡◌, ◌<◌, refl, Bool, true, false, Option, none, some, List, [], ◌∷◌, ◌&&◌, not, Text,
  text_eq, eq_of_text_eq, is_empty_text, if◌then◌else◌, ◌==◌, ltb, Bool-cases, inl, inr, arith,
}
use address_monitor.DistLock.{Entry, live, Action, World, set_key, set_id, set_lease}

-- uuid.New: an instance never gets a text that another one gets, nor an empty one.
abbrev pub is_own : (Text → ℕ) → Action → Bool
is_own owner (Action.locks fails i key uuid ttl) = (owner uuid == i) && not (is_empty_text uuid)
is_own owner (Action.unlocks fails i key) = true
is_own owner (Action.renews fails i key ttl) = true
is_own owner (Action.waits d) = true

abbrev pub are_own : (Text → ℕ) → List Action → Bool
are_own owner [] = true
are_own owner (a ∷ as') = is_own owner a && are_own owner as'

-- The entry of a key backs a lease of an instance.
abbrev pub backs : (Text → ℕ) → ℕ → ℕ → Option Entry → Bool
backs owner i until none = false
backs owner i until (some e) = (owner e.value == i) && not (ltb e.expires_at until)

abbrev pub is_named : (Text → ℕ) → Option Entry → Bool
is_named owner none = true
is_named owner (some e) = not (is_empty_text e.value)

pub record IsSafe (owner : Text → ℕ) (w : World) : Type 0 where
  pub backed :
      (i : ℕ) (key : Text)
      → w.state.now < w.lease i key
      → backs owner i (w.lease i key) (w.state.store key) ≡ true
  pub values : (i : ℕ) → is_empty_text (w.state.values i) ≡ false → owner (w.state.values i) ≡ i
  pub named : (key : Text) → is_named owner (w.state.store key) ≡ true

-- A lease that runs is backed by an entry that is live.
pub live_of_backs :
    (owner : Text → ℕ) (j now until : ℕ) (o : Option Entry)
    → now < until
    → backs owner j until o ≡ true
    → (e : Entry) × (live now o ≡ some e) × (o ≡ some e) × ((owner e.value == j) ≡ true)
unfolding live
live_of_backs owner j now until none lt h = cc
live_of_backs owner j now until (some e) lt h = (e, ground arith, refl, ground arith)

abbrev granted_world : ℕ → Text → Text → ℕ → World → World
granted_world i key uuid ttl w = record {
  state = record w.state {
    store =
        set_key key (some (record { value = uuid; expires_at = w.state.now + ttl })) w.state.store;
    values = set_id i uuid w.state.values;
  };
  lease = set_lease i key (w.state.now + ttl) w.lease;
}

none-some : {A : Type 0} (o : Option A) (a : A) → o ≡ none → o ≡ some a → ⊥
none-some o a h k = cc

pub if_same : {A : Type 0} (b : Bool) (a : A) → (if b then a else a) ≡ a
if_same true a = refl
if_same false a = refl

pub lease_other_key :
    (i : ℕ) (key : Text) (t : ℕ) (m : ℕ → Text → ℕ) (j : ℕ) (k : Text)
    → text_eq key k ≡ false
    → set_lease i key t m j k ≡ m j k
lease_other_key i key t m j k e = rw e (if_same (i == j) (m j k))

pub lease_other_id :
    (i : ℕ) (key : Text) (t : ℕ) (m : ℕ → Text → ℕ) (j : ℕ) (k : Text)
    → (i == j) ≡ false
    → set_lease i key t m j k ≡ m j k
lease_other_id i key t m j k e = rw e refl

granted_backed :
    (owner : Text → ℕ) (i : ℕ) (key uuid : Text) (ttl : ℕ) (w : World)
    → live w.state.now (w.state.store key) ≡ none
    → (owner uuid == i) ≡ true
    → IsSafe owner w
    → (j : ℕ) (k : Text) → w.state.now < (granted_world i key uuid ttl w).lease j k
    → backs owner j
        ((granted_world i key uuid ttl w).lease j k)
        ((granted_world i key uuid ttl w).state.store k)
      ≡ true
granted_backed owner i key uuid ttl w free own s j k lt = elim (Bool-cases (text_eq key k)) [
  | inl e ↦ elim (Bool-cases (i == j)) [
    | inl f ↦ rw (e, f) (ground arith)
    | inr f ↦ absurd (
        let lt' : w.state.now < w.lease j k =
          rw (lease_other_id i key (w.state.now + ttl) w.lease j k f) at lt in
        let (x, is_live, _, _) =
          live_of_backs owner j w.state.now (w.lease j k) (w.state.store k) lt'
            (s.backed j k lt') in
        let free' : live w.state.now (w.state.store k) ≡ none =
          rw (eq_of_text_eq key k e) at free in
        none-some (live w.state.now (w.state.store k)) x free' is_live)
  ]
  | inr e ↦
      let same = lease_other_key i key (w.state.now + ttl) w.lease j k e in
      let lt' : w.state.now < w.lease j k = rw same at lt in
      rw (e, if_same (i == j) (w.lease j k)) (s.backed j k lt')
]

pub grant-IsSafe :
    (owner : Text → ℕ) (i : ℕ) (key uuid : Text) (ttl : ℕ) (w : World)
    → live w.state.now (w.state.store key) ≡ none
    → (owner uuid == i) ≡ true
    → is_empty_text uuid ≡ false
    → IsSafe owner w
    → IsSafe owner (granted_world i key uuid ttl w)
grant-IsSafe owner i key uuid ttl w free own filled s = record {
  backed = granted_backed owner i key uuid ttl w free own s;
  values = λ j h. elim (Bool-cases (i == j)) [
    | inl f ↦ rw f (ground arith)
    | inr f ↦ rw f (s.values j (rw f at h))
  ];
  named = λ k. elim (Bool-cases (text_eq key k)) [
    | inl e ↦ rw (e, filled) refl
    | inr e ↦ rw e (s.named k)
  ];
}
