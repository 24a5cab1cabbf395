-- ===== src/Store/Users/Laws.antt =====
-- Keys and addresses are in at most one row of users, and what the queries find after a change.
use address_monitor.Prelude.{
  ℕ, ◌+◌, ◌≡◌, refl, Bool, true, false, some, List, [], ◌∷◌, ◌++◌, Text, ◌==◌, ==_self, leb, any,
  is_unique, is_unique-update_if, is_unique-append, any-append, any-update_if, first-append,
  first-update_if, first_by_key, any_of_implies, arith,
}
use address_monitor.Store.Users.{
  User, UserTable, inserted, create, get_by_email, get_by_id, set_status, update_status,
}

-- How a text column compares.
pub record IsCollation (same : Text → Text → Bool) : Type 0 where
  pub self : (a : Text) → same a a ≡ true
  pub swap : (a b : Text) → same a b ≡ same b a

abbrev pub same_id : User → User → Bool
same_id a b = a.id == b.id

abbrev pub same_email : (Text → Text → Bool) → User → User → Bool
same_email same a b = same a.email b.email

-- Keys are unique and below the next one, addresses are unique.
pub record IsKeyed (same : Text → Text → Bool) (t : UserTable) : Type 0 where
  pub ids : is_unique same_id t.rows ≡ true
  pub below : any (λ u. leb t.next_id u.id) t.rows ≡ false
  pub emails : is_unique (same_email same) t.rows ≡ true

pub create_some :
    (same : Text → Text → Bool) (u row : User) (t t' : UserTable)
    → create same u t ≡ some (row, t')
    → (any (λ r. same r.email u.email) t.rows ≡ false)
      × (row ≡ inserted t.next_id u)
      × (t'.rows ≡ t.rows ++ inserted t.next_id u ∷ [])
      × (t'.next_id ≡ t.next_id + 1)
unfolding create
create_some same u row t t' h = ground arith

swap_id : (a b : User) → same_id a b ≡ same_id b a
swap_id a b = ground arith

swapped_email :
    (same : Text → Text → Bool)
    → IsCollation same
    → (u : User) (rows : List User)
    → any (same_email same u) rows ≡ any (λ r. same r.email u.email) rows
swapped_email same c u [] = refl
swapped_email same c u (x ∷ xs) = ground (arith, c.swap u.email x.email, swapped_email same c u xs)

pub create-IsKeyed :
    (same : Text → Text → Bool)
    → IsCollation same
    → (u row : User) (t t' : UserTable) → create same u t ≡ some (row, t')
    → IsKeyed same t
    → IsKeyed same t'
unfolding inserted
create-IsKeyed same c u row t t' h k =
    let (free, _, e, n) = create_some same u row t t' h in
    let new : User = inserted t.next_id u in
    record {
      ids = rw e (
          is_unique-append same_id new swap_id t.rows k.ids (
            any_of_implies (same_id new) (λ r. leb t.next_id r.id) (λ x p. ground arith) t.rows
              k.below));
      below =
          rw (e, n)
            (ground (
              arith,
              any-append (λ r. leb (t.next_id + 1) r.id) t.rows (new ∷ []),
              any_of_implies (λ r. leb (t.next_id + 1) r.id) (λ r. leb t.next_id r.id)
                  (λ x p. ground arith) t.rows k.below,
            ));
      emails = rw e (
          is_unique-append (same_email same) new (λ a b. c.swap a.email b.email) t.rows k.emails
            (rw (swapped_email same c new t.rows) free));
    }

pub update_status-IsKeyed :
    (same : Text → Text → Bool) (id status : ℕ) (t : UserTable)
    → IsKeyed same t
    → IsKeyed same (update_status id status t)
unfolding update_status
update_status-IsKeyed same id status t k =
    let p : User → Bool = λ r. r.id == id in
    record {
      ids =
          rw (is_unique-update_if same_id p (set_status status) (λ x y. refl) (λ x y. refl) t.rows)
            k.ids;
      below =
          rw (any-update_if (λ u. leb t.next_id u.id) p (set_status status) (λ x. refl) t.rows)
            k.below;
      emails =
          rw
            (is_unique-update_if (same_email same) p (set_status status) (λ x y. refl) (λ x y. refl)
              t.rows)
            k.emails;
    }

-- Who is found by the address is found by the key.
pub get_by_id-get_by_email :
    (same : Text → Text → Bool) (email : Text) (u : User) (t : UserTable)
    → IsKeyed same t
    → get_by_email same email t ≡ some u
    → get_by_id u.id t ≡ some u
unfolding get_by_email get_by_id
get_by_id-get_by_email same email u t k h =
    first_by_key same_id (λ x. same x.email email) t.rows u k.ids (==_self u.id) h

-- A new status is seen by the address.
pub get_by_email-update_status :
    (same : Text → Text → Bool) (email : Text) (u : User) (status : ℕ) (t : UserTable)
    → get_by_email same email t ≡ some u
    → get_by_email same email (update_status u.id status t) ≡ some (set_status status u)
unfolding get_by_email update_status
get_by_email-update_status same email u status t h =
    rw
      (first-update_if (λ x. same x.email email) (λ x. x.id == u.id) (set_status status) (λ x. refl)
        t.rows u h)
      (rw (==_self u.id))

-- A new row is found by its address.
pub get_by_email-create :
    (same : Text → Text → Bool)
    → IsCollation same
    → (u row : User) (t t' : UserTable) → create same u t ≡ some (row, t')
    → get_by_email same u.email t' ≡ some row
unfolding get_by_email inserted
get_by_email-create same c u row t t' h =
    let (free, new, e, _) = create_some same u row t t' h in
    rw (e, new) (rw (first-append (λ x. same x.email u.email) t.rows _ free) (rw (c.self u.email)))
