-- ===== src/Prelude/Rows.antt =====
-- Tables as lists of rows: an UPDATE with its condition, a unique column, and what the queries
-- `first` and `any` answer after a change.
use mathlib.Core.Path.{◌≡◌, refl}
use mathlib.Core.Bool.{Bool, true, false, not, ◌&&◌, ◌||◌}
use mathlib.Core.List.{List, [], ◌∷◌, ◌++◌}
use mathlib.Core.Option.{none, some}
use native.Mathlib.Omega.{arith}
use address_monitor.Prelude.Tests.{if◌then◌else◌}
use address_monitor.Prelude.Lists.{first, any}

module _ {A : Type 0} where
  -- UPDATE … WHERE p
  abbrev pub update_if : (A → Bool) → (A → A) → List A → List A
  update_if p f [] = []
  update_if p f (x ∷ xs) = (if p x then f x else x) ∷ update_if p f xs

  -- No two rows agree by `same`.
  abbrev pub is_unique : (A → A → Bool) → List A → Bool
  is_unique same [] = true
  is_unique same (x ∷ xs) = not (any (same x) xs) && is_unique same xs

  pub any-append : (p : A → Bool) (xs ys : List A) → any p (xs ++ ys) ≡ (any p xs || any p ys)
  any-append p [] ys = refl
  any-append p (x ∷ xs) ys = ground (arith, any-append p xs ys)

  pub first-append :
      (p : A → Bool) (xs ys : List A) → any p xs ≡ false → first p (xs ++ ys) ≡ first p ys
  first-append p [] ys h = refl
  first-append p (x ∷ xs) ys h = ground (arith, first-append p xs ys)

  pub first-append_some :
      (p : A → Bool) (xs ys : List A) (a : A) → first p xs ≡ some a → first p (xs ++ ys) ≡ some a
  first-append_some p [] ys a h = cc
  first-append_some p (x ∷ xs) ys a h = ground (arith, first-append_some p xs ys a)

  pub first_passes : (p : A → Bool) (xs : List A) (a : A) → first p xs ≡ some a → p a ≡ true
  first_passes p [] a h = cc
  first_passes p (x ∷ xs) a h = ground (arith, first_passes p xs a)

  pub any-first : (p : A → Bool) (xs : List A) (a : A) → first p xs ≡ some a → any p xs ≡ true
  any-first p [] a h = cc
  any-first p (x ∷ xs) a h = ground (arith, any-first p xs a)

  pub first-none : (p : A → Bool) (xs : List A) → any p xs ≡ false → first p xs ≡ none
  first-none p [] h = refl
  first-none p (x ∷ xs) h = ground (arith, first-none p xs)

  pub any_of_first-none : (p : A → Bool) (xs : List A) → first p xs ≡ none → any p xs ≡ false
  any_of_first-none p [] h = refl
  any_of_first-none p (x ∷ xs) h = ground (arith, any_of_first-none p xs)

  -- A test that no row passes and that an update makes no row pass.
  pub any-update_if-false :
      (p q : A → Bool) (f : A → A)
      → ((x : A) → p x ≡ false → p (f x) ≡ false)
      → (xs : List A) → any p xs ≡ false
      → any p (update_if q f xs) ≡ false
  any-update_if-false p q f keeps [] h = refl
  any-update_if-false p q f keeps (x ∷ xs) h =
      ground (arith, keeps x, any-update_if-false p q f keeps xs)

  -- A test that does not look at what an update changes.
  pub any-update_if :
      (p q : A → Bool) (f : A → A)
      → ((x : A) → p (f x) ≡ p x)
      → (xs : List A) → any p (update_if q f xs) ≡ any p xs
  any-update_if p q f keeps [] = refl
  any-update_if p q f keeps (x ∷ xs) = ground (arith, keeps x, any-update_if p q f keeps xs)

  -- An implied test.
  pub any_of_implies :
      (p q : A → Bool)
      → ((x : A) → p x ≡ true → q x ≡ true)
      → (xs : List A) → any q xs ≡ false
      → any p xs ≡ false
  any_of_implies p q implies [] h = refl
  any_of_implies p q implies (x ∷ xs) h = ground (arith, implies x, any_of_implies p q implies xs)

  -- The first row of a query that does not look at what an update changes.
  pub first-update_if :
      (p q : A → Bool) (f : A → A)
      → ((x : A) → p (f x) ≡ p x)
      → (xs : List A) (a : A) → first p xs ≡ some a
      → first p (update_if q f xs) ≡ some (if q a then f a else a)
  first-update_if p q f keeps [] a h = cc
  first-update_if p q f keeps (x ∷ xs) a h =
      ground (arith, keeps x, first-update_if p q f keeps xs a)

  any_ext : (p q : A → Bool) → ((x : A) → p x ≡ q x) → (xs : List A) → any p xs ≡ any q xs
  any_ext p q same [] = refl
  any_ext p q same (x ∷ xs) = ground (arith, same x, any_ext p q same xs)

  pub is_unique-update_if :
      (same : A → A → Bool) (q : A → Bool) (f : A → A)
      → ((x y : A) → same (f x) y ≡ same x y)
      → ((x y : A) → same x (f y) ≡ same x y)
      → (xs : List A) → is_unique same (update_if q f xs) ≡ is_unique same xs
  is_unique-update_if same q f left right [] = refl
  is_unique-update_if same q f left right (x ∷ xs) = ground (
    arith,
    any-update_if (same x) q f (right x) xs,
    any-update_if (same (f x)) q f (right (f x)) xs,
    any_ext (same (f x)) (same x) (left x) xs,
    is_unique-update_if same q f left right xs,
  )

  -- A row that no row of the table agrees with can be added.
  pub is_unique-append :
      (same : A → A → Bool) (a : A)
      → ((x y : A) → same x y ≡ same y x)
      → (xs : List A) → is_unique same xs ≡ true
      → any (same a) xs ≡ false
      → is_unique same (xs ++ a ∷ []) ≡ true
  is_unique-append same a swap [] u h = refl
  is_unique-append same a swap (x ∷ xs) u h =
      ground (arith, any-append (same x) xs (a ∷ []), swap x a, is_unique-append same a swap xs)

  -- What a query finds is in the table.
  pub any_found :
      (p q : A → Bool) (xs : List A) (a : A) → first p xs ≡ some a → q a ≡ true → any q xs ≡ true
  any_found p q [] a h e = cc
  any_found p q (x ∷ xs) a h e = ground (arith, any_found p q xs a)

  -- A row is found by a column without repetitions.
  pub first_by_key :
      (same : A → A → Bool) (p : A → Bool) (xs : List A) (a : A)
      → is_unique same xs ≡ true
      → same a a ≡ true
      → first p xs ≡ some a
      → first (λ x. same x a) xs ≡ some a
  first_by_key same p [] a u e h = cc
  first_by_key same p (x ∷ xs) a u e h =
      ground (arith, any_found p (same x) xs a, first_by_key same p xs a)

  -- An UPDATE that makes no two rows agree, where no row is one of the bad ones.
  any-update_if_apart :
      (same : A → A → Bool) (bad q : A → Bool) (f : A → A)
      → ((x y : A)
          → bad x ≡ false
          → bad y ≡ false
          → same x y ≡ false
          → same (if q x then f x else x) (if q y then f y else y) ≡ false)
      → (x : A) (xs : List A) → bad x ≡ false
      → any bad xs ≡ false
      → any (same x) xs ≡ false
      → any (same (if q x then f x else x)) (update_if q f xs) ≡ false
  any-update_if_apart same bad q f apart x [] b bs h = refl
  any-update_if_apart same bad q f apart x (y ∷ ys) b bs h =
      ground (arith, apart x y, any-update_if_apart same bad q f apart x ys)

  pub is_unique-update_if_apart :
      (same : A → A → Bool) (bad q : A → Bool) (f : A → A)
      → ((x y : A)
          → bad x ≡ false
          → bad y ≡ false
          → same x y ≡ false
          → same (if q x then f x else x) (if q y then f y else y) ≡ false)
      → (xs : List A) → any bad xs ≡ false
      → is_unique same xs ≡ true
      → is_unique same (update_if q f xs) ≡ true
  is_unique-update_if_apart same bad q f apart [] bs u = refl
  is_unique-update_if_apart same bad q f apart (x ∷ xs) bs u = ground (
    arith,
    any-update_if_apart same bad q f apart x xs,
    is_unique-update_if_apart same bad q f apart xs,
  )
