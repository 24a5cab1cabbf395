-- ===== src/Api/RateLimit/Laws.antt =====
-- Laws of the limiter, over calls at times that do not go back.
use address_monitor.Prelude.{
  ℕ, ◌≤◌, ◌<◌, ◌≡◌, ◌∙◌, refl, sym, ap, subst, Bool, true, false, List, [], ◌∷◌, ◌++◌, Text,
  text_eq, text_eq_iff, if◌then◌else◌, leb, select, length, length-append, length-select-le, arith,
  Bool-cases, inl, inr,
}
use address_monitor.Api.RateLimit.{RateLimiter, new_rate_limiter, is_recent, allow}

-- A limiter after some calls at times that do not go back, the last at `last`, with the times of
-- the calls that were let through for each key.
pub data IsReached (limit window : ℕ) : RateLimiter → (Text → List ℕ) → ℕ → Type 0 where
  fresh : IsReached limit window (new_rate_limiter limit window) (λ k. []) 0
  accepted :
      (r : RateLimiter) (h : Text → List ℕ) (last now : ℕ) (key : Text)
      → IsReached limit window r h last
      → last ≤ now
      → (allow key now r).0 ≡ true
      → IsReached limit window
          (allow key now r).1
          (λ k. if text_eq key k then h k ++ now ∷ [] else h k)
          now
  refused :
      (r : RateLimiter) (h : Text → List ℕ) (last now : ℕ) (key : Text)
      → IsReached limit window r h last
      → last ≤ now
      → (allow key now r).0 ≡ false
      → IsReached limit window (allow key now r).1 h now

select-append : (p : ℕ → Bool) (xs ys : List ℕ) → select p (xs ++ ys) ≡ select p xs ++ select p ys
select-append p [] ys = refl
select-append p (x ∷ xs) ys = elim (Bool-cases (p x)) [
  | inl e ↦ rw (e, select-append p xs ys) refl
  | inr e ↦ rw (e, select-append p xs ys) refl
]

older :
    (window now later x : ℕ)
    → now ≤ later
    → is_recent window now x ≡ false
    → is_recent window later x ≡ true
    → ⊥
older window now later x h e f = ground arith

-- What is recent later was recent before.
select-recent :
    (window now later : ℕ) (xs : List ℕ)
    → now ≤ later
    → select (is_recent window later) (select (is_recent window now) xs)
      ≡ select (is_recent window later) xs
select-recent window now later [] h = refl
select-recent window now later (x ∷ xs) h = elim (Bool-cases (is_recent window now x)) [
  | inl e ↦ elim (Bool-cases (is_recent window later x)) [
    | inl f ↦ rw (e, f, select-recent window now later xs h) refl
    | inr f ↦ rw (e, f, select-recent window now later xs h) refl
  ]
  | inr e ↦ elim (Bool-cases (is_recent window later x)) [
    | inl f ↦ absurd (older window now later x h e f)
    | inr f ↦ rw (e, f, select-recent window now later xs h) refl
  ]
]

-- What the limiter keeps is, of what it let through, what still counts; and that is never too much.
record IsKept (max span : ℕ) (r : RateLimiter) (h : Text → List ℕ) (last : ℕ) : Type 0 where
  same_limit : r.limit ≡ max
  same_window : r.window ≡ span
  counted :
      (k : Text) (now : ℕ)
      → last ≤ now
      → select (is_recent span now) (r.requests k) ≡ select (is_recent span now) (h k)
  bounded : (k : Text) (now : ℕ) → last ≤ now → length (select (is_recent span now) (h k)) ≤ max

accepts :
    (key : Text) (now : ℕ) (r : RateLimiter)
    → leb r.limit (length (select (is_recent r.window now) (r.requests key))) ≡ false
    → (allow key now r).0 ≡ false
    → ⊥
unfolding allow
accepts key now r f e = cc

refuses :
    (key : Text) (now : ℕ) (r : RateLimiter)
    → leb r.limit (length (select (is_recent r.window now) (r.requests key))) ≡ true
    → (allow key now r).0 ≡ true
    → ⊥
unfolding allow
refuses key now r f e = cc

below : (l n max : ℕ) → leb l n ≡ false → l ≡ max → n < max
below l n max f e = ground arith

pruned :
    (max span : ℕ) (r : RateLimiter) (h : Text → List ℕ) (last now t : ℕ) (key : Text)
    → IsKept max span r h last
    → last ≤ now
    → now ≤ t
    → select (is_recent span t) (select (is_recent r.window now) (r.requests key))
      ≡ select (is_recent span t) (h key)
pruned max span r h last now t key c le later =
    ap (λ w. select (is_recent span t) (select (is_recent w now) (r.requests key))) c.same_window
    ∙ select-recent span now t (r.requests key) later
    ∙ c.counted key t (omega (arith, le, later))

-- The entry of one key replaced.
for_key :
    (p : ℕ → Bool) (key k : Text) (xs : List ℕ) (old new h : Text → List ℕ)
    → (select p xs ≡ select p (new key))
    → (select p (old k) ≡ select p (h k))
    → select p (if text_eq key k then xs else old k)
      ≡ select p (if text_eq key k then new k else h k)
for_key p key k xs old new h same other = elim (Bool-cases (text_eq key k)) [
  | inl e ↦ rw e (subst (λ j. select p xs ≡ select p (new j)) ((text_eq_iff key k).0 e) same)
  | inr e ↦ rw e other
]

if_same : (c : Bool) (xs : List ℕ) → (if c then xs else xs) ≡ xs
if_same true xs = refl
if_same false xs = refl

both_end :
    (p : ℕ → Bool) (xs ys zs : List ℕ)
    → select p xs ≡ select p ys
    → select p (xs ++ zs) ≡ select p (ys ++ zs)
both_end p xs ys zs e =
    select-append p xs zs ∙ ap (λ l. l ++ select p zs) e ∙ sym (select-append p ys zs)

one_more :
    (p : ℕ → Bool) (max now : ℕ) (xs valid : List ℕ)
    → select p valid ≡ select p xs
    → length valid < max
    → length (select p (xs ++ now ∷ [])) ≤ max
one_more p max now xs valid e lt = rw (select-append p xs (now ∷ [])) (
    omega (
      arith,
      length-append (select p xs) (select p (now ∷ [])),
      length-select-le p (now ∷ []),
      length-select-le p valid,
      ap length e,
      lt,
    ))

IsKept-refused :
    (max span : ℕ) (r : RateLimiter) (h : Text → List ℕ) (last now : ℕ) (key : Text)
    → IsKept max span r h last
    → last ≤ now
    → (allow key now r).0 ≡ false
    → IsKept max span (allow key now r).1 h now
unfolding allow
IsKept-refused max span r h last now key c le e =
    let valid = select (is_recent r.window now) (r.requests key) in
    elim (Bool-cases (leb r.limit (length valid))) [
      | inl f ↦ rw f (record {
        same_limit = c.same_limit;
        same_window = c.same_window;
        counted = λ k t later.
            for_key (is_recent span t) key k valid r.requests h h
              (pruned max span r h last now t key c le later)
              (c.counted k t (omega (arith, le, later)))
            ∙ ap (select (is_recent span t)) (if_same (text_eq key k) (h k));
        bounded = λ k t later. c.bounded k t (omega (arith, le, later));
      })
      | inr f ↦ absurd (accepts key now r f e)
    ]

IsKept-accepted :
    (max span : ℕ) (r : RateLimiter) (h : Text → List ℕ) (last now : ℕ) (key : Text)
    → IsKept max span r h last
    → last ≤ now
    → (allow key now r).0 ≡ true
    → IsKept max span (allow key now r).1 (λ k. if text_eq key k then h k ++ now ∷ [] else h k) now
unfolding allow
IsKept-accepted max span r h last now key c le e =
    let valid = select (is_recent r.window now) (r.requests key) in
    elim (Bool-cases (leb r.limit (length valid))) [
      | inl f ↦ absurd (refuses key now r f e)
      | inr f ↦ rw f (record {
        same_limit = c.same_limit;
        same_window = c.same_window;
        counted = λ k t later.
            for_key (is_recent span t) key k (valid ++ now ∷ []) r.requests (λ j. h j ++ now ∷ []) h
              (both_end (is_recent span t) valid (h key) (now ∷ [])
                (pruned max span r h last now t key c le later))
              (c.counted k t (omega (arith, le, later)));
        bounded = λ k t later. elim (Bool-cases (text_eq key k)) [
          | inl same ↦ rw same (
              subst (λ j. length (select (is_recent span t) (h j ++ now ∷ [])) ≤ max)
                ((text_eq_iff key k).0 same)
                (one_more (is_recent span t) max now (h key) valid
                  (pruned max span r h last now t key c le later)
                  (below r.limit (length valid) max f c.same_limit)))
          | inr other ↦ rw other (c.bounded k t (omega (arith, le, later)))
        ];
      })
    ]

reached-IsKept :
    (max span : ℕ) (r : RateLimiter) (h : Text → List ℕ) (last : ℕ)
    → IsReached max span r h last
    → IsKept max span r h last
unfolding new_rate_limiter
reached-IsKept max span r h last fresh = record {
  same_limit = refl;
  same_window = refl;
  counted = λ k now le. refl;
  bounded = λ k now le. omega arith;
}
reached-IsKept max span r h last (accepted r' h' l now key p le e) =
    IsKept-accepted max span r' h' l now key (reached-IsKept max span r' h' l p) le e
reached-IsKept max span r h last (refused r' h' l now key p le e) =
    IsKept-refused max span r' h' l now key (reached-IsKept max span r' h' l p) le e

-- At any time from its last call on, the requests that a limiter has let through for a key and that
-- are less than a window old are at most its limit, if the clock has not gone back.
pub within_limit :
    (limit window : ℕ) (r : RateLimiter) (h : Text → List ℕ) (last now : ℕ) (key : Text)
    → IsReached limit window r h last
    → last ≤ now
    → length (select (is_recent window now) (h key)) ≤ limit
within_limit limit window r h last now key p le =
    (reached-IsKept limit window r h last p).bounded key now le
