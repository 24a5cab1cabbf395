-- ===== src/Api/Address/Laws.antt =====
-- What the address service does to the table and to the matchers.
use address_monitor.Prelude.{
  ℕ, zero, suc, ◌+◌, ◌≤◌, ◌≡◌, refl, sym, ap, subst, Bool, true, false, not, some, List, [], ◌∷◌,
  ◌++◌, ◌||◌, ◌&&◌, ◌⊎◌, inl, inr, Text, text_eq, text_eq_iff, text_eq_self, is_empty_text,
  is_empty, any, take, drop, length, map, length-append, length-take, length-drop, to_upper, ◌==◌,
  arith, Bool-cases, Option-cases,
}
use address_monitor.Prelude.Strings.{trim_space}
use address_monitor.AddrCodec.{Base58, codec_of, normalize}
use address_monitor.Store.WatchedAddresses
use address_monitor.Store.WatchedAddresses.{WatchedAddress, AddressTable}
use address_monitor.Matcher.Defs.{Filters}
use address_monitor.Api.Address.{
  AddressState, AddressResp, BatchResp, ok, valid_addresses, create_batches, batch_create, delete,
  new_row, Stored, to_address_resp,
}

-- No text stands twice in a list.
abbrev pub is_distinct : List Text → Bool
is_distinct [] = true
is_distinct (x ∷ xs) = not (any (λ y. text_eq y x) xs) && is_distinct xs

unseen :
    (seen : List Text) (x a : Text) (c : Bool)
    → text_eq x a ≡ true
    → (c || any (λ y. text_eq y x) seen) ≡ false
    → any (λ y. text_eq y a) seen ≡ true
    → ⊥
unseen seen x a c p e h =
    let e' = subst (λ z. (c || any (λ y. text_eq y z) seen) ≡ false) ((text_eq_iff x a).0 p) e in
    ground arith

module _ (base : Base58) (chain : Text) where
  valid_addresses-seen :
      (seen as' : List Text) (a : Text)
      → any (λ y. text_eq y a) seen ≡ true
      → any (λ y. text_eq y a) (valid_addresses base chain seen as') ≡ false
  unfolding valid_addresses
  valid_addresses-seen seen [] a h = refl
  valid_addresses-seen seen (x ∷ as') a h =
      let addr = normalize base (codec_of chain) (trim_space x) in
      elim (Bool-cases (is_empty_text addr || any (λ y. text_eq y addr) seen)) [
        | inl e ↦ rw e (valid_addresses-seen seen as' a h)
        | inr e ↦ elim (Bool-cases (text_eq addr a)) [
          | inl p ↦ absurd (unseen seen addr a (is_empty_text addr) p e h)
          | inr p ↦ rw (e, p) (valid_addresses-seen (addr ∷ seen) as' a (rw p h))
        ]
      ]

  -- The addresses that the loop of BatchCreate keeps are distinct.
  pub is_distinct-valid_addresses :
      (seen as' : List Text) → is_distinct (valid_addresses base chain seen as') ≡ true
  unfolding valid_addresses
  is_distinct-valid_addresses seen [] = refl
  is_distinct-valid_addresses seen (x ∷ as') =
      let addr = normalize base (codec_of chain) (trim_space x) in
      elim (Bool-cases (is_empty_text addr || any (λ y. text_eq y addr) seen)) [
        | inl e ↦ rw e (is_distinct-valid_addresses seen as')
        | inr e ↦
            rw (e, valid_addresses-seen (addr ∷ seen) as' addr (rw (text_eq_self addr) refl))
              (is_distinct-valid_addresses (addr ∷ seen) as')
      ]

length-map : {A B : Type 0} → (f : A → B) (xs : List A) → length (map f xs) ≡ length xs
length-map f [] = refl
length-map f (x ∷ xs) = ap suc (length-map f xs)

length-batch_create :
    (was : List WatchedAddress) (t : AddressTable)
    → length (WatchedAddresses.batch_create was t).0 ≡ length was
unfolding WatchedAddresses.batch_create
length-batch_create [] t = refl
length-batch_create (wa ∷ was) t = ap suc (length-batch_create was _)

abbrev pub reported : Stored → ℕ
reported d = length d.success + length d.fail

refused_count :
    (batch fail : List Text) (success : List AddressResp) (all rest : ℕ)
    → length success + length fail ≡ rest
    → length batch + rest ≡ all
    → length success + length (batch ++ fail) ≡ all
refused_count batch fail success all rest h k = omega (arith, length-append batch fail, h, k)

stored_count :
    (batch success : List AddressResp) (fail : List Text) (all rest : ℕ)
    → length success + length fail ≡ rest
    → length batch + rest ≡ all
    → length (batch ++ success) + length fail ≡ all
stored_count batch success fail all rest h k = omega (arith, length-append batch success, h, k)

create_batches-reported :
    (batch_fails : ℕ → Bool) (app_id : ℕ) (chain label : Text) (fuel i : ℕ) (as' : List Text)
    (t : AddressTable)
    → length as' ≤ fuel
    → reported (create_batches batch_fails app_id chain label fuel i as' t) ≡ length as'
unfolding create_batches
create_batches-reported batch_fails app_id chain label zero i [] t h = refl
create_batches-reported batch_fails app_id chain label zero i (a ∷ as') t h =
    absurd (omega (arith, h))
create_batches-reported batch_fails app_id chain label (suc fuel) i [] t h = refl
create_batches-reported batch_fails app_id chain label (suc fuel) i (a ∷ as') t h =
    let all = a ∷ as' in
    let rest = λ (t' : AddressTable).
      create_batches-reported batch_fails app_id chain label fuel (i + 1) (drop 500 all) t'
        (omega (arith, length-drop 500 all, h)) in
    elim (Bool-cases (batch_fails i)) [
      | inl e ↦ rw e (
          refused_count (take 500 all) _ _ (length all) (length (drop 500 all)) (rest t)
            (omega (arith, length-take 500 all, length-drop 500 all)))
      | inr e ↦ rw e (
          stored_count
            (map to_address_resp
              (WatchedAddresses.batch_create (map (new_row app_id chain label) (take 500 all)) t).0)
            _ _ (length all) (length (drop 500 all)) (rest _)
            (omega (
              arith,
              length-map to_address_resp
                  (WatchedAddresses.batch_create (map (new_row app_id chain label) (take 500 all))
                    t).0,
              length-batch_create (map (new_row app_id chain label) (take 500 all)) t,
              length-map (new_row app_id chain label) (take 500 all),
              length-take 500 all,
              length-drop 500 all,
            )))
    ]

ok_eq : (x y : BatchResp) → ok x ≡ ok y → x ≡ y
ok_eq x y p = ground arith

-- A batch that is answered lists as many addresses, stored or refused, as its total, which is the
-- number of the addresses that its first loop keeps, whichever batches the store refuses.
batch_create_reports :
    (base : Base58) (batch_fails : ℕ → Bool) (redis_fails : Bool) (app_id : ℕ) (chain : Text)
    (addresses : List Text) (label : Text) (s : AddressState) (r : BatchResp)
    → (batch_create base batch_fails redis_fails app_id chain addresses label s).0 ≡ ok r
    → (r.total ≡ length r.success + length r.fail)
      × (r.total ≡ length (valid_addresses base chain [] addresses))
unfolding batch_create
batch_create_reports base batch_fails redis_fails app_id chain addresses label s r =
    let valid = valid_addresses base chain [] addresses in
    let count =
      create_batches-reported batch_fails app_id (to_upper chain) label (length valid) 0 valid
        s.table (omega arith) in
    elim (Bool-cases (is_empty valid)) [
      | inl e ↦ rw e (λ p. ground arith)
      | inr e ↦ rw e (λ p.
          subst
            (λ (x : BatchResp).
              (x.total ≡ length x.success + length x.fail) × (x.total ≡ length valid))
            (ok_eq _ r p) (sym count, refl))
    ]

-- A deletion changes something only if the row is there and belongs to the app.
pub delete_own :
    (get_fails store_fails redis_fails : Bool) (app_id id : ℕ) (s : AddressState)
    → ((delete get_fails store_fails redis_fails app_id id s).1 ≡ s)
      ⊎ ((wa : WatchedAddress) × (WatchedAddresses.get_by_id id s.table ≡ some wa)
          × (wa.app_id ≡ app_id))
unfolding delete
delete_own true store_fails redis_fails app_id id s = inl refl
delete_own false store_fails redis_fails app_id id s =
    elim (Option-cases (WatchedAddresses.get_by_id id s.table)) [
      | inl e ↦ inl (rw (e, delete) refl)
      | inr (wa, e) ↦ elim (Bool-cases (wa.app_id == app_id)) [
        | inl own ↦ inr (wa, e, (ground arith))
        | inr other ↦ inl (rw (e, delete, other) refl)
      ]
    ]
