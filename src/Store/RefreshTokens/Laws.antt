-- ===== src/Store/RefreshTokens/Laws.antt =====
-- Revoked tokens stay revoked, and the hash of a token is in at most one row.
use address_monitor.Prelude.{
  ℕ, ◌≡◌, refl, Bool, true, false, none, some, List, [], ◌∷◌, ◌++◌, ◌&&◌, Text, text_eq,
  text_eq_iff, text_eq_self, ◌==◌, ==_self, first, any, update_if, is_unique, is_unique-update_if,
  is_unique-append, any-append, any-update_if, any-update_if-false, any_of_implies, first-none,
  arith,
}
use address_monitor.Store.RefreshTokens.{
  RefreshToken, TokenTable, create, has_hash, is_live, set_revoked, revoke, get_by_token_hash,
}

abbrev pub same_hash : RefreshToken → RefreshToken → Bool
same_hash a b = text_eq a.token_hash b.token_hash

pub record IsHashUnique (t : TokenTable) : Type 0 where
  pub rows_unique : is_unique same_hash t.rows ≡ true

abbrev pub is_unrevoked : Text → RefreshToken → Bool
is_unrevoked hash r = has_hash hash r && (r.revoked == 0)

-- A row has the hash, and all that have it are revoked.
pub record IsSpent (hash : Text) (t : TokenTable) : Type 0 where
  pub taken : any (has_hash hash) t.rows ≡ true
  pub dead : any (is_unrevoked hash) t.rows ≡ false

swap_hash : (a b : RefreshToken) → same_hash a b ≡ same_hash b a
swap_hash a b =
    ground (arith, text_eq_iff a.token_hash b.token_hash, text_eq_iff b.token_hash a.token_hash)

-- The rows with the hash of a row are those that agree with it.
any-same_hash :
    (x : RefreshToken) (hash : Text) (rows : List RefreshToken)
    → text_eq x.token_hash hash ≡ true
    → any (same_hash x) rows ≡ any (has_hash hash) rows
any-same_hash x hash [] e = refl
any-same_hash x hash (y ∷ ys) e = ground (
  arith,
  text_eq_iff x.token_hash hash,
  text_eq_iff x.token_hash y.token_hash,
  text_eq_iff y.token_hash hash,
  any-same_hash x hash ys,
)

-- The row that create adds.
abbrev pub added : RefreshToken → TokenTable → RefreshToken
added rt t = record rt { id = t.next_id }

pub create_some :
    (rt : RefreshToken) (t t' : TokenTable)
    → create rt t ≡ some t'
    → (any (has_hash rt.token_hash) t.rows ≡ false) × (t'.rows ≡ t.rows ++ added rt t ∷ [])
unfolding create
create_some rt t t' h = ground arith

pub create-IsHashUnique :
    (rt : RefreshToken) (t t' : TokenTable)
    → create rt t ≡ some t'
    → IsHashUnique t
    → IsHashUnique t'
create-IsHashUnique rt t t' h u =
    let (free, e) = create_some rt t t' h in
    record {
      rows_unique = rw e (
          is_unique-append same_hash (added rt t) swap_hash t.rows u.rows_unique (
            rw (any-same_hash (added rt t) rt.token_hash t.rows (text_eq_self rt.token_hash))
              free));
    }

pub revoke-IsHashUnique : (id : ℕ) (t : TokenTable) → IsHashUnique t → IsHashUnique (revoke id t)
unfolding revoke
revoke-IsHashUnique id t u = record {
  rows_unique =
      rw
        (is_unique-update_if same_hash (λ r. r.id == id) set_revoked (λ x y. refl) (λ x y. refl)
          t.rows)
        u.rows_unique;
}

pub revoke-IsSpent :
    (id : ℕ) (hash : Text) (t : TokenTable) → IsSpent hash t → IsSpent hash (revoke id t)
unfolding revoke
revoke-IsSpent id hash t s = record {
  taken =
      rw (any-update_if (has_hash hash) (λ r. r.id == id) set_revoked (λ x. refl) t.rows) s.taken;
  dead =
      any-update_if-false (is_unrevoked hash) (λ r. r.id == id) set_revoked (λ x h. ground arith)
        t.rows s.dead;
}

pub create-IsSpent :
    (rt : RefreshToken) (t t' : TokenTable) (hash : Text)
    → create rt t ≡ some t'
    → IsSpent hash t
    → IsSpent hash t'
create-IsSpent rt t t' hash h s =
    let (free, e) = create_some rt t t' h in
    record {
      taken = rw e (ground (arith, any-append (has_hash hash) t.rows (added rt t ∷ []), s.taken));
      dead = rw e (
          ground (
            arith,
            any-append (is_unrevoked hash) t.rows (added rt t ∷ []),
            s.dead,
            s.taken,
            free,
            text_eq_iff rt.token_hash hash,
          ));
    }

pub IsSpent-refused :
    (hash : Text) (now : ℕ) (t : TokenTable) → IsSpent hash t → get_by_token_hash hash now t ≡ none
unfolding get_by_token_hash
IsSpent-refused hash now t s =
    first-none (is_live hash now) t.rows
      (any_of_implies (is_live hash now) (is_unrevoked hash) (λ x h. ground arith) t.rows s.dead)

find_any :
    (hash : Text) (now : ℕ) (rt : RefreshToken) (rows : List RefreshToken)
    → first (is_live hash now) rows ≡ some rt
    → any (has_hash hash) rows ≡ true
find_any hash now rt [] h = cc
find_any hash now rt (x ∷ xs) h = ground (arith, find_any hash now rt xs)

revoke_rows :
    (hash : Text) (now : ℕ) (rt : RefreshToken) (rows : List RefreshToken)
    → is_unique same_hash rows ≡ true
    → first (is_live hash now) rows ≡ some rt
    → any (is_unrevoked hash) (update_if (λ r. r.id == rt.id) set_revoked rows) ≡ false
revoke_rows hash now rt [] u h = refl
revoke_rows hash now rt (x ∷ xs) u h = ground (
  arith,
  find_any hash now rt xs,
  any-same_hash x hash xs,
  ==_self x.id,
  any-update_if-false (is_unrevoked hash) (λ r. r.id == rt.id) set_revoked (λ r e. ground arith) xs,
  any_of_implies (is_unrevoked hash) (has_hash hash) (λ r e. ground arith) xs,
  revoke_rows hash now rt xs,
)

-- The row that a query finds is the only one with its hash: revoking it spends the hash.
pub revoke_spends :
    (hash : Text) (now : ℕ) (rt : RefreshToken) (t : TokenTable)
    → IsHashUnique t
    → get_by_token_hash hash now t ≡ some rt
    → IsSpent hash (revoke rt.id t)
unfolding get_by_token_hash revoke
revoke_spends hash now rt t u h = record {
  taken =
      rw (any-update_if (has_hash hash) (λ r. r.id == rt.id) set_revoked (λ x. refl) t.rows)
        (find_any hash now rt t.rows h);
  dead = revoke_rows hash now rt t.rows u.rows_unique h;
}
