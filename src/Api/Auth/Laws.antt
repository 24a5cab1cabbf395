-- ===== src/Api/Auth/Laws.antt =====
-- What AuthService guarantees to who logs in: the refresh token of a login gives a new pair.
use address_monitor.Prelude.{
  ℕ, ◌+◌, ◌≡◌, ◌<◌, refl, sym, ap, ◌∙◌, Bool, true, false, none, some, Option-cases, [], ◌∷◌, Text,
  ◌==◌, if◌then◌else◌, inl, inr, arith, any, first-append, any_of_implies, any-update_if, not,
  text_eq_self,
}
use address_monitor.Store.Users.{User, get_by_email, get_by_id}
use address_monitor.Store.Users.Laws.{get_by_id-get_by_email}
use address_monitor.Store.RefreshTokens.{
  RefreshToken, TokenTable, has_hash, is_live, set_revoked, get_by_token_hash, revoke,
}
use address_monitor.Store.RefreshTokens
use address_monitor.Store.RefreshTokens.Laws.{create_some, added}
use address_monitor.Api.Result.{Result, ok}
use address_monitor.Api.Auth.{
  AuthLib, AuthState, Call, TokenResp, generate_token_pair, refresh_ttl, login, rotate, refresh,
}
use address_monitor.Api.Auth.Moves.{unless_some, IsValid}
use address_monitor.Api.Auth.Once.{refresh_found}

-- The row and the answer of a pair.
abbrev issued_row : AuthLib → Call → User → RefreshToken
issued_row l c u = record {
  id = 0;
  user_id = u.id;
  token_hash = l.hash_token c.uuid;
  expires_at = c.later + refresh_ttl;
  revoked = 0;
}

abbrev issued_pair : Call → Text → TokenResp
issued_pair c access = record { access_token = access; refresh_token = c.uuid; expires_in = 7200 }

generate_token_pair_ok :
    (l : AuthLib) (c : Call) (u : User) (s : AuthState) (a : Text) (t : TokenTable)
    → l.sign u.id u.email u.role c.later ≡ some a
    → (if c.create_fails then none else RefreshTokens.create (issued_row l c u) s.tokens) ≡ some t
    → generate_token_pair l c u s ≡ (ok (issued_pair c a), record s { tokens = t })
unfolding generate_token_pair
generate_token_pair_ok l c u s a t e e' =
    rw (generate_token_pair, e) (rw (generate_token_pair, e') refl)

abbrev ok_of : (E : Type 0) {A : Type 0} → A → Result E A
ok_of E a = ok a

ok_inj : {E A : Type 0} {a b : A} → ok_of E a ≡ ok_of E b → a ≡ b
ok_inj h = cc

-- What an issued pair says.
record IsIssued (l : AuthLib) (c : Call) (u : User) (s : AuthState) (r : TokenResp) : Type 0 where
  access : Text
  table : TokenTable
  signed : l.sign u.id u.email u.role c.later ≡ some access
  created :
      (if c.create_fails then none else RefreshTokens.create (issued_row l c u) s.tokens)
      ≡ some table
  answer : r ≡ issued_pair c access

generate_token_pair-IsIssued :
    (l : AuthLib) (c : Call) (u : User) (s : AuthState) (r : TokenResp)
    → (generate_token_pair l c u s).0 ≡ ok r
    → IsIssued l c u s r
unfolding generate_token_pair
generate_token_pair-IsIssued l c u s r h =
    elim (Option-cases (l.sign u.id u.email u.role c.later)) [
      | inl e ↦ absurd (ground arith)
      | inr (a, e) ↦
          elim (Option-cases
            (if c.create_fails then none else RefreshTokens.create (issued_row l c u) s.tokens)) [
              | inl e' ↦ absurd (ground arith)
              | inr (t, e') ↦ record {
                access = a;
                table = t;
                signed = e;
                created = e';
                answer = ok_inj (sym h ∙ ap (λ x. x.0) (generate_token_pair_ok l c u s a t e e'));
              }
            ]
    ]

-- What a query that works is answered for, in calls whose stores work.
pub record IsHealthy (c : Call) : Type 0 where
  pub get : c.get_fails ≡ false
  pub update : c.update_fails ≡ false
  pub mark : c.mark_fails ≡ false
  pub get_user : c.get_user_fails ≡ false
  pub create : c.create_fails ≡ false
  pub verification : c.create_verification_fails ≡ false
  pub mail : c.mail_fails ≡ false

rotate_issues :
    (l : AuthLib) (c : Call) (rt : RefreshToken) (s : AuthState) (u : User)
    → IsHealthy c
    → get_by_id rt.user_id s.users ≡ some u
    → rotate l c rt s ≡ generate_token_pair l c u (record s { tokens = revoke rt.id s.tokens })
unfolding rotate
rotate_issues l c rt s u h e = rw (rotate, h.update) (rw (rotate, h.get_user) (rw (rotate, e) refl))

pub login_issues :
    (l : AuthLib) (c : Call) (email password : Text) (s : AuthState) (u : User)
    → (if c.get_fails then none else get_by_email l.same email s.users) ≡ some u
    → (u.status == 0) ≡ false
    → (u.status == 2) ≡ false
    → l.compare_hash u.password_hash password ≡ true
    → login l c email password s ≡ generate_token_pair l c u s
unfolding login
login_issues l c email password s u e v d p =
    rw (login, e) (rw (login, v) (rw (login, d) (rw (login, p) refl)))

record IsLogin (l : AuthLib) (c : Call) (email password : Text) (s : AuthState) (u : User)
    : Type 0 where
  found : get_by_email l.same email s.users ≡ some u
  verified : (u.status == 0) ≡ false
  enabled : (u.status == 2) ≡ false
  known : l.compare_hash u.password_hash password ≡ true
  issues : login l c email password s ≡ generate_token_pair l c u s

login-IsLogin :
    (l : AuthLib) (c : Call) (email password : Text) (s : AuthState) (r : TokenResp)
    → (login l c email password s).0 ≡ ok r
    → (u : User) × IsLogin l c email password s u
unfolding login
login-IsLogin l c email password s r h =
    elim (Option-cases (if c.get_fails then none else get_by_email l.same email s.users)) [
      | inl e ↦ absurd (ground arith)
      | inr (u, e) ↦
          let v : (u.status == 0) ≡ false = ground arith in
          let d : (u.status == 2) ≡ false = ground arith in
          let p : l.compare_hash u.password_hash password ≡ true = ground arith in
          (
            u,
            record {
              found = unless_some c.get_fails _ u e;
              verified = v;
              enabled = d;
              known = p;
              issues = login_issues l c email password s u e v d p;
            },
          )
    ]

-- The libraries answer: a token is signed for everyone.
pub record Signs (l : AuthLib) : Type 0 where
  pub access : (id : ℕ) (email role : Text) (now : ℕ) → Text
  pub signed :
      (id : ℕ) (email role : Text) (now : ℕ)
      → l.sign id email role now ≡ some (access id email role now)

-- The hash of a text is in no row.
abbrev pub is_fresh : Text → TokenTable → Bool
is_fresh hash t = not (any (has_hash hash) t.rows)

-- An added row is found by its hash until it expires.
get_by_token_hash-create :
    (rt : RefreshToken) (t t' : TokenTable) (now : ℕ)
    → RefreshTokens.create rt t ≡ some t'
    → rt.revoked ≡ 0
    → now < rt.expires_at
    → get_by_token_hash rt.token_hash now t' ≡ some (added rt t)
unfolding get_by_token_hash
get_by_token_hash-create rt t t' now h r lt =
    let (free, e) = create_some rt t t' h in
    rw e (
      rw
        (first-append (is_live rt.token_hash now) t.rows (added rt t ∷ []) (
          any_of_implies (is_live rt.token_hash now) (has_hash rt.token_hash) (λ x p. ground arith)
            t.rows free))
        (ground (arith, text_eq_self rt.token_hash)))

create_fresh :
    (rt : RefreshToken) (t : TokenTable)
    → any (has_hash rt.token_hash) t.rows ≡ false
    → (t' : TokenTable) × (RefreshTokens.create rt t ≡ some t')
unfolding RefreshTokens.create
create_fresh rt t h = rw h (_, refl)

-- The answer of a pair for a user.
abbrev pub pair_for : {l : AuthLib} → Signs l → Call → User → TokenResp
pair_for sign c u = issued_pair c (sign.access u.id u.email u.role c.later)

-- A call of generateTokenPair that works answers with its pair.
pub generate_token_pair_answers :
    (l : AuthLib) (c : Call) (u : User) (s : AuthState) (sign : Signs l)
    → c.create_fails ≡ false
    → any (has_hash (l.hash_token c.uuid)) s.tokens.rows ≡ false
    → (generate_token_pair l c u s).0 ≡ ok (pair_for sign c u)
generate_token_pair_answers l c u s sign works fresh =
    let (t, e) = create_fresh (issued_row l c u) s.tokens fresh in
    ap (λ x. x.0)
      (generate_token_pair_ok l c u s _ t (sign.signed u.id u.email u.role c.later) (rw works e))

any_hash-revoke :
    (hash : Text) (id : ℕ) (t : TokenTable)
    → any (has_hash hash) (revoke id t).rows ≡ any (has_hash hash) t.rows
unfolding revoke
any_hash-revoke hash id t =
    any-update_if (has_hash hash) (λ r. r.id == id) set_revoked (λ x. refl) t.rows

-- Refresh with a token that is found, for a user that is there.
refresh_answers :
    (l : AuthLib) (c : Call) (token : Text) (s : AuthState) (rt : RefreshToken) (u : User)
    → (sign : Signs l) → IsHealthy c
    → any (has_hash (l.hash_token c.uuid)) s.tokens.rows ≡ false
    → get_by_token_hash (l.hash_token token) c.now s.tokens ≡ some rt
    → get_by_id rt.user_id s.users ≡ some u
    → (refresh l c token s).0 ≡ ok (pair_for sign c u)
refresh_answers l c token s rt u sign h fresh e e' =
    rw (refresh_found l c token s rt (rw h.get e)) (
      rw (rotate_issues l c rt s u h e') (
        generate_token_pair_answers l c u (record s { tokens = revoke rt.id s.tokens }) sign
          h.create (rw (any_hash-revoke (l.hash_token c.uuid) rt.id s.tokens) fresh)))

-- A pair that was issued refreshes, if its time has not come and the new token is not taken.
pair_refreshes :
    (l : AuthLib) (c c' : Call) (u : User) (s : AuthState) (r : TokenResp) (sign : Signs l)
    → (generate_token_pair l c u s).0 ≡ ok r
    → get_by_id u.id s.users ≡ some u
    → IsHealthy c'
    → c'.now < c.later + refresh_ttl
    → any (has_hash (l.hash_token c'.uuid)) (generate_token_pair l c u s).1.tokens.rows ≡ false
    → (refresh l c' r.refresh_token (generate_token_pair l c u s).1).0 ≡ ok (pair_for sign c' u)
pair_refreshes l c c' u s r sign h known healthy lt fresh =
    let i = generate_token_pair-IsIssued l c u s r h in
    let e = generate_token_pair_ok l c u s i.access i.table i.signed i.created in
    refresh_answers l c' r.refresh_token (generate_token_pair l c u s).1
      (added (issued_row l c u) s.tokens) u sign healthy fresh
      (rw (i.answer, e)
        (get_by_token_hash-create (issued_row l c u) s.tokens i.table c'.now
          (unless_some c.create_fails _ _ i.created) refl lt))
      (rw e known)

-- Who logs in has an account that is verified and not disabled and knows its password; the refresh
-- token of the answer is accepted within seven days by a call whose stores work and whose new token
-- is not taken, and gives a pair for the same user.
pub login_refreshes :
    (l : AuthLib) (c c' : Call) (email password : Text) (s : AuthState) (r : TokenResp)
    → (sign : Signs l) → IsValid l.same s
    → (login l c email password s).0 ≡ ok r
    → IsHealthy c'
    → c'.now < c.later + refresh_ttl
    → any (has_hash (l.hash_token c'.uuid)) (login l c email password s).1.tokens.rows ≡ false
    → (u : User) × (get_by_email l.same email s.users ≡ some u)
      × ((u.status == 0) ≡ false)
      × ((u.status == 2) ≡ false)
      × (l.compare_hash u.password_hash password ≡ true)
      × ((refresh l c' r.refresh_token (login l c email password s).1).0 ≡ ok (pair_for sign c' u))
login_refreshes l c c' email password s r sign v h healthy lt fresh =
    let (u, i) = login-IsLogin l c email password s r h in
    (
      u,
      i.found,
      i.verified,
      i.enabled,
      i.known,
      rw (i.issues) (
          pair_refreshes l c c' u s r sign (rw (← i.issues) h)
            (get_by_id-get_by_email l.same email u s.users v.users i.found) healthy lt
            (rw (← i.issues) fresh)),
    )
