-- ===== src/Api/Auth/Moves.antt =====
-- The calls of AuthService as steps, and what a step may do to the tables.
use address_monitor.Prelude.{
  ℕ, ◌+◌, ◌≡◌, refl, Bool, Option, none, some, Option-cases, Bool-cases, List, [], ◌∷◌, Text, ◌==◌,
  ◌||◌, ltb, if◌then◌else◌, inl, inr, arith,
}
use address_monitor.Store.Users.{User, UserTable, get_by_email, get_by_id, update_status}
use address_monitor.Store.Users
use address_monitor.Store.Users.Laws.{IsKeyed}
use address_monitor.Store.RefreshTokens.{RefreshToken, TokenTable, get_by_token_hash, revoke}
use address_monitor.Store.RefreshTokens
use address_monitor.Store.RefreshTokens.Laws.{IsHashUnique}
use address_monitor.Store.EmailVerifications.{get_by_token}
use address_monitor.Api.Auth.{
  AuthLib, AuthState, Call, send_verification, create_user, register, verify_email,
  generate_token_pair, refresh_ttl, login, rotate, refresh, logout, resend_verify,
}

-- The calls that the handlers make.
pub data Op : Type 0 where
  registers logs_in : Text → Text → Op
  verifies refreshes logs_out resends : Text → Op

unfoldable pub step : AuthLib → Call → Op → AuthState → AuthState
step l c (Op.registers email password) s = (register l c email password s).1
step l c (Op.logs_in email password) s = (login l c email password s).1
step l c (Op.verifies token) s = (verify_email l c token s).1
step l c (Op.refreshes token) s = (refresh l c token s).1
step l c (Op.logs_out token) s = (logout l c token s).1
step l c (Op.resends email) s = (resend_verify l c email s).1

unfoldable pub run : AuthLib → List (Call × Op) → AuthState → AuthState
run l [] s = s
run l ((c, op) ∷ ops) s = run l ops (step l c op s)

pub record IsValid (same : Text → Text → Bool) (s : AuthState) : Type 0 where
  pub users : IsKeyed same s.users
  pub tokens : IsHashUnique s.tokens

-- What a call may do to the tables: users get a status or a new row, tokens are revoked or added.
pub data Moves (same : Text → Text → Bool) : AuthState → AuthState → Type 0 where
  stays : {s s' : AuthState} → s'.users ≡ s.users → s'.tokens ≡ s.tokens → Moves same s s'
  enrols :
      {s s' : AuthState} (u row : User)
      → Users.create same u s.users ≡ some (row, s'.users)
      → s'.tokens ≡ s.tokens
      → Moves same s s'
  marks :
      {s s' : AuthState} (id status : ℕ)
      → s'.users ≡ update_status id status s.users
      → s'.tokens ≡ s.tokens
      → Moves same s s'
  revokes :
      {s s' : AuthState} (id : ℕ)
      → s'.users ≡ s.users
      → s'.tokens ≡ revoke id s.tokens
      → Moves same s s'
  issues :
      {s s' : AuthState} (rt : RefreshToken)
      → s'.users ≡ s.users
      → RefreshTokens.create rt s.tokens ≡ some s'.tokens
      → Moves same s s'
  both : {s s' s'' : AuthState} → Moves same s s' → Moves same s' s'' → Moves same s s''

pub unless_some :
    {A : Type 0} (fails : Bool) (o : Option A) (a : A)
    → (if fails then none else o) ≡ some a
    → o ≡ some a
unless_some fails o a h = ground arith

module _ (l : AuthLib) (c : Call) where
  send_verification_keeps :
      (user_id : ℕ) (s : AuthState)
      → ((send_verification l c user_id s).1.users ≡ s.users)
        × ((send_verification l c user_id s).1.tokens ≡ s.tokens)
  unfolding send_verification
  send_verification_keeps user_id s = ground arith

  create_user-Moves :
      (email hash : Text) (s : AuthState) → Moves l.same s (create_user l c email hash s).1
  unfolding create_user
  create_user-Moves email hash s =
      let u : User = record {
        id = 0;
        email = email;
        password_hash = hash;
        status = 0;
        role = [];
      } in
      elim (Option-cases (if c.create_fails then none else Users.create l.same u s.users)) [
        | inl e ↦ rw (create_user, e) (stays refl refl)
        | inr ((row, t), e) ↦
            rw (create_user, e)
              (let (us, ts) = send_verification_keeps row.id (record s { users = t }) in
                enrols u row (rw us (unless_some c.create_fails _ _ e)) ts)
      ]

  pub generate_token_pair-Moves :
      (u : User) (s : AuthState) → Moves l.same s (generate_token_pair l c u s).1
  unfolding generate_token_pair
  generate_token_pair-Moves u s =
      let rt : RefreshToken = record {
        id = 0;
        user_id = u.id;
        token_hash = l.hash_token c.uuid;
        expires_at = c.later + refresh_ttl;
        revoked = 0;
      } in
      elim (Option-cases (l.sign u.id u.email u.role c.later)) [
        | inl e ↦ rw (generate_token_pair, e) (stays refl refl)
        | inr (a, e) ↦
            rw (generate_token_pair, e)
              (elim (Option-cases
                (if c.create_fails then none else RefreshTokens.create rt s.tokens)) [
                  | inl e' ↦ rw (generate_token_pair, e') (stays refl refl)
                  | inr (t, e') ↦
                      rw (generate_token_pair, e')
                        (issues rt refl (unless_some c.create_fails _ _ e'))
                ])
      ]

  rotate-Moves : (rt : RefreshToken) (s : AuthState) → Moves l.same s (rotate l c rt s).1
  unfolding rotate
  rotate-Moves rt s = elim (Bool-cases c.update_fails) [
    | inl e ↦ rw e (stays refl refl)
    | inr e ↦
        rw e
          (elim (Option-cases (if c.get_user_fails then none else get_by_id rt.user_id s.users)) [
            | inl e' ↦ rw e' (revokes rt.id refl refl)
            | inr (u, e') ↦ rw e' (both (revokes rt.id refl refl) (generate_token_pair-Moves u _))
          ])
  ]

  register-Moves :
      (email password : Text) (s : AuthState) → Moves l.same s (register l c email password s).1
  unfolding register
  register-Moves email password s = elim (Bool-cases c.get_fails) [
    | inl e ↦ rw e (stays refl refl)
    | inr e ↦ rw e (elim (Option-cases (get_by_email l.same email s.users)) [
      | inr (u, e') ↦ rw e' (stays refl refl)
      | inl e' ↦ rw e' (elim (Option-cases (l.generate_hash c.salt password)) [
        | inl e'' ↦ rw e'' (stays refl refl)
        | inr (hash, e'') ↦ rw e'' (create_user-Moves email hash s)
      ])
    ])
  ]

  verify_email-Moves : (token : Text) (s : AuthState) → Moves l.same s (verify_email l c token s).1
  unfolding verify_email
  verify_email-Moves token s =
      elim (Option-cases
        (if c.get_fails then none else get_by_token l.same token s.verifications)) [
          | inl e ↦ rw (verify_email, e) (stays refl refl)
          | inr (v, e) ↦
              rw (verify_email, e)
                (elim (Bool-cases ((v.used == 1) || ltb v.expires_at c.now)) [
                  | inl u ↦ rw (verify_email, u) (stays refl refl)
                  | inr u ↦
                      rw (verify_email, u)
                        (elim (Bool-cases c.update_fails) [
                          | inl f ↦ rw (verify_email, f) (stays refl refl)
                          | inr f ↦
                              rw (verify_email, f)
                                (elim (Bool-cases c.mark_fails) [
                                  | inl g ↦ rw (verify_email, g) (marks v.user_id 1 refl refl)
                                  | inr g ↦ rw (verify_email, g) (marks v.user_id 1 refl refl)
                                ])
                        ])
                ])
        ]

  login-Moves :
      (email password : Text) (s : AuthState) → Moves l.same s (login l c email password s).1
  unfolding login
  login-Moves email password s =
      elim (Option-cases (if c.get_fails then none else get_by_email l.same email s.users)) [
        | inl e ↦ rw (login, e) (stays refl refl)
        | inr (u, e) ↦
            rw (login, e)
              (elim (Bool-cases (u.status == 0)) [
                | inl z ↦ rw (login, z) (stays refl refl)
                | inr z ↦
                    rw (login, z)
                      (elim (Bool-cases (u.status == 2)) [
                        | inl d ↦ rw (login, d) (stays refl refl)
                        | inr d ↦
                            rw (login, d)
                              (elim (Bool-cases (l.compare_hash u.password_hash password)) [
                                | inl p ↦ rw (login, p) (generate_token_pair-Moves u s)
                                | inr p ↦ rw (login, p) (stays refl refl)
                              ])
                      ])
              ])
      ]

  refresh-Moves : (token : Text) (s : AuthState) → Moves l.same s (refresh l c token s).1
  unfolding refresh
  refresh-Moves token s =
      elim (Option-cases
        (if c.get_fails then none else get_by_token_hash (l.hash_token token) c.now s.tokens)) [
          | inl e ↦ rw (refresh, e) (stays refl refl)
          | inr (rt, e) ↦ rw (refresh, e) (rotate-Moves rt s)
        ]

  logout-Moves : (token : Text) (s : AuthState) → Moves l.same s (logout l c token s).1
  unfolding logout
  logout-Moves token s =
      elim (Option-cases
        (if c.get_fails then none else get_by_token_hash (l.hash_token token) c.now s.tokens)) [
          | inl e ↦ rw (logout, e) (stays refl refl)
          | inr (rt, e) ↦
              rw (logout, e)
                (elim (Bool-cases c.update_fails) [
                  | inl f ↦ rw (logout, f) (stays refl refl)
                  | inr f ↦ rw (logout, f) (revokes rt.id refl refl)
                ])
        ]

  resend_verify_keeps :
      (email : Text) (s : AuthState)
      → ((resend_verify l c email s).1.users ≡ s.users)
        × ((resend_verify l c email s).1.tokens ≡ s.tokens)
  unfolding resend_verify
  resend_verify_keeps email s =
      elim (Option-cases (if c.get_fails then none else get_by_email l.same email s.users)) [
        | inl e ↦ rw (resend_verify, e) (refl, refl)
        | inr (u, e) ↦
            rw (resend_verify, e)
              (elim (Bool-cases (u.status == 1)) [
                | inl z ↦ rw (resend_verify, z) (refl, refl)
                | inr z ↦ rw (resend_verify, z) (send_verification_keeps u.id s)
              ])
      ]

  pub step-Moves : (op : Op) (s : AuthState) → Moves l.same s (step l c op s)
  unfolding step
  step-Moves (Op.registers email password) s = register-Moves email password s
  step-Moves (Op.logs_in email password) s = login-Moves email password s
  step-Moves (Op.verifies token) s = verify_email-Moves token s
  step-Moves (Op.refreshes token) s = refresh-Moves token s
  step-Moves (Op.logs_out token) s = logout-Moves token s
  step-Moves (Op.resends email) s = let (us, ts) = resend_verify_keeps email s in stays us ts
