-- ===== src/Api/Auth/Verification.antt =====
-- The way from a registration, or from another mail, to an account that may log in.
use address_monitor.Prelude.{
  ℕ, ◌+◌, ◌≡◌, ◌≤◌, refl, Bool, true, false, none, some, [], ◌∷◌, ◌++◌, Text, ◌==◌, ◌||◌, ltb,
  arith, any, any_of_first-none, first-append,
}
use address_monitor.Store.Users.{User, UserTable, get_by_email, inserted, set_status, update_status}
use address_monitor.Store.Users
use address_monitor.Store.Users.Laws.{IsCollation, get_by_email-update_status, get_by_email-create}
use address_monitor.Store.RefreshTokens.{has_hash}
use address_monitor.Store.EmailVerifications.{
  EmailVerification, VerificationTable, get_by_token, mark_used,
}
use address_monitor.Store.EmailVerifications
use address_monitor.Api.Result.{ok, err}
use address_monitor.Api.Auth.{
  AuthLib, AuthState, Call, AuthError, send_verification, create_user, register, verify_email,
  login, resend_verify,
}
use address_monitor.Api.Auth.Laws.{
  IsHealthy, Signs, pair_for, login_issues, generate_token_pair_answers,
}

abbrev sent_row : Call → ℕ → EmailVerification
sent_row c user_id = record {
  id = 0;
  user_id = user_id;
  token = c.uuid;
  expires_at = c.later + 1800;
  used = 0;
}

-- No verification has the random text of the call.
abbrev pub is_taken : AuthLib → Call → AuthState → Bool
is_taken l c s = any (λ r. l.same r.token c.uuid) s.verifications.rows

stored_row : EmailVerification → VerificationTable → EmailVerification
stored_row v t = record v { id = t.next_id }

added_table : EmailVerification → VerificationTable → VerificationTable
added_table v t = record { rows = t.rows ++ stored_row v t ∷ []; next_id = t.next_id + 1 }

send_verification_ok :
    (l : AuthLib) (c : Call) (user_id : ℕ) (s : AuthState)
    → IsHealthy c
    → is_taken l c s ≡ false
    → send_verification l c user_id s
      ≡ (ok true, record s { verifications = added_table (sent_row c user_id) s.verifications })
unfolding send_verification EmailVerifications.create added_table stored_row
send_verification_ok l c user_id s h free =
    rw (send_verification, h.verification) (rw (send_verification, free) (rw h.mail refl))

get_by_token-added_table :
    (l : AuthLib)
    → IsCollation l.same
    → (c : Call) (user_id : ℕ) (s : AuthState) → is_taken l c s ≡ false
    → get_by_token l.same c.uuid (added_table (sent_row c user_id) s.verifications)
      ≡ some (stored_row (sent_row c user_id) s.verifications)
unfolding get_by_token added_table stored_row
get_by_token-added_table l k c user_id s free =
    rw (first-append (λ v. l.same v.token c.uuid) s.verifications.rows _ free)
      (rw (k.self c.uuid) refl)

verify_email_ok :
    (l : AuthLib) (c : Call) (token : Text) (v : EmailVerification) (s : AuthState)
    → IsHealthy c
    → get_by_token l.same token s.verifications ≡ some v
    → v.used ≡ 0
    → c.now ≤ v.expires_at
    → verify_email l c token s ≡ (
      ok true,
      record s {
        users = update_status v.user_id 1 s.users;
        verifications = mark_used v.id s.verifications;
      },
    )
unfolding verify_email
verify_email_ok l c token v s h e used lt =
    let live : ((v.used == 1) || ltb v.expires_at c.now) ≡ false = ground arith in
    rw (verify_email, h.get)
      (rw (verify_email, e)
        (rw (verify_email, live) (rw (verify_email, h.update) (rw (verify_email, h.mark) refl))))

-- The mail for the user of an address and the call of its link, in time: the account is opened.
record IsOpened (l : AuthLib) (c c' : Call) (email : Text) (u : User) (s : AuthState) : Type 0 where
  sent : (send_verification l c u.id s).0 ≡ ok true
  verified : (verify_email l c' c.uuid (send_verification l c u.id s).1).0 ≡ ok true
  opened :
      get_by_email l.same email (verify_email l c' c.uuid (send_verification l c u.id s).1).1.users
      ≡ some (set_status 1 u)
  tokens : (verify_email l c' c.uuid (send_verification l c u.id s).1).1.tokens ≡ s.tokens

verify_email_opens :
    (l : AuthLib)
    → IsCollation l.same
    → (c c' : Call) (email : Text) (u : User) (s : AuthState) → IsHealthy c
    → IsHealthy c'
    → is_taken l c s ≡ false
    → c'.now ≤ c.later + 1800
    → get_by_email l.same email s.users ≡ some u
    → IsOpened l c c' email u s
unfolding stored_row
verify_email_opens l k c c' email u s h h' free lt e =
    let sends = send_verification_ok l c u.id s h free in
    let s1 : AuthState = record s {
      verifications = added_table (sent_row c u.id) s.verifications;
    } in
    let verifies =
      verify_email_ok l c' c.uuid (stored_row (sent_row c u.id) s.verifications) s1 h'
        (get_by_token-added_table l k c u.id s free) refl lt in
    record {
      sent = rw sends refl;
      verified = rw sends (rw verifies refl);
      opened = rw sends (rw verifies (get_by_email-update_status l.same email u 1 s.users e));
      tokens = rw sends (rw verifies refl);
    }

abbrev new_user : Text → Text → User
new_user email hash = record { id = 0; email = email; password_hash = hash; status = 0; role = [] }

abbrev enrolled : User → UserTable → UserTable
enrolled u t = record { rows = t.rows ++ u ∷ []; next_id = t.next_id + 1 }

-- Behind the check of the address: the user that is inserted gets the mail.
create_user_sends :
    (l : AuthLib) (c : Call) (email hash : Text) (s : AuthState)
    → IsHealthy c
    → get_by_email l.same email s.users ≡ none
    → (u : User) × (t : UserTable) × (Users.create l.same (new_user email hash) s.users
        ≡ some (u, t))
      × (u.password_hash ≡ hash)
      × (u.status ≡ 0)
      × (create_user l c email hash s ≡ send_verification l c u.id (record s { users = t }))
unfolding create_user Users.create get_by_email inserted
create_user_sends l c email hash s h free =
    let u = inserted s.users.next_id (new_user email hash) in
    (
      u,
      enrolled u s.users,
      rw (any_of_first-none (λ r. l.same r.email email) s.users.rows free) refl,
      refl,
      refl,
      rw (create_user, h.create)
          (rw (create_user, any_of_first-none (λ r. l.same r.email email) s.users.rows free) refl),
    )

register_sends :
    (l : AuthLib) (c : Call) (email password hash : Text) (s : AuthState)
    → IsHealthy c
    → get_by_email l.same email s.users ≡ none
    → l.generate_hash c.salt password ≡ some hash
    → register l c email password s ≡ create_user l c email hash s
unfolding register
register_sends l c email password hash s h free e =
    rw (register, h.get) (rw (register, free) (rw (register, e) refl))

login_unverified :
    (l : AuthLib) (c : Call) (email password : Text) (u : User) (s : AuthState)
    → IsHealthy c
    → get_by_email l.same email s.users ≡ some u
    → u.status ≡ 0
    → (login l c email password s).0 ≡ err AuthError.email_not_verified
unfolding login
login_unverified l c email password u s h e z = rw (login, h.get) (rw (login, e) (rw z refl))

-- The way of a new user, in calls whose stores work: the address is new, the random texts are not
-- taken, the link is called within half an hour, and bcrypt accepts the password that it hashed.
-- Register answers, a login before the link is refused as not verified, the link answers, and then
-- the login answers a pair for the user that has the address.
pub register_opens :
    (l : AuthLib) (c c1 c2 c3 : Call) (email password hash : Text) (s : AuthState)
    → (sign : Signs l) → IsCollation l.same
    → IsHealthy c
    → IsHealthy c1
    → IsHealthy c2
    → IsHealthy c3
    → get_by_email l.same email s.users ≡ none
    → l.generate_hash c.salt password ≡ some hash
    → l.compare_hash hash password ≡ true
    → is_taken l c s ≡ false
    → c2.now ≤ c.later + 1800
    → any (has_hash (l.hash_token c3.uuid)) s.tokens.rows ≡ false
    → ((register l c email password s).0 ≡ ok true)
      × ((login l c1 email password (register l c email password s).1).0
          ≡ err AuthError.email_not_verified)
      × ((verify_email l c2 c.uuid (register l c email password s).1).0 ≡ ok true)
      × (u : User) × (get_by_email l.same email
            (verify_email l c2 c.uuid (register l c email password s).1).1.users
          ≡ some u)
      × ((login l c3 email password
            (verify_email l c2 c.uuid (register l c email password s).1).1).0
          ≡ ok (pair_for sign c3 u))
register_opens l c c1 c2 c3 email password hash s sign k h h1 h2 h3 free hashed accepts token lt
      new =
    let (u, t, created, has, zero, e) = create_user_sends l c email hash s h free in
    let found = get_by_email-create l.same k _ u s.users t created in
    let o = verify_email_opens l k c c2 email u (record s { users = t }) h h2 token lt found in
    rw (register_sends l c email password hash s h free hashed, e)
      (
        o.sent,
        login_unverified l c1 email password u _ h1
            (rw (send_verification_ok l c u.id (record s { users = t }) h token) found) zero,
        o.verified,
        set_status 1 u,
        o.opened,
        rw
            (login_issues l c3 email password
              (verify_email l c2 c.uuid (send_verification l c u.id (record s { users = t })).1).1
              (set_status 1 u) (rw h3.get o.opened) refl refl (rw has accepts))
            (generate_token_pair_answers l c3 (set_status 1 u) _ sign h3.create (rw o.tokens new)),
      )

resend_verify_sends :
    (l : AuthLib) (c : Call) (email : Text) (u : User) (s : AuthState)
    → IsHealthy c
    → get_by_email l.same email s.users ≡ some u
    → u.status ≡ 2
    → resend_verify l c email s ≡ send_verification l c u.id s
unfolding resend_verify
resend_verify_sends l c email u s h e two =
    rw (resend_verify, h.get) (rw (resend_verify, e) (rw (resend_verify, two) refl))

-- An account that is disabled, with status 2, is opened by its owner: ResendVerify answers, as it
-- refuses only accounts with status 1, the link of the mail answers in time, and the status is 1.
pub resend_verify_reopens :
    (l : AuthLib) (c c' : Call) (email : Text) (u : User) (s : AuthState)
    → IsCollation l.same
    → IsHealthy c
    → IsHealthy c'
    → get_by_email l.same email s.users ≡ some u
    → u.status ≡ 2
    → is_taken l c s ≡ false
    → c'.now ≤ c.later + 1800
    → ((resend_verify l c email s).0 ≡ ok true)
      × ((verify_email l c' c.uuid (resend_verify l c email s).1).0 ≡ ok true)
      × (get_by_email l.same email (verify_email l c' c.uuid (resend_verify l c email s).1).1.users
          ≡ some (set_status 1 u))
resend_verify_reopens l c c' email u s k h h' e two free lt =
    let o = verify_email_opens l k c c' email u s h h' free lt e in
    rw (resend_verify_sends l c email u s h e two) (o.sent, o.verified, o.opened)
