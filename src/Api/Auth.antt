-- ===== src/Api/Auth.antt =====
-- internal/api/service/auth.go. bcrypt, SHA-256, the signature of access tokens and the sending of
-- mail are parameters, and so are the random texts and the clock, which each call gets as values.
pub mod Moves
pub mod Runs
pub mod Once
pub mod Laws
pub mod Verification
use address_monitor.Prelude.{
  ℕ, ◌+◌, Bool, true, false, Option, none, some, List, Text, [], ◌||◌, if◌then◌else◌, ◌==◌, ltb,
}
use address_monitor.Store.Users.{User, UserTable, get_by_email, get_by_id, update_status}
use address_monitor.Store.Users
use address_monitor.Store.RefreshTokens.{RefreshToken, TokenTable, get_by_token_hash, revoke}
use address_monitor.Store.RefreshTokens
use address_monitor.Store.EmailVerifications.{
  EmailVerification, VerificationTable, get_by_token, mark_used,
}
use address_monitor.Store.EmailVerifications
use address_monitor.Api.Result.{Result, ok, err}

pub data AuthError : Type 0 where
  email_exists user_not_found password_wrong email_not_verified : AuthError
  user_disabled token_invalid already_verified : AuthError
  store_failed hash_failed mail_failed sign_failed : AuthError

pub record AuthState : Type 0 where
  pub users : UserTable
  pub tokens : TokenTable
  pub verifications : VerificationTable

-- The libraries; times are in seconds. `generate_hash` takes the random salt of bcrypt.
pub record AuthLib : Type 0 where
  pub same : Text → Text → Bool
  pub generate_hash : Text → Text → Option Text
  pub compare_hash : Text → Text → Bool
  pub hash_token : Text → Text
  pub sign : ℕ → Text → Text → ℕ → Option Text

-- What one call meets: its clock when it queries and when it issues a token, its random texts, and
-- the errors of its queries and statements, in the order of the code.
pub record Call : Type 0 where
  pub now : ℕ
  pub later : ℕ
  pub salt : Text
  pub uuid : Text
  pub get_fails : Bool
  pub update_fails : Bool
  pub mark_fails : Bool
  pub get_user_fails : Bool
  pub create_fails : Bool
  pub create_verification_fails : Bool
  pub mail_fails : Bool

pub record TokenResp : Type 0 where
  pub access_token : Text
  pub refresh_token : Text
  pub expires_in : ℕ

abbrev pub access_ttl : ℕ
access_ttl = 7200

abbrev pub refresh_ttl : ℕ
refresh_ttl = 604800

-- The sending of the mail ends Register and ResendVerify.
abbrev mailed : Call → Result AuthError Bool
mailed c = if c.mail_fails then err mail_failed else ok true

-- The insertion of a verification for 30 minutes, and the mail with its token.
unfoldable pub send_verification :
    AuthLib → Call → ℕ → AuthState → Result AuthError Bool × AuthState
unfolding EmailVerifications.create
send_verification l c user_id s =
    let v : EmailVerification = record {
      id = 0;
      user_id = user_id;
      token = c.uuid;
      expires_at = c.later + 1800;
      used = 0;
    } in
    elim (if c.create_verification_fails
      then none
      else EmailVerifications.create l.same v s.verifications) [
        | none ↦ (err store_failed, s)
        | some t ↦ (mailed c, record s { verifications = t })
      ]

-- Register behind the check of the address and the hashing of the password.
unfoldable pub create_user :
    AuthLib → Call → Text → Text → AuthState → Result AuthError Bool × AuthState
unfolding send_verification Users.create
create_user l c email hash s =
    let u : User = record { id = 0; email = email; password_hash = hash; status = 0; role = [] } in
    elim (if c.create_fails then none else Users.create l.same u s.users) [
      | none ↦ (err store_failed, s)
      | some (row, t) ↦ send_verification l c row.id (record s { users = t })
    ]

unfoldable pub register :
    AuthLib → Call → Text → Text → AuthState → Result AuthError Bool × AuthState
unfolding create_user get_by_email
register l c email password s =
    if c.get_fails then (err store_failed, s) else elim (get_by_email l.same email s.users) [
      | some u ↦ (err email_exists, s)
      | none ↦ elim (l.generate_hash c.salt password) [
        | none ↦ (err hash_failed, s)
        | some hash ↦ create_user l c email hash s
      ]
    ]

unfoldable pub verify_email : AuthLib → Call → Text → AuthState → Result AuthError Bool × AuthState
unfolding get_by_token update_status mark_used
verify_email l c token s =
    elim (if c.get_fails then none else get_by_token l.same token s.verifications) [
      | none ↦ (err token_invalid, s)
      | some v ↦
          let s' = record s { users = update_status v.user_id 1 s.users } in
          if (v.used == 1) || ltb v.expires_at c.now
          then (err token_invalid, s)
          else if c.update_fails
          then (err store_failed, s)
          else if c.mark_fails
          then (err store_failed, s')
          else (ok true, record s' { verifications = mark_used v.id s.verifications })
    ]

unfoldable pub generate_token_pair :
    AuthLib → Call → User → AuthState → Result AuthError TokenResp × AuthState
unfolding RefreshTokens.create
generate_token_pair l c u s =
    let rt : RefreshToken = record {
      id = 0;
      user_id = u.id;
      token_hash = l.hash_token c.uuid;
      expires_at = c.later + refresh_ttl;
      revoked = 0;
    } in
    elim (l.sign u.id u.email u.role c.later) [
      | none ↦ (err sign_failed, s)
      | some access ↦ elim (if c.create_fails then none else RefreshTokens.create rt s.tokens) [
        | none ↦ (err store_failed, s)
        | some t ↦ (
          ok (record { access_token = access; refresh_token = c.uuid; expires_in = access_ttl }),
          record s { tokens = t },
        )
      ]
    ]

unfoldable pub login :
    AuthLib → Call → Text → Text → AuthState → Result AuthError TokenResp × AuthState
unfolding generate_token_pair get_by_email
login l c email password s =
    elim (if c.get_fails then none else get_by_email l.same email s.users) [
      | none ↦ (err user_not_found, s)
      | some u ↦
          if u.status == 0
          then (err email_not_verified, s)
          else if u.status == 2
          then (err user_disabled, s)
          else if l.compare_hash u.password_hash password
          then generate_token_pair l c u s
          else (err password_wrong, s)
    ]

-- Refresh behind the query of the token: the row is revoked, its user is read, a pair is issued.
unfoldable pub rotate :
    AuthLib → Call → RefreshToken → AuthState → Result AuthError TokenResp × AuthState
unfolding generate_token_pair revoke get_by_id
rotate l c rt s =
    let s' = record s { tokens = revoke rt.id s.tokens } in
    if c.update_fails
    then (err store_failed, s)
    else elim (if c.get_user_fails then none else get_by_id rt.user_id s.users) [
      | none ↦ (err user_not_found, s')
      | some u ↦ generate_token_pair l c u s'
    ]

unfoldable pub refresh : AuthLib → Call → Text → AuthState → Result AuthError TokenResp × AuthState
unfolding rotate get_by_token_hash
refresh l c token s =
    elim (if c.get_fails then none else get_by_token_hash (l.hash_token token) c.now s.tokens) [
      | none ↦ (err token_invalid, s)
      | some rt ↦ rotate l c rt s
    ]

unfoldable pub logout : AuthLib → Call → Text → AuthState → Result AuthError Bool × AuthState
unfolding revoke get_by_token_hash
logout l c token s =
    elim (if c.get_fails then none else get_by_token_hash (l.hash_token token) c.now s.tokens) [
      | none ↦ (ok true, s)
      | some rt ↦
          if c.update_fails
          then (err store_failed, s)
          else (ok true, record s { tokens = revoke rt.id s.tokens })
    ]

unfoldable pub resend_verify : AuthLib → Call → Text → AuthState → Result AuthError Bool × AuthState
unfolding send_verification get_by_email
resend_verify l c email s = elim (if c.get_fails then none else get_by_email l.same email s.users) [
  | none ↦ (err user_not_found, s)
  | some u ↦ if u.status == 1 then (err already_verified, s) else send_verification l c u.id s
]
