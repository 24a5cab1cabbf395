-- ===== src/Tests/Auth.antt =====
-- The authentication service at concrete inputs.
use address_monitor.Prelude.{
  ℕ, ◌≡◌, refl, true, false, some, List, [], ◌∷◌, Text, bytes, text_eq, text_eq_iff, text_eq_self,
  arith, ◌==◌,
}
use address_monitor.Store.Users.{User, get_by_email}
use address_monitor.Store.Users.Laws.{IsCollation}
use address_monitor.Api.Result.{ok, err}
use address_monitor.Api.Auth.{
  AuthLib, AuthState, Call, AuthError, TokenResp, login, refresh, register, verify_email,
  resend_verify,
}
use address_monitor.Api.Auth.Moves.{Op, run, IsValid}
use address_monitor.Api.Auth.Once.{refresh_once}
use address_monitor.Api.Auth.Laws.{IsHealthy, Signs, login_refreshes, pair_for}
use address_monitor.Api.Auth.Verification.{register_opens, resend_verify_reopens}

abbrev auth_lib : AuthLib
auth_lib = record {
  same = text_eq;
  generate_hash = λ salt p. some p;
  compare_hash = text_eq;
  hash_token = λ t. t;
  sign = λ id email role now. some email;
}

collation : IsCollation text_eq
collation = record {
  self = text_eq_self;
  swap = λ a b. ground (arith, text_eq_iff a b, text_eq_iff b a);
}

abbrev signs : Signs auth_lib
signs = record { access = λ id email role now. email; signed = λ id email role now. refl }

abbrev calling : ℕ → Text → Call
calling now uuid = record {
  now = now;
  later = now;
  salt = [];
  uuid = uuid;
  get_fails = false;
  update_fails = false;
  mark_fails = false;
  get_user_fails = false;
  create_fails = false;
  create_verification_fails = false;
  mail_fails = false;
}

abbrev calling-IsHealthy : (now : ℕ) (uuid : Text) → IsHealthy (calling now uuid)
calling-IsHealthy now uuid = record {
  get = refl;
  update = refl;
  mark = refl;
  get_user = refl;
  create = refl;
  verification = refl;
  mail = refl;
}

abbrev user_with : ℕ → User
user_with status = record {
  id = 1;
  email = bytes "a@b";
  password_hash = bytes "pw";
  status = status;
  role = bytes "user";
}

-- One user of a status, and one refresh token of his, which expires at 900.
abbrev state_with : ℕ → AuthState
state_with status = record {
  users = record { rows = user_with status ∷ []; next_id = 2 };
  tokens = record {
    rows =
        record { id = 5; user_id = 1; token_hash = bytes "t1"; expires_at = 900; revoked = 0 } ∷ [];
    next_id = 6;
  };
  verifications = record { rows = []; next_id = 1 };
}

abbrev state_with-IsValid : (status : ℕ) → IsValid text_eq (state_with status)
state_with-IsValid status = record {
  users = record { ids = refl; below = refl; emails = refl };
  tokens = record { rows_unique = refl };
}

abbrev calls : List (Call × Op)
calls =
    (calling 200 (bytes "t3"), Op.logs_in (bytes "a@b") (bytes "pw"))
    ∷ (calling 300 (bytes "t1"), Op.logs_in (bytes "a@b") (bytes "pw"))
    ∷ (calling 400 (bytes "v1"), Op.registers (bytes "a@b") (bytes "x"))
    ∷ (calling 500 (bytes "t4"), Op.logs_out (bytes "t3"))
    ∷ []

abbrev pair : Text → TokenResp
pair t = record { access_token = bytes "a@b"; refresh_token = t; expires_in = 7200 }

first_refresh :
    (refresh auth_lib (calling 100 (bytes "t2")) (bytes "t1") (state_with 1)).0
    ≡ ok (pair (bytes "t2"))
unfolding refresh text_eq
first_refresh = refl

refresh_once_example :
    (refresh auth_lib (calling 600 (bytes "t5")) (bytes "t1") (
      run auth_lib calls
        (refresh auth_lib (calling 100 (bytes "t2")) (bytes "t1") (state_with 1)).1)).0
    ≡ err AuthError.token_invalid
refresh_once_example =
    refresh_once auth_lib (calling 100 (bytes "t2")) (calling 600 (bytes "t5")) (bytes "t1")
      (state_with 1) (pair (bytes "t2")) (state_with-IsValid 1) first_refresh calls

first_login :
    (login auth_lib (calling 50 (bytes "t2")) (bytes "a@b") (bytes "pw") (state_with 1)).0
    ≡ ok (pair (bytes "t2"))
unfolding login text_eq
first_login = refl

login_refreshes_example :
    (u : User) × (get_by_email text_eq (bytes "a@b") (state_with 1).users ≡ some u)
    × ((u.status == 0) ≡ false)
    × ((u.status == 2) ≡ false)
    × (text_eq u.password_hash (bytes "pw") ≡ true)
    × ((refresh auth_lib
          (calling 60 (bytes "t3"))
          (bytes "t2")
          (login auth_lib (calling 50 (bytes "t2")) (bytes "a@b") (bytes "pw") (state_with 1)).1).0
        ≡ ok (pair_for {l = auth_lib} signs (calling 60 (bytes "t3")) u))
unfolding login text_eq
login_refreshes_example =
    login_refreshes auth_lib (calling 50 (bytes "t2")) (calling 60 (bytes "t3")) (bytes "a@b")
      (bytes "pw") (state_with 1) (pair (bytes "t2")) signs (state_with-IsValid 1) first_login
      (calling-IsHealthy 60 (bytes "t3")) (omega arith) refl

abbrev new_call : ℕ → Call
new_call now = calling now (bytes "v1")

abbrev registered : AuthState
registered = (register auth_lib (new_call 10) (bytes "c@d") (bytes "pw") (state_with 1)).1

abbrev verified : AuthState
verified = (verify_email auth_lib (new_call 20) (bytes "v1") registered).1

register_opens_example :
    ((register auth_lib (new_call 10) (bytes "c@d") (bytes "pw") (state_with 1)).0 ≡ ok true)
    × ((login auth_lib (new_call 15) (bytes "c@d") (bytes "pw") registered).0
        ≡ err AuthError.email_not_verified)
    × ((verify_email auth_lib (new_call 20) (bytes "v1") registered).0 ≡ ok true)
    × (u : User) × (get_by_email text_eq (bytes "c@d") verified.users ≡ some u)
    × ((login auth_lib (new_call 30) (bytes "c@d") (bytes "pw") verified).0
        ≡ ok (pair_for {l = auth_lib} signs (new_call 30) u))
unfolding get_by_email text_eq
register_opens_example =
    register_opens auth_lib (new_call 10) (new_call 15) (new_call 20) (new_call 30) (bytes "c@d")
      (bytes "pw") (bytes "pw") (state_with 1) signs collation (calling-IsHealthy 10 (bytes "v1"))
      (calling-IsHealthy 15 (bytes "v1")) (calling-IsHealthy 20 (bytes "v1"))
      (calling-IsHealthy 30 (bytes "v1")) refl refl refl refl (omega arith) refl

abbrev resent : AuthState
resent = (resend_verify auth_lib (new_call 10) (bytes "a@b") (state_with 2)).1

resend_verify_reopens_example :
    ((resend_verify auth_lib (new_call 10) (bytes "a@b") (state_with 2)).0 ≡ ok true)
    × ((verify_email auth_lib (new_call 20) (bytes "v1") resent).0 ≡ ok true)
    × (get_by_email text_eq
          (bytes "a@b")
          (verify_email auth_lib (new_call 20) (bytes "v1") resent).1.users
        ≡ some (user_with 1))
unfolding get_by_email text_eq
resend_verify_reopens_example =
    resend_verify_reopens auth_lib (new_call 10) (new_call 20) (bytes "a@b") (user_with 2)
      (state_with 2) collation (calling-IsHealthy 10 (bytes "v1"))
      (calling-IsHealthy 20 (bytes "v1")) refl refl refl (omega arith)
