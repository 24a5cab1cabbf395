-- ===== src/Store/EmailVerifications.antt =====
-- internal/store/email_verification.go: the table email_verifications. The column token is UNIQUE.
-- How it compares texts is a parameter, `same`.
use address_monitor.Prelude.{
  ℕ, ◌+◌, Bool, not, Option, none, some, List, [], ◌∷◌, ◌++◌, ◌||◌, Text, ◌==◌, ltb, if◌then◌else◌,
  first, any, select, update_if,
}

pub record EmailVerification : Type 0 where
  pub id : ℕ
  pub user_id : ℕ
  pub token : Text
  pub expires_at : ℕ
  pub used : ℕ

pub record VerificationTable : Type 0 where
  pub rows : List EmailVerification
  pub next_id : ℕ

unfoldable pub create :
    (Text → Text → Bool) → EmailVerification → VerificationTable → Option VerificationTable
create same v t =
    if any (λ r. same r.token v.token) t.rows
    then none
    else some
        (record { rows = t.rows ++ record v { id = t.next_id } ∷ []; next_id = t.next_id + 1 })

unfoldable pub get_by_token :
    (Text → Text → Bool) → Text → VerificationTable → Option EmailVerification
get_by_token same token t = first (λ v. same v.token token) t.rows

abbrev pub set_used : EmailVerification → EmailVerification
set_used v = record v { used = 1 }

unfoldable pub mark_used : ℕ → VerificationTable → VerificationTable
mark_used id t = record t { rows = update_if (λ v. v.id == id) set_used t.rows }

unfoldable pub delete_expired : ℕ → VerificationTable → VerificationTable
delete_expired now t = record t {
  rows = select (λ v. not (ltb v.expires_at now || (v.used == 1))) t.rows;
}
