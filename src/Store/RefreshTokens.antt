-- ===== src/Store/RefreshTokens.antt =====
-- internal/store/refresh_token.go: the table refresh_tokens. The column token_hash is UNIQUE; its
-- values are lower-case hexadecimal, so that comparing texts is comparing bytes.
pub mod Laws
use address_monitor.Prelude.{
  ℕ, ◌+◌, Bool, not, Option, none, some, List, [], ◌∷◌, ◌++◌, ◌&&◌, Text, text_eq, ◌==◌, ltb,
  if◌then◌else◌, first, any, select, update_if,
}

pub record RefreshToken : Type 0 where
  pub id : ℕ
  pub user_id : ℕ
  pub token_hash : Text
  pub expires_at : ℕ
  pub revoked : ℕ

pub record TokenTable : Type 0 where
  pub rows : List RefreshToken
  pub next_id : ℕ

unfoldable pub create : RefreshToken → TokenTable → Option TokenTable
create rt t =
    if any (λ r. text_eq r.token_hash rt.token_hash) t.rows
    then none
    else some
        (record { rows = t.rows ++ record rt { id = t.next_id } ∷ []; next_id = t.next_id + 1 })

abbrev pub has_hash : Text → RefreshToken → Bool
has_hash hash r = text_eq r.token_hash hash

-- token_hash = ? AND revoked = 0 AND expires_at > now
abbrev pub is_live : Text → ℕ → RefreshToken → Bool
is_live hash now r = has_hash hash r && (r.revoked == 0) && ltb now r.expires_at

unfoldable pub get_by_token_hash : Text → ℕ → TokenTable → Option RefreshToken
get_by_token_hash hash now t = first (is_live hash now) t.rows

abbrev pub set_revoked : RefreshToken → RefreshToken
set_revoked r = record r { revoked = 1 }

unfoldable pub revoke : ℕ → TokenTable → TokenTable
revoke id t = record t { rows = update_if (λ r. r.id == id) set_revoked t.rows }

unfoldable pub revoke_all_by_user : ℕ → TokenTable → TokenTable
revoke_all_by_user user_id t = record t {
  rows = update_if (λ r. r.user_id == user_id) set_revoked t.rows;
}

unfoldable pub delete_expired : ℕ → TokenTable → TokenTable
delete_expired now t = record t { rows = select (λ r. not (ltb r.expires_at now)) t.rows }
