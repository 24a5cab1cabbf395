-- ===== src/Api/Auth/Once.antt =====
-- Refresh tokens serve once.
use address_monitor.Prelude.{
  ◌≡◌, refl, none, some, Option-cases, Bool-cases, List, Text, if◌then◌else◌, inl, inr, arith,
}
use address_monitor.Store.Users.{get_by_id}
use address_monitor.Store.RefreshTokens.{RefreshToken, get_by_token_hash, revoke}
use address_monitor.Store.RefreshTokens.Laws.{IsHashUnique, IsSpent, IsSpent-refused, revoke_spends}
use address_monitor.Api.Result.{ok, err}
use address_monitor.Api.Auth.{AuthLib, AuthState, Call, AuthError, TokenResp, rotate, refresh}
use address_monitor.Api.Auth.Moves.{Op, run, unless_some, IsValid}
use address_monitor.Api.Auth.Runs.{run-IsSpent, Moves-IsSpent}
use address_monitor.Api.Auth.Moves.{generate_token_pair-Moves}

-- A token whose row is revoked is refused.
refresh_refused :
    (l : AuthLib) (c : Call) (token : Text) (s : AuthState)
    → IsSpent (l.hash_token token) s.tokens
    → (refresh l c token s).0 ≡ err AuthError.token_invalid
unfolding refresh
refresh_refused l c token s h =
    rw (refresh, IsSpent-refused (l.hash_token token) c.now s.tokens h)
      (elim (Bool-cases c.get_fails) [
        | inl e ↦ rw (refresh, e) refl
        | inr e ↦ rw (refresh, e) refl
      ])

rotate-IsSpent :
    (l : AuthLib) (c : Call) (hash : Text) (rt : RefreshToken) (s : AuthState) (r : TokenResp)
    → (rotate l c rt s).0 ≡ ok r
    → IsSpent hash (revoke rt.id s.tokens)
    → IsSpent hash (rotate l c rt s).1.tokens
unfolding rotate
rotate-IsSpent l c hash rt s r h spent = elim (Bool-cases c.update_fails) [
  | inl e ↦ absurd (ground arith)
  | inr e ↦
      rw e (elim (Option-cases (if c.get_user_fails then none else get_by_id rt.user_id s.users)) [
        | inl e' ↦ rw e' spent
        | inr (u, e') ↦
            rw e' (Moves-IsSpent l.same hash _ _ (generate_token_pair-Moves l c u _) spent)
      ])
]

pub refresh_found :
    (l : AuthLib) (c : Call) (token : Text) (s : AuthState) (rt : RefreshToken)
    → (if c.get_fails then none else get_by_token_hash (l.hash_token token) c.now s.tokens)
      ≡ some rt
    → refresh l c token s ≡ rotate l c rt s
unfolding refresh
refresh_found l c token s rt e = rw (refresh, e) refl

refresh-IsSpent :
    (l : AuthLib) (c : Call) (token : Text) (s : AuthState) (r : TokenResp)
    → IsHashUnique s.tokens
    → (refresh l c token s).0 ≡ ok r
    → IsSpent (l.hash_token token) (refresh l c token s).1.tokens
unfolding refresh
refresh-IsSpent l c token s r u h =
    elim (Option-cases
      (if c.get_fails then none else get_by_token_hash (l.hash_token token) c.now s.tokens)) [
        | inl e ↦ absurd (ground arith)
        | inr (rt, e) ↦ rw (refresh_found l c token s rt e) (
            rotate-IsSpent l c (l.hash_token token) rt s r (rw (← refresh_found l c token s rt e) h)
              (revoke_spends (l.hash_token token) c.now rt s.tokens u
                (unless_some c.get_fails _ rt e)))
      ]

-- A refresh token serves once: after a call of Refresh that is answered with tokens, and any later
-- calls of the service, the token is refused.
pub refresh_once :
    (l : AuthLib) (c c' : Call) (token : Text) (s : AuthState) (r : TokenResp)
    → IsValid l.same s
    → (refresh l c token s).0 ≡ ok r
    → (ops : List (Call × Op))
    → (refresh l c' token (run l ops (refresh l c token s).1)).0 ≡ err AuthError.token_invalid
refresh_once l c c' token s r v h ops =
    refresh_refused l c' token _
      (run-IsSpent l (l.hash_token token) ops _ (refresh-IsSpent l c token s r v.tokens h))
