-- ===== src/Api/Access.antt =====
-- internal/api/middleware: who passes the authentication. A request that is refused is answered 401
-- and goes no further; the parsing of access tokens is a parameter.
use address_monitor.Prelude.{
  ℕ, Bool, Option, none, some, [], ◌∷◌, Text, bytes, text_eq, to_lower, is_empty_text,
  if◌then◌else◌, ◌==◌,
}
use address_monitor.Store.Apps.{App, AppTable, get_by_api_key}

-- APIKeyAuth: the app of the request; `fails` is the query's failure.
unfoldable pub api_key_auth : Bool → Text → AppTable → Option App
unfolding get_by_api_key
api_key_auth fails key t =
    if is_empty_text key then none else if fails then none else get_by_api_key key t

-- strings.SplitN(s, " ", 2): what stands before and behind the first space, if there is one.
unfoldable pub split_space : Text → Option (Text × Text)
split_space [] = none
split_space (c ∷ s) =
    let rest = split_space s in
    if c == 32
    then some ([], s)
    else elim rest [ none ↦ none | some (before, behind) ↦ some (c ∷ before, behind) ]

-- The claims of an access token.
pub record Claims : Type 0 where
  pub user_id : ℕ
  pub email : Text
  pub role : Text

-- JWTAuth over ParseAccessToken, which answers none for an error.
unfoldable pub jwt_auth : (Text → Option Claims) → Text → Option Claims
unfolding split_space
jwt_auth parse header = elim (split_space header) [
  | none ↦ none
  | some (scheme, token) ↦ if text_eq (to_lower scheme) (bytes "bearer") then parse token else none
]

-- AdminOnly behind JWTAuth.
unfoldable pub admin_only : Claims → Bool
admin_only c = text_eq c.role (bytes "admin")
