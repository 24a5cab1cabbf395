-- ===== src/Api/Auth/Runs.antt =====
-- What holds of the tables of AuthService over any calls.
use address_monitor.Prelude.{Bool, List, [], ◌∷◌, Text}
use address_monitor.Store.Users.Laws.{IsCollation, create-IsKeyed, update_status-IsKeyed}
use address_monitor.Store.RefreshTokens.Laws.{
  IsSpent, create-IsHashUnique, revoke-IsHashUnique, create-IsSpent, revoke-IsSpent,
}
use address_monitor.Api.Auth.{AuthLib, AuthState, Call}
use address_monitor.Api.Auth.Moves.{
  Op, step, run, IsValid, Moves, stays, enrols, marks, revokes, issues, both, step-Moves,
}

Moves-IsValid :
    (same : Text → Text → Bool)
    → IsCollation same
    → (s s' : AuthState) → Moves same s s'
    → IsValid same s
    → IsValid same s'
Moves-IsValid same k s s' (stays us ts) v = record {
  users = rw us v.users;
  tokens = rw ts v.tokens;
}
Moves-IsValid same k s s' (enrols u row us ts) v = record {
  users = create-IsKeyed same k u row s.users s'.users us v.users;
  tokens = rw ts v.tokens;
}
Moves-IsValid same k s s' (marks id status us ts) v = record {
  users = rw us (update_status-IsKeyed same id status s.users v.users);
  tokens = rw ts v.tokens;
}
Moves-IsValid same k s s' (revokes id us ts) v = record {
  users = rw us v.users;
  tokens = rw ts (revoke-IsHashUnique id s.tokens v.tokens);
}
Moves-IsValid same k s s' (issues rt us ts) v = record {
  users = rw us v.users;
  tokens = create-IsHashUnique rt s.tokens s'.tokens ts v.tokens;
}
Moves-IsValid same k s s' (both {s' = t} m n) v =
    Moves-IsValid same k t s' n (Moves-IsValid same k s t m v)

pub Moves-IsSpent :
    (same : Text → Text → Bool) (hash : Text)
    → (s s' : AuthState) → Moves same s s'
    → IsSpent hash s.tokens
    → IsSpent hash s'.tokens
Moves-IsSpent same hash s s' (stays us ts) v = rw ts v
Moves-IsSpent same hash s s' (enrols u row us ts) v = rw ts v
Moves-IsSpent same hash s s' (marks id status us ts) v = rw ts v
Moves-IsSpent same hash s s' (revokes id us ts) v = rw ts (revoke-IsSpent id hash s.tokens v)
Moves-IsSpent same hash s s' (issues rt us ts) v = create-IsSpent rt s.tokens s'.tokens hash ts v
Moves-IsSpent same hash s s' (both {s' = t} m n) v =
    Moves-IsSpent same hash t s' n (Moves-IsSpent same hash s t m v)

-- The hypothesis IsValid of the laws of the service, which the UNIQUE columns keep, holds after any
-- calls from a state in which it holds.
run-IsValid :
    (l : AuthLib)
    → IsCollation l.same
    → (ops : List (Call × Op)) (s : AuthState) → IsValid l.same s
    → IsValid l.same (run l ops s)
unfolding run
run-IsValid l k [] s v = v
run-IsValid l k ((c, op) ∷ ops) s v =
    run-IsValid l k ops (step l c op s)
      (Moves-IsValid l.same k s (step l c op s) (step-Moves l c op s) v)

pub run-IsSpent :
    (l : AuthLib) (hash : Text) (ops : List (Call × Op)) (s : AuthState)
    → IsSpent hash s.tokens
    → IsSpent hash (run l ops s).tokens
unfolding run
run-IsSpent l hash [] s v = v
run-IsSpent l hash ((c, op) ∷ ops) s v =
    run-IsSpent l hash ops (step l c op s)
      (Moves-IsSpent l.same hash s (step l c op s) (step-Moves l c op s) v)
