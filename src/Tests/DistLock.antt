-- ===== src/Tests/DistLock.antt =====
-- The distributed lock at concrete inputs.
use address_monitor.Prelude.{
  ℕ, ◌≡◌, ◌≤◌, refl, true, false, none, some, List, [], ◌∷◌, Text, bytes, text_eq, arith,
  if◌then◌else◌,
}
use address_monitor.DistLock.{
  LockState, LockError, Action, World, run, act, lock, renew, live, if_held,
}
use address_monitor.DistLock.Grants.{IsSafe}
use address_monitor.DistLock.Laws.{one_lease}
use address_monitor.DistLock.Shared.{second_lock_loses_first}

abbrev start : LockState
start = record { now = 100; store = λ k. none; values = λ i. [] }

abbrev world : World
world = record { state = start; lease = λ i k. 0 }

-- The instance that gets a text.
abbrev owner : Text → ℕ
owner v = if text_eq v (bytes "u1") then 1 else 2

world-IsSafe : IsSafe owner world
world-IsSafe = record {
  backed = λ i key lt. absurd (omega arith);
  values = λ i h. absurd (ground arith);
  named = λ key. refl;
}

abbrev actions : List Action
actions =
    Action.locks false 1 (bytes "k") (bytes "u1") 15
    ∷ Action.locks false 2 (bytes "k") (bytes "u2") 15
    ∷ Action.waits 5
    ∷ Action.renews false 1 (bytes "k") 15
    ∷ Action.waits 12
    ∷ []

one_lease_example : (run actions world).lease 2 (bytes "k") ≤ (run actions world).state.now
unfolding run act lock renew live if_held text_eq
one_lease_example =
    one_lease owner actions world 1 2 (bytes "k") world-IsSafe refl (omega arith) refl

second_lock_loses_first_example :
    ((lock false 1 (bytes "eth") (bytes "u1") 15 start).0 ≡ some true)
    × ((lock false 1
          (bytes "bsc")
          (bytes "u2")
          15
          (lock false 1 (bytes "eth") (bytes "u1") 15 start).1).0
        ≡ some true)
    × (renew false 1
          (bytes "eth")
          15
          (lock false 1
            (bytes "bsc")
            (bytes "u2")
            15
            (lock false 1 (bytes "eth") (bytes "u1") 15 start).1).1
        ≡ (
          some LockError.lock_not_held,
          (lock false 1
              (bytes "bsc")
              (bytes "u2")
              15
              (lock false 1 (bytes "eth") (bytes "u1") 15 start).1).1,
        ))
unfolding text_eq live
second_lock_loses_first_example =
    second_lock_loses_first 1 (bytes "eth") (bytes "bsc") (bytes "u1") (bytes "u2") 15 15 start refl
      refl (omega arith) refl refl
