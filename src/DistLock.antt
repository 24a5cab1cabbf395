-- ===== src/DistLock.antt =====
-- pkg/distlock/lock.go: the lock of the listeners, over the keys of Redis with their time to live.
-- Times are in seconds. Each instance of the program has one Lock with one field value.
pub mod Grants
pub mod Laws
pub mod Shared
use address_monitor.Prelude.{
  ℕ, ◌+◌, Bool, true, false, Option, none, some, List, [], ◌∷◌, Text, text_eq, if◌then◌else◌, ◌==◌,
  ltb, bytes,
}

pub record Entry : Type 0 where
  pub value : Text
  pub expires_at : ℕ

pub record LockState : Type 0 where
  pub now : ℕ
  pub store : Text → Option Entry
  pub values : ℕ → Text

abbrev pub set_key {ℓ} : {V : Type ℓ} → Text → V → (Text → V) → Text → V
set_key k v m j = if text_eq k j then v else m j

abbrev pub set_id {ℓ} : {V : Type ℓ} → ℕ → V → (ℕ → V) → ℕ → V
set_id k v m j = if k == j then v else m j

-- GET: a key whose time is over is not there.
unfoldable pub live : ℕ → Option Entry → Option Entry
live now none = none
live now (some e) = if ltb now e.expires_at then some e else none

pub data LockError : Type 0 where
  redis_failed lock_not_held : LockError

-- Lock of an instance: SetNX of a new value; what it answers, or none for an error of Redis.
unfoldable pub lock : Bool → ℕ → Text → Text → ℕ → LockState → Option Bool × LockState
unfolding live
lock fails i key uuid ttl s = if fails then (none, s) else elim (live s.now (s.store key)) [
  | some e ↦ (some false, s)
  | none ↦ (
    some true,
    record s {
      store = set_key key (some (record { value = uuid; expires_at = s.now + ttl })) s.store;
      values = set_id i uuid s.values;
    },
  )
]

-- A script that acts if the key has the value of the instance.
unfoldable pub if_held : Bool → ℕ → Text → Option Entry → LockState → Option LockError × LockState
unfolding live
if_held fails i key entry s =
    if fails then (some redis_failed, s) else elim (live s.now (s.store key)) [
      | none ↦ (some lock_not_held, s)
      | some e ↦
          if text_eq e.value (s.values i)
          then (none, record s { store = set_key key entry s.store })
          else (some lock_not_held, s)
    ]

unfoldable pub unlock : Bool → ℕ → Text → LockState → Option LockError × LockState
unfolding if_held
unlock fails i key s = if_held fails i key none s

unfoldable pub renew : Bool → ℕ → Text → ℕ → LockState → Option LockError × LockState
unfolding if_held
renew fails i key ttl s =
    if_held fails i key (some (record { value = s.values i; expires_at = s.now + ttl })) s

-- What the instances do, one after the other, and the time that passes.
pub data Action : Type 0 where
  locks : Bool → ℕ → Text → Text → ℕ → Action
  unlocks : Bool → ℕ → Text → Action
  renews : Bool → ℕ → Text → ℕ → Action
  waits : ℕ → Action

-- Until when an instance may think that it holds a key: what Lock and Renew have granted.
pub record World : Type 0 where
  pub state : LockState
  pub lease : ℕ → Text → ℕ

abbrev pub set_lease : ℕ → Text → ℕ → (ℕ → Text → ℕ) → ℕ → Text → ℕ
set_lease i key t m j k = if i == j then (if text_eq key k then t else m j k) else m j k

abbrev pub granted : ℕ → Text → ℕ → Option Bool × LockState → World → World
granted i key t (some true, s) w = record { state = s; lease = set_lease i key t w.lease }
granted i key t (some false, s) w = record w { state = s }
granted i key t (none, s) w = record w { state = s }

abbrev pub leased : ℕ → Text → ℕ → Option LockError × LockState → World → World
leased i key t (none, s) w = record { state = s; lease = set_lease i key t w.lease }
leased i key t (some e, s) w = record w { state = s }

unfoldable pub act : Action → World → World
unfolding lock unlock renew
act (Action.locks fails i key uuid ttl) w =
    granted i key (w.state.now + ttl) (lock fails i key uuid ttl w.state) w
act (Action.unlocks fails i key) w = leased i key 0 (unlock fails i key w.state) w
act (Action.renews fails i key ttl) w =
    leased i key (w.state.now + ttl) (renew fails i key ttl w.state) w
act (Action.waits d) w = record w { state = record w.state { now = w.state.now + d } }

unfoldable pub run : List Action → World → World
run [] w = w
run (a ∷ as') w = run as' (act a w)
