-- ===== src/DistLock/Shared.antt =====
-- The field value that all the keys of an instance share.
use address_monitor.Prelude.{
  ℕ, ◌+◌, ◌≡◌, ◌<◌, refl, true, false, none, some, Text, text_eq, text_eq_iff, text_eq_self,
  ==_self, arith,
}
use address_monitor.DistLock.{
  Entry, LockState, LockError, live, lock, if_held, renew, set_key, set_id,
}

abbrev locked : ℕ → Text → Text → ℕ → LockState → LockState
locked i key uuid ttl s = record s {
  store = set_key key (some (record { value = uuid; expires_at = s.now + ttl })) s.store;
  values = set_id i uuid s.values;
}

lock_ok :
    (i : ℕ) (key uuid : Text) (ttl : ℕ) (s : LockState)
    → live s.now (s.store key) ≡ none
    → lock false i key uuid ttl s ≡ (some true, locked i key uuid ttl s)
unfolding lock
lock_ok i key uuid ttl s free = rw (lock, free) refl

renew_foreign :
    (i : ℕ) (key : Text) (ttl : ℕ) (s : LockState) (e : Entry)
    → live s.now (s.store key) ≡ some e
    → text_eq e.value (s.values i) ≡ false
    → renew false i key ttl s ≡ (some LockError.lock_not_held, s)
unfolding renew if_held
renew_foreign i key ttl s e here other = rw (renew, if_held, here) (rw other refl)

differ : (a b : Text) → text_eq b a ≡ false → text_eq a b ≡ false
differ a b h = ground (arith, text_eq_iff a b, text_eq_iff b a)

live_entry : (now : ℕ) (e : Entry) → now < e.expires_at → live now (some e) ≡ some e
unfolding live
live_entry now e h = ground arith

-- An instance that gets a second key, under another random text, loses the first one: the next Renew
-- of the first key, while its entry is there, answers that the lock is not held and renews nothing.
pub second_lock_loses_first :
    (i : ℕ) (a b u v : Text) (ttl ttl' : ℕ) (s : LockState)
    → text_eq b a ≡ false
    → text_eq u v ≡ false
    → 0 < ttl
    → live s.now (s.store a) ≡ none
    → live s.now (s.store b) ≡ none
    → ((lock false i a u ttl s).0 ≡ some true)
      × ((lock false i b v ttl (lock false i a u ttl s).1).0 ≡ some true)
      × (renew false i a ttl' (lock false i b v ttl (lock false i a u ttl s).1).1
          ≡ (some LockError.lock_not_held, (lock false i b v ttl (lock false i a u ttl s).1).1))
second_lock_loses_first i a b u v ttl ttl' s ab uv pos fa fb =
    let s1 = locked i a u ttl s in
    let s2 = locked i b v ttl s1 in
    let first = lock_ok i a u ttl s fa in
    let second = lock_ok i b v ttl s1 (rw (differ a b ab) fb) in
    rw first (
      rw second (
        refl,
        refl,
        renew_foreign i a ttl' s2 (record { value = u; expires_at = s.now + ttl })
            (rw (ab, text_eq_self a)
              (live_entry s.now (record { value = u; expires_at = s.now + ttl }) (omega arith)))
            (rw (==_self i) uv),
      ))
