-- ===== src/Chain/Poller.antt =====
-- internal/chain/poller.go: the polling loop of a listener. The blocks, and what a fetch of each
-- returns, are parameters; a number of sends stands for the moment at which the context is done.
pub mod Laws
pub mod Restart
use address_monitor.Prelude.{
  ℕ, zero, suc, ◌+◌, ◌-◌, Bool, true, false, Option, none, some, List, [], ◌∷◌, ◌++◌, if◌then◌else◌,
  leb,
}
use address_monitor.Chain.Tracker.{Tracker, Saved, Writes, update}

-- How a poll ends: nil, the error of a block, or nil because the context is done.
pub data Outcome : Type 0 where
  ok : Outcome
  latest_failed : Outcome
  block_failed : ℕ → Outcome
  cancelled : Outcome

module _ (E : Type 0) where
  -- A listener with its channel: what was sent on eventCh, in order.
  pub record World : Type 0 where
    pub tracker : Tracker
    pub saved : Saved
    pub sent : List E

  -- What the outside does during a poll.
  pub record Round : Type 0 where
    pub latest : Option ℕ
    pub fetch : ℕ → Option (List E)
    pub writes : ℕ → Writes
    pub room : ℕ

  -- The sends of one block; `none` when the context is done first.
  unfoldable pub send_all : ℕ → List E → List E → List E × Option ℕ
  send_all room [] sent = (sent, some room)
  send_all zero (e ∷ es) sent = (sent, none)
  send_all (suc room) (e ∷ es) sent = send_all room es (sent ++ e ∷ [])

  abbrev pub with_update : Writes → ℕ → List E → World → World
  with_update ws i sent w =
      let (tracker, saved) = update ws i (w.tracker, w.saved) in
      record { tracker = tracker; saved = saved; sent = sent }

  -- The rest of the loop's body: the return of the select, or the update and the blocks behind.
  abbrev pub after_sends :
      (ℕ → World → World × Outcome) → Writes → ℕ → World → List E × Option ℕ → World × Outcome
  after_sends loop ws i w (sent, none) = (record w { sent = sent }, cancelled)
  after_sends loop ws i w (sent, some room) = loop room (with_update ws i sent w)

  -- The loop over `count` blocks from block i.
  unfoldable pub poll_blocks : Round → ℕ → ℕ → ℕ → World → World × Outcome
  unfolding send_all
  poll_blocks r zero i room w = (w, ok)
  poll_blocks r (suc count) i room w = elim (r.fetch i) [
    | none ↦ (w, block_failed i)
    | some es ↦ after_sends (poll_blocks r count (i + 1)) (r.writes i) i w (send_all room es w.sent)
  ]

  unfoldable pub poll : Round → World → World × Outcome
  unfolding poll_blocks
  poll r w = elim r.latest [
    | none ↦ (w, latest_failed)
    | some latest ↦
        let last = w.tracker.current in
        if leb latest last then (w, ok) else poll_blocks r (latest - last) (last + 1) r.room w
  ]
