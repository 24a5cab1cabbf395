-- ===== src/Chain/Poller/Restart.antt =====
-- A listener over polls and restarts.
use address_monitor.Prelude.{
  ℕ, zero, suc, ◌+◌, ◌^◌, ◌≤◌, ◌<◌, ◌≡◌, refl, Bool, true, false, Option, none, some, List, [],
  ◌++◌, ltb, arith, ◌==◌, leb, subst, Bool-cases, In, In-append_left, In-append_right, ◌⊎◌, inl,
  inr,
}
use address_monitor.Chain.Tracker.{init, started, sub64}
use address_monitor.Chain.Poller.{Outcome, ok, World, Round, poll}
use address_monitor.Chain.Poller.Laws.{blocks, IsFaithful, Progress, poll_sends}

abbrev pub reading : Bool → Option ℕ → Option ℕ
reading true o = o
reading false o = none

sub64-le : (a b s : ℕ) → sub64 a b ≡ s → s + b < 2 ^ 64 → s ≤ a
sub64-le a b s e h = omega arith

init_from :
    (c : ℕ) (r m : Option ℕ) (start : ℕ)
    → init c r m none ≡ some start
    → (v : ℕ) × ((r ≡ some v) ⊎ (m ≡ some v)) × (sub64 v c ≡ start)
unfolding init
init_from c none none start e = ground arith
init_from c none (some v) start e = (v, inr refl, (ground arith))
init_from c (some v) none start e = (v, inl refl, (ground arith))
init_from c (some v) (some u) start e = elim (Bool-cases (ltb 0 v)) [
  | inl h ↦ (v, inl refl, (ground arith))
  | inr h ↦ (u, inr refl, (ground arith))
]

init_wraps :
    (c v start : ℕ) (m latest : Option ℕ)
    → 0 < v
    → init c (some v) m latest ≡ some start
    → sub64 v c ≡ start
unfolding init
init_wraps c v start m latest pos e = ground arith

over : (a b : ℕ) → leb a b ≡ false → b < a
over a b h = ground arith

stays :
    (c v latest current start : ℕ)
    → v < c
    → c ≤ 2 ^ 64
    → sub64 v c ≡ start
    → current ≡ start
    → latest + c ≤ 2 ^ 64
    → leb latest current ≡ true
stays c v latest current start lt c64 e at low = elim (Bool-cases (leb latest current)) [
  | inl h ↦ h
  | inr h ↦ absurd (omega (arith, lt, c64, e, at, low, over latest current h))
]

of_reading : (r : Bool) (o : Option ℕ) (v : ℕ) → reading r o ≡ some v → o ≡ some v
of_reading true o v h = h
of_reading false o v h = ground arith

eq_of_test : (i n : ℕ) → (i == n) ≡ true → n ≡ i
eq_of_test i n h = ground arith

module _ {E : Type 0} where
  -- The first start of a listener, at a block, with nothing saved.
  abbrev pub first_start : ℕ → World E
  first_start origin = record {
    tracker = started origin;
    saved = record { redis = none; mysql = none };
    sent = [];
  }

  -- The worlds that a listener reaches by polls and by restarts that read a saved block. A restart
  -- may come after any poll, so also after one that the context has cut off; either reading of it
  -- may fail, and its start block is not one at which the subtraction has wrapped round.
  pub data IsReachable (events : ℕ → List E) (confirmations origin : ℕ) : World E → Type 0 where
    begun : IsReachable events confirmations origin (first_start origin)
    polled :
        (w : World E) (r : Round E) (latest : ℕ)
        → IsReachable events confirmations origin w
        → IsFaithful events r
        → r.latest ≡ some latest
        → IsReachable events confirmations origin (poll E r w).0
    restarted :
        (w : World E) (redis_read mysql_read : Bool) (start : ℕ)
        → IsReachable events confirmations origin w
        → init confirmations
            (reading redis_read w.saved.redis)
            (reading mysql_read w.saved.mysql)
            none
          ≡ some start
        → start + confirmations < 2 ^ 64
        → IsReachable events confirmations origin (record w { tracker = started start })

  -- The events of every block up to one are among those that were sent.
  abbrev pub HasSent : (ℕ → List E) → ℕ → ℕ → List E → Type 0
  HasSent events origin h sent = (n : ℕ) (e : E) → origin < n → n ≤ h → In e (events n) → In e sent

  In-blocks :
      (events : ℕ → List E) (count i n : ℕ) (e : E)
      → i ≤ n
      → n < i + count
      → In e (events n)
      → In e (blocks events count i)
  In-blocks events zero i n e lo hi h = absurd (omega arith)
  In-blocks events (suc count) i n e lo hi h = elim (Bool-cases (i == n)) [
    | inl at ↦ In-append_left e (events i) _ (subst (λ k. In e (events k)) (eq_of_test i n at) h)
    | inr other ↦
        In-append_right e (events i) _
          (In-blocks events count (i + 1) n e (ground arith) (ground arith) h)
  ]

  -- What holds of a listener all along.
  pub record IsComplete (events : ℕ → List E) (origin : ℕ) (w : World E) : Type 0 where
    pub current : HasSent events origin w.tracker.current w.sent
    pub redis : (v : ℕ) → w.saved.redis ≡ some v → HasSent events origin v w.sent
    pub mysql : (v : ℕ) → w.saved.mysql ≡ some v → HasSent events origin v w.sent

  kept_sent :
      (events : ℕ → List E) (origin h : ℕ) (w : World E) (sent more : List E)
      → sent ≡ w.sent ++ more
      → HasSent events origin h w.sent
      → HasSent events origin h sent
  kept_sent events origin h w sent more p s n e lo hi i =
      rw p (In-append_left e w.sent more (s n e lo hi i))

  sent_now :
      (events : ℕ → List E) (origin count : ℕ) (w : World E) (end : World E × Outcome)
      → Progress events count w end
      → IsComplete events origin w
      → HasSent events origin end.0.tracker.current end.0.sent
  sent_now events origin count w end p c n e lo hi i = elim (Bool-cases (leb n w.tracker.current)) [
    | inl le ↦
        kept_sent events origin w.tracker.current w end.0.sent _ p.sent c.current n e lo
          (ground arith) i
    | inr gt ↦ rw p.sent (
        In-append_right e w.sent _ (
          In-append_left e (blocks events p.done (w.tracker.current + 1)) p.partial (
            In-blocks events p.done (w.tracker.current + 1) n e (ground arith)
              (omega (arith, hi, p.current)) i)))
  ]

  HasSent-Progress :
      (events : ℕ → List E) (origin count : ℕ) (w : World E) (end : World E × Outcome)
      → Progress events count w end
      → IsComplete events origin w
      → IsComplete events origin end.0
  HasSent-Progress events origin count w end p c =
      let kept = λ (h : ℕ) (s : HasSent events origin h w.sent).
        kept_sent events origin h w end.0.sent _ p.sent s in
      let now = sent_now events origin count w end p c in
      record {
        current = now;
        redis = λ v h. elim (p.redis v h) [
          | inl old ↦ kept v (c.redis v old)
          | inr le ↦ λ n e lo hi. now n e lo (omega (arith, hi, le))
        ];
        mysql = λ v h. elim (p.mysql v h) [
          | inl old ↦ kept v (c.mysql v old)
          | inr le ↦ λ n e lo hi. now n e lo (omega (arith, hi, le))
        ];
      }

  IsComplete-restart :
      (events : ℕ → List E) (c origin : ℕ) (w : World E) (r m : Bool) (start : ℕ)
      → init c (reading r w.saved.redis) (reading m w.saved.mysql) none ≡ some start
      → start + c < 2 ^ 64
      → IsComplete events origin w
      → IsComplete events origin (record w { tracker = started start })
  IsComplete-restart events c origin w r m start e small p =
      let (v, from, s) = init_from c _ _ start e in
      let le = sub64-le v c start s small in
      record {
        current = elim from [
          | inl h ↦
              λ n x lo hi. p.redis v (of_reading r w.saved.redis v h) n x lo (omega (arith, hi, le))
          | inr h ↦
              λ n x lo hi. p.mysql v (of_reading m w.saved.mysql v h) n x lo (omega (arith, hi, le))
        ];
        redis = p.redis;
        mysql = p.mysql;
      }

  reachable-IsComplete :
      (events : ℕ → List E) (c origin : ℕ) (w : World E)
      → IsReachable events c origin w
      → IsComplete events origin w
  reachable-IsComplete events c origin w begun = record {
    current = λ n e lo hi i. absurd (omega (arith, lo, hi));
    redis = λ v h. ground arith;
    mysql = λ v h. ground arith;
  }
  reachable-IsComplete events c origin w (polled w' r latest h f l) =
      HasSent-Progress events origin _ w' _ (poll_sends events r w' latest f l)
        (reachable-IsComplete events c origin w' h)
  reachable-IsComplete events c origin w (restarted w' r m start h e small) =
      IsComplete-restart events c origin w' r m start e small
        (reachable-IsComplete events c origin w' h)

  -- Whatever polls and restarts a listener has been through, with every fetch that succeeds
  -- returning its block and every restart as in IsReachable, the events of all the blocks from the
  -- one behind its first start block to its tracker's block have been sent.
  pub no_event_lost :
      (events : ℕ → List E) (confirmations origin : ℕ) (w : World E) (n : ℕ) (e : E)
      → IsReachable events confirmations origin w
      → origin < n
      → n ≤ w.tracker.current
      → In e (events n)
      → In e w.sent
  no_event_lost events confirmations origin w n e h lo hi i =
      (reachable-IsComplete events confirmations origin w h).current n e lo hi i

  -- A listener that starts from a saved block below its number of confirmations sends nothing and
  -- does not move, as long as the chain's height is at most 2^64 less that number.
  pub underflow_stalls :
      (confirmations v latest start : ℕ) (mysql fallback : Option ℕ) (w : World E) (r : Round E)
      → 0 < v
      → v < confirmations
      → confirmations ≤ 2 ^ 64
      → init confirmations (some v) mysql fallback ≡ some start
      → w.tracker.current ≡ start
      → r.latest ≡ some latest
      → latest + confirmations ≤ 2 ^ 64
      → poll E r w ≡ (w, ok)
  unfolding poll init
  underflow_stalls c v latest start mysql fallback w r pos lt c64 e at l low =
      let wrapped = init_wraps c v start mysql fallback pos e in
      rw (l, stays c v latest w.tracker.current start lt c64 wrapped at low) refl
