-- ===== src/Chain/Poller/Laws.antt =====
-- What one poll sends, by how it ends.
use address_monitor.Prelude.{
  ℕ, zero, suc, ◌+◌, ◌-◌, ◌≤◌, ◌<◌, ◌≡◌, ◌≢◌, ◌∙◌, refl, sym, ap, none, some, List, [], ◌∷◌, ◌++◌,
  leb, take, arith, subst, Bool-cases, Option-cases, ◌⊎◌, inl, inr,
}
use mathlib.Core.List.{append_assoc, append-nil}
use address_monitor.Chain.Tracker.{Writes, update}
use address_monitor.Chain.Poller.{
  Outcome, ok, block_failed, cancelled, World, Round, send_all, poll_blocks, poll, with_update,
}

module _ {E : Type 0} where
  -- The events of `count` blocks from block i, in order.
  abbrev pub blocks : (ℕ → List E) → ℕ → ℕ → List E
  blocks events zero i = []
  blocks events (suc count) i = events i ++ blocks events count (i + 1)

  -- Every fetch that succeeds returns the block's events.
  abbrev pub IsFaithful : (ℕ → List E) → Round E → Type 0
  IsFaithful events r = (i : ℕ) (es : List E) → r.fetch i ≡ some es → es ≡ events i

  send_all-cases :
      (room : ℕ) (es sent : List E)
      → ((k : ℕ) × (send_all E room es sent ≡ (sent ++ es, some k)))
        ⊎ (send_all E room es sent ≡ (sent ++ take room es, none))
  unfolding send_all
  send_all-cases room [] sent = inl (room, rw (append-nil sent) refl)
  send_all-cases zero (e ∷ es) sent = inr rw (append-nil sent) refl
  send_all-cases (suc room) (e ∷ es) sent = elim (send_all-cases room es (sent ++ e ∷ [])) [
    | inl (k, p) ↦ inl (k, p ∙ rw (append_assoc sent (e ∷ []) es) refl)
    | inr p ↦ inr (p ∙ rw (append_assoc sent (e ∷ []) (take room es)) refl)
  ]

  -- How far a loop over `count` blocks has come.
  pub record Progress (events : ℕ → List E) (count : ℕ) (w : World E) (end : World E × Outcome)
      : Type 0 where
    pub done : ℕ
    pub partial : List E
    pub within : done ≤ count
    pub current : end.0.tracker.current ≡ w.tracker.current + done
    pub sent : end.0.sent ≡ w.sent ++ (blocks events done (w.tracker.current + 1) ++ partial)
    pub part : (n : ℕ) × (partial ≡ take n (events (w.tracker.current + 1 + done)))
    pub whole : end.1 ≢ cancelled → partial ≡ []
    pub cut : end.1 ≡ cancelled → done < count
    pub full : end.1 ≡ ok → done ≡ count
    pub redis :
        (v : ℕ)
        → end.0.saved.redis ≡ some v
        → (w.saved.redis ≡ some v) ⊎ (v ≤ end.0.tracker.current)
    pub mysql :
        (v : ℕ)
        → end.0.saved.mysql ≡ some v
        → (w.saved.mysql ≡ some v) ⊎ (v ≤ end.0.tracker.current)

  still :
      (events : ℕ → List E) (count : ℕ) (w : World E) (o : Outcome)
      → (o ≡ ok → 0 ≡ count)
      → o ≢ cancelled
      → Progress events count w (w, o)
  still events count w o full not_cut = record {
    done = 0;
    partial = [];
    within = omega arith;
    current = omega arith;
    sent = sym (append-nil w.sent);
    part = (0, refl);
    whole = λ h. refl;
    cut = λ h. absurd (not_cut h);
    full = full;
    redis = λ v h. inl h;
    mysql = λ v h. inl h;
  }

  stopped :
      (events : ℕ → List E) (count : ℕ) (w : World E) (n : ℕ) (es : List E)
      → es ≡ events (w.tracker.current + 1)
      → Progress events (suc count) w (record w { sent = w.sent ++ take n es }, cancelled)
  stopped events count w n es ev = record {
    done = 0;
    partial = take n es;
    within = omega arith;
    current = omega arith;
    sent = refl;
    part = (n, ap (take n) (ev ∙ ap events (omega arith)));
    whole = λ h. absurd (h refl);
    cut = λ h. omega arith;
    full = λ h. ground arith;
    redis = λ v h. inl h;
    mysql = λ v h. inl h;
  }

  sent_after : (a b c d : List E) → (a ++ b) ++ (c ++ d) ≡ a ++ ((b ++ c) ++ d)
  sent_after a b c d = append_assoc a b (c ++ d) ∙ ap (λ t. a ++ t) (sym (append_assoc b c d))

  after_block :
      (events : ℕ → List E) (count : ℕ) (w : World E) (ws : Writes) (i : ℕ) (es : List E)
      (end : World E × Outcome)
      → i ≡ w.tracker.current + 1
      → es ≡ events i
      → Progress events count (with_update E ws i (w.sent ++ es) w) end
      → Progress events (suc count) w end
  unfolding update
  after_block events count w ws i es end at ev p = record {
    done = suc p.done;
    partial = p.partial;
    within = omega (arith, p.within);
    current = omega (arith, p.current, at);
    sent = p.sent ∙ sent_after w.sent es _ p.partial ∙ rw (ev, at) refl;
    part = (p.part.0, p.part.1 ∙ ap (λ j. take p.part.0 (events j)) (omega arith));
    whole = p.whole;
    cut = λ h. omega (arith, p.cut h);
    full = λ h. omega (arith, p.full h);
    redis = λ v h. ground (arith, p.redis v h, p.current);
    mysql = λ v h. ground (arith, p.mysql v h, p.current);
  }

  -- One block of the loop, sent whole.
  poll_blocks-one :
      (r : Round E) (count i room k : ℕ) (w : World E) {es : List E}
      → r.fetch i ≡ some es
      → send_all E room es w.sent ≡ (w.sent ++ es, some k)
      → poll_blocks E r (suc count) i room w
        ≡ poll_blocks E r count (i + 1) k (with_update E (r.writes i) i (w.sent ++ es) w)
  unfolding poll_blocks
  poll_blocks-one r count i room k w e p = rw (e, poll_blocks, p) refl

  poll_blocks-Progress :
      (events : ℕ → List E) (r : Round E) (count room i : ℕ) (w : World E)
      → IsFaithful events r
      → i ≡ w.tracker.current + 1
      → Progress events count w (poll_blocks E r count i room w)
  unfolding poll_blocks update
  poll_blocks-Progress events r zero room i w h at =
      still events 0 w ok (λ x. refl) (λ x. ground arith)
  poll_blocks-Progress events r (suc count) room i w h at = elim (Option-cases (r.fetch i)) [
    | inl e ↦
        rw (e, poll_blocks)
          (still events (suc count) w (block_failed i) (λ x. ground arith) (λ x. ground arith))
    | inr (es, e) ↦ elim (send_all-cases room es w.sent) [
      | inl (k, p) ↦
          subst (λ end. Progress events (suc count) w end)
            (sym (poll_blocks-one r count i room k w e p))
            (after_block events count w (r.writes i) i es _ at (h i es e) (
              poll_blocks-Progress events r count k (i + 1)
                (with_update E (r.writes i) i (w.sent ++ es) w) h refl))
      | inr p ↦ rw (e, poll_blocks, p) (stopped events count w room es (h i es e ∙ ap events at))
    ]
  ]

  -- A poll sends the events of the blocks behind the tracker's, in order and whole, up to the block
  -- that the tracker has at the end, and then, only if the context is done, the first events of
  -- the next block, which is at most the height; a poll that returns ok at a later height has sent
  -- every block up to that height. The faults of
  -- the fetches and of the writes are arbitrary; every fetch that succeeds returns its block.
  pub poll_sends :
      (events : ℕ → List E) (r : Round E) (w : World E) (latest : ℕ)
      → IsFaithful events r
      → r.latest ≡ some latest
      → Progress events (latest - w.tracker.current) w (poll E r w)
  unfolding poll
  poll_sends events r w latest h e = elim (Bool-cases (leb latest w.tracker.current)) [
    | inl le ↦ rw (e, le) (still events _ w ok (λ x. ground arith) (λ x. ground arith))
    | inr gt ↦ rw (e, gt) (poll_blocks-Progress events r _ r.room _ w h refl)
  ]
