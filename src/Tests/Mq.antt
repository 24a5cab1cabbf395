-- ===== src/Tests/Mq.antt =====
-- The retries of the broker's client and the batch writer at concrete inputs.
use address_monitor.Prelude.{
  ℕ, ◌+◌, ◌-◌, ◌*◌, ◌^◌, ◌≡◌, ◌≤◌, min, refl, Bool, true, false, none, some, List, [], ◌∷◌, ◌++◌,
  ◌||◌, ltb, if◌then◌else◌, Text, bytes, lookup, insert, text_eq, arith,
}
use address_monitor.Events.{native_transfer}
use address_monitor.Chain.Supervisor.{RawItem}
use address_monitor.Chain.Writer.{
  Writer, Signal, run, step, take_item, put, flush, flush_all, take_next,
}
use address_monitor.Chain.Writer.Content.{content, on, sent, accepted}
use address_monitor.Chain.Writer.Laws.{run_keeps_items}
use address_monitor.Chain.Writer.Bounds.{IsBounded, run-IsBounded}
use address_monitor.Mq.Publisher.{Attempt, publish, publish_bounded, is_acked}
use address_monitor.Mq.Connection.{reconnect, reconnect_waits}

abbrev attempt : ℕ → Attempt
attempt n = record {
  channel_fails = if ltb n 1 then true else false;
  confirm_fails = false;
  publish_fails = false;
  confirmed = if ltb n 2 then none else some true;
}

publish_bounded_example :
    ((publish attempt).returns_nil
      ≡ (is_acked (attempt 0) || is_acked (attempt 1) || is_acked (attempt 2)))
    × ((publish attempt).sent ≤ 3)
    × ((if (publish attempt).returns_nil then 1 else 0) ≤ (publish attempt).sent)
    × ((publish attempt).slept ≤ 1200)
publish_bounded_example = publish_bounded attempt

abbrev dial_fails : ℕ → Bool
dial_fails n = ltb n 7

reconnect_waits_example :
    (reconnect dial_fails 8 0 1 ≡ some (7, (2 ^ min 7 5 - 1) + 32 * (7 - 5)))
    × ((2 ^ min 7 5 - 1) + 32 * (7 - 5) ≤ 32 * 7)
reconnect_waits_example = reconnect_waits dial_fails 7 8 (λ m h. ground arith) refl (omega arith)

abbrev item : Text → Text → RawItem
item chain hash = record {
  chain = chain;
  tx_hash = hash;
  block_number = 1;
  block_time = 2;
  event_type = native_transfer;
  raw_data = [];
}

abbrev writer : Writer
writer = record { channel = []; buffers = []; inserts = []; running = true }

abbrev never : Text → Bool
never chain = false

abbrev signals : List Signal
signals =
    Signal.offers (item (bytes "ETH") (bytes "a"))
    ∷ Signal.offers (item (bytes "SOL") (bytes "b"))
    ∷ Signal.takes never
    ∷ Signal.ticks never
    ∷ Signal.offers (item (bytes "ETH") (bytes "c"))
    ∷ Signal.takes never
    ∷ []

still_runs : (run signals writer).running ≡ true
unfolding run step take_item put flush flush_all take_next lookup insert text_eq
still_runs = refl

run_keeps_items_example :
    (content (bytes "ETH") (run signals writer)
      ≡ content (bytes "ETH") writer ++ on (bytes "ETH") (accepted signals writer))
    × (sent (bytes "ETH") (step (Signal.stops never) (run signals writer)).inserts
          ++ on (bytes "ETH") (step (Signal.stops never) (run signals writer)).channel
        ≡ content (bytes "ETH") writer ++ on (bytes "ETH") (accepted signals writer))
run_keeps_items_example = run_keeps_items signals never (bytes "ETH") writer still_runs

run-IsBounded_example : IsBounded (run signals writer)
run-IsBounded_example = run-IsBounded signals writer (record { buffers = refl; inserts = refl })
