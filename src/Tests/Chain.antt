-- ===== src/Tests/Chain.antt =====
-- The listener, the whitelist and the supervisor at concrete inputs.
use address_monitor.Prelude.{
  ◌≡◌, ◌≤◌, ◌^◌, ◌-◌, ◌⊎◌, refl, ℕ, true, false, not, any, ◌||◌, Option, none, some, List, [], ◌∷◌,
  bytes, text_eq, text_eq_self, arith, In, inl, is_empty_text, to_upper, lookup,
}
use address_monitor.Events.{NormalizedEvent, RawEvent}
use address_monitor.AddrCodec.{codec_of, normalize}
use address_monitor.Store.Contracts.{AllowedContract}
use address_monitor.Chain.ContractFilter.{reload, is_allowed, empty}
use address_monitor.Chain.ContractFilter.Laws.{is_allowed-reload, on_chain, is_row}
use address_monitor.Chain.Tracker.{Writes, init, update}
use address_monitor.Chain.Poller.{World, Round, ok, poll}
use address_monitor.Chain.Poller.Laws.{IsFaithful, Progress, poll_sends}
use address_monitor.Chain.Poller.Restart.{
  IsReachable, begun, polled, restarted, first_start, reading, no_event_lost, underflow_stalls,
}
use address_monitor.Chain.Supervisor.{SupervisorEnv, Pipeline, complete, handle_raw_event}
use address_monitor.Chain.Supervisor.Laws.{IsDue, handle_raw_event_publishes}
use address_monitor.Chain.Supervisor.Only.{IsWanted, handle_raw_event_only}
use address_monitor.Matcher.Defs.{is_known}
use address_monitor.Tests.Samples.{bloom, row, table, base, event}
use address_monitor.Tests.Matcher.{filled, filled-Covers}

-- Block n holds the one event n.
abbrev block : ℕ → List ℕ
block n = n ∷ []

abbrev both : Writes
both = record { redis_ok = true; mysql_ok = true }

abbrev round : ℕ → Round ℕ
round latest = record {
  latest = some latest;
  fetch = λ i. some (block i);
  writes = λ i. both;
  room = 100;
}

round-IsFaithful : (latest : ℕ) → IsFaithful block (round latest)
round-IsFaithful latest i es e = ground arith

abbrev at_ten : World ℕ
at_ten = first_start 10

poll_sends_example : Progress block (12 - 10) at_ten (poll ℕ (round 12) at_ten)
poll_sends_example = poll_sends block (round 12) at_ten 12 (round-IsFaithful 12) refl

-- Two blocks, then a restart that goes one block back, then three more.
abbrev first_polled : World ℕ
first_polled = (poll ℕ (round 12) at_ten).0

abbrev after_restart : World ℕ
after_restart = record first_polled { tracker = record { current = 11; counter = 0 } }

abbrev at_end : World ℕ
at_end = (poll ℕ (round 15) after_restart).0

restart_init :
    init 1 (reading true first_polled.saved.redis) (reading true first_polled.saved.mysql) none
    ≡ some 11
unfolding init poll update
restart_init = refl

at_end_current : at_end.tracker.current ≡ 15
unfolding poll update
at_end_current = refl

reaches_14 : 14 ≤ at_end.tracker.current
reaches_14 = omega (arith, at_end_current)

at_end-IsReachable : IsReachable block 1 10 at_end
at_end-IsReachable =
    polled after_restart (round 15) 15
      (restarted first_polled true true 11
        (polled at_ten (round 12) 12 begun (round-IsFaithful 12) refl) restart_init (omega arith))
      (round-IsFaithful 15) refl

no_event_lost_example : In 14 at_end.sent
no_event_lost_example =
    no_event_lost block 1 10 at_end 14 14 at_end-IsReachable (omega arith) reaches_14 (inl refl)

-- Block 5 saved, with 12 confirmations.
abbrev wrapped : World ℕ
wrapped = first_start (2 ^ 64 - 7)

underflow_stalls_example : poll ℕ (round 1000) wrapped ≡ (wrapped, ok)
unfolding init
underflow_stalls_example =
    underflow_stalls 12 5 1000 (2 ^ 64 - 7) none none wrapped (round 1000) (omega arith)
      (omega arith) (omega arith) refl refl refl (omega arith)

abbrev usdt : AllowedContract
usdt = record {
  id = 1;
  chain = bytes "ETH";
  contract_address = bytes "0xdd";
  symbol = bytes "USDT";
  decimals = 6;
  enabled = 1;
}

is_allowed-reload_example : is_allowed base (reload (usdt ∷ [])) (bytes "eth") (bytes "0xDD") ≡ (
    is_empty_text (bytes "0xDD")
    || (not (any (on_chain (to_upper (bytes "eth"))) (usdt ∷ []))
        || any
            (is_row
              (to_upper (bytes "eth"))
              (normalize base (codec_of (bytes "eth")) (bytes "0xDD")))
            (usdt ∷ [])))
is_allowed-reload_example = is_allowed-reload base (usdt ∷ []) (bytes "eth") (bytes "0xDD")

abbrev parsed : RawEvent → Option (List NormalizedEvent)
parsed raw = some (event ∷ [])

abbrev env : SupervisorEnv
env = record {
  parsers = λ c. some parsed;
  base = base;
  same = text_eq;
  now = 1;
  hot_hit = λ e. none;
  list_fails = λ e. false;
  publish_fails = λ e. false;
}

abbrev pipeline : Pipeline
pipeline = record {
  published = [];
  redis = record { hot = λ c. []; last_active = λ c a. none; incremental = λ c. [] };
  raw_writes = [];
}

abbrev raw_event : RawEvent
raw_event = record {
  chain = bytes "ETH";
  tx_hash = bytes "0xab";
  block_num = 19;
  block_time = event.block_time;
  type = bytes "tx";
  payload = [];
}

event-IsDue : IsDue bloom env empty filled table event row
unfolding is_allowed
event-IsDue = record {
  allowed = refl;
  row = inl refl;
  enabled = refl;
  chain = refl;
  address = refl;
  listed = refl;
  sent = refl;
}

handle_raw_event_publishes_example :
    In
      (complete empty event)
      (handle_raw_event bloom env empty filled table raw_event pipeline).published
unfolding is_known lookup text_eq
handle_raw_event_publishes_example =
    handle_raw_event_publishes bloom env empty filled table raw_event parsed (event ∷ []) event row
      pipeline text_eq_self filled-Covers refl refl refl (inl refl) event-IsDue

-- The event is published.
matched_event :
    In
      (complete empty event)
      (handle_raw_event bloom env empty filled table raw_event pipeline).published
unfolding is_known lookup text_eq
matched_event =
    handle_raw_event_publishes bloom env empty filled table raw_event parsed (event ∷ []) event row
      pipeline text_eq_self filled-Covers refl refl refl (inl refl) event-IsDue

handle_raw_event_only_example :
    In (complete empty event) pipeline.published
    ⊎ IsWanted bloom env empty filled table (event ∷ []) (complete empty event)
handle_raw_event_only_example =
    handle_raw_event_only bloom env empty filled table raw_event parsed (event ∷ [])
      (complete empty event) pipeline refl refl matched_event
