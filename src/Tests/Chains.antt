-- ===== src/Tests/Chains.antt =====
-- The parsers of SOL and TRON at concrete transactions.
use address_monitor.Prelude.{
  ◌≡◌, refl, ◌+◌, ◌-◌, true, some, [], ◌∷◌, bytes, text_eq, to_lower, inl, inr, arith,
  if◌then◌else◌, ◌==◌, ltb,
}
use address_monitor.Prelude.Int.{pos}
use address_monitor.Prelude.Strings.{trim_space, trim_right, trim_left, is_space}
use address_monitor.Events.{NormalizedEvent, RawEvent, native_transfer, outgoing}
use address_monitor.Parser.EventId.{generate_event_id}
use address_monitor.Parser.Sol.{SolEnv, SolTx, net_change, is_positive64, negate64}
use address_monitor.Parser.Tron.{TronEnv, TronTx, has_succeeded, parse_tron}
use address_monitor.Parser.Tron.Laws.{IsTronEvent, parse_tron-IsTronEvent}
use address_monitor.AddrCodec.{tron_normalize, hex_decode, hex_value}
use address_monitor.Prelude.Strings.{has_prefix, trim_prefix}
use address_monitor.Tests.Samples.{base}
use address_monitor.Events.{incoming}
use address_monitor.Parser.Sol.Balances.{fee_of, net_change_lem}

abbrev sol_tx : SolTx
sol_tx = record {
  accounts = some (bytes "Ab" ∷ []);
  pre_balances = 1000 ∷ [];
  post_balances = 877 ∷ [];
  fee = 5;
  pre_tokens = [];
  post_tokens = [];
}

abbrev sol_env : SolEnv
sol_env = record { decode = λ d. some (some sol_tx); sha256 = λ s. 171 ∷ [] }

abbrev sol_raw : RawEvent
sol_raw = record {
  chain = bytes "SOL";
  tx_hash = bytes "5x";
  block_num = 19;
  block_time = pos 7;
  type = bytes "sol_tx";
  payload = [];
}

-- 118 lamports have left the account; the amount is their last digit.
abbrev sol_out : NormalizedEvent
sol_out = record {
  event_id = bytes "ab";
  chain = bytes "SOL";
  tx_hash = bytes "5x";
  block_number = 19;
  block_time = pos 7;
  event_type = native_transfer;
  watched_address = bytes "ab";
  direction = outgoing;
  from = bytes "ab";
  to = bytes "ab";
  asset =
      some
        (record { symbol = bytes "SOL"; contract_address = []; amount = bytes "8"; decimals = 9 });
  raw = [];
}

net_change_lem_example :
    (is_positive64 (net_change 0 1000 877 5) ≡ ltb 1000 (877 + fee_of 0 5))
    × ((net_change 0 1000 877 5 == 0) ≡ (1000 == 877 + fee_of 0 5))
    × ((if is_positive64 (net_change 0 1000 877 5)
          then net_change 0 1000 877 5
          else negate64 (net_change 0 1000 877 5))
        ≡ (if ltb 1000 (877 + fee_of 0 5)
            then 877 + fee_of 0 5 - 1000
            else 1000 - (877 + fee_of 0 5)))
net_change_lem_example = net_change_lem 0 1000 877 5 (omega arith) (omega arith) (omega arith)

abbrev tron_tx : TronTx
tron_tx = record {
  contracts =
      record {
        type = bytes "TransferContract";
        amount = pos 5;
        owner_address = bytes "zz";
        to_address = bytes "yy";
      }
      ∷ [];
  ret = bytes "SUCCESS" ∷ [];
  logs = [];
}

abbrev tron_env : TronEnv
tron_env = record {
  base = base;
  decode = λ d. some tron_tx;
  hex_to_hash = λ t. [];
  sha256 = λ s. 171 ∷ [];
}

abbrev tron_out : NormalizedEvent
tron_out = record {
  event_id = bytes "ab";
  chain = bytes "TRON";
  tx_hash = bytes "5x";
  block_number = 19;
  block_time = pos 7;
  event_type = native_transfer;
  watched_address = bytes "41zz";
  direction = outgoing;
  from = bytes "41zz";
  to = bytes "41yy";
  asset =
      some
        (record { symbol = bytes "TRX"; contract_address = []; amount = bytes "5"; decimals = 6 });
  raw = [];
}

abbrev tron_in : NormalizedEvent
tron_in = record tron_out { watched_address = bytes "41yy"; direction = incoming }

tron_parses : parse_tron tron_env sol_raw ≡ some (tron_out ∷ tron_in ∷ [])
unfolding parse_tron text_eq generate_event_id to_lower tron_normalize hex_decode hex_value
    has_prefix trim_prefix trim_space trim_right trim_left is_space
tron_parses = refl

parse_tron-IsTronEvent_example :
    IsTronEvent tron_env sol_raw tron_in
    × (tx : TronTx) × (some tron_tx ≡ some tx)
    × (has_succeeded tx.ret ≡ true)
parse_tron-IsTronEvent_example =
    parse_tron-IsTronEvent tron_env sol_raw (tron_out ∷ tron_in ∷ []) tron_in tron_parses
      (inr (inl refl))

-- The first result of a transfer has no text.
abbrev unmarked : TronTx
unmarked = record tron_tx { ret = [] ∷ [] }
