-- ===== src/Tests/Parser.antt =====
-- The EVM parser at a concrete transaction.
use address_monitor.Prelude.{
  ◌≡◌, refl, ℕ, none, some, List, [], ◌∷◌, bytes, text_eq, to_lower, to_upper, inl, inr, arith,
  subst,
}
use address_monitor.Prelude.Int.{pos}
use address_monitor.Prelude.Strings.{has_prefix, trim_space, trim_right, trim_left, is_space}
use address_monitor.AddrCodec.{evm_normalize}
use address_monitor.Events.{NormalizedEvent, RawEvent, native_transfer, outgoing, incoming}
use address_monitor.Parser.Evm.{EvmEnv, EvmTx, parse, native_symbol, parse_tx, is_positive}
use address_monitor.Parser.EventId.{generate_event_id}
use address_monitor.Parser.Evm.Laws.{IsAddressText, IsSound, parse-IsSound}

abbrev tx : EvmTx
tx = record {
  hash = bytes "0xab";
  from = bytes "0xBB";
  to = bytes "0xAa";
  value = bytes "5";
  input = [];
}

abbrev env : EvmEnv
env = record {
  decode_tx = λ d. some tx;
  decode_log = λ d. none;
  bytes_to_address = λ b. b;
  address_hex = λ a. bytes "0xCc";
  sha256 = λ s. 171 ∷ [];
}

abbrev raw : RawEvent
raw = record {
  chain = bytes "ETH";
  tx_hash = bytes "0xab";
  block_num = 19;
  block_time = pos 7;
  type = bytes "tx";
  payload = [];
}

abbrev out_event : NormalizedEvent
out_event = record {
  event_id = bytes "ab";
  chain = bytes "ETH";
  tx_hash = bytes "0xab";
  block_number = 19;
  block_time = pos 7;
  event_type = native_transfer;
  watched_address = bytes "0xbb";
  direction = outgoing;
  from = bytes "0xbb";
  to = bytes "0xaa";
  asset =
      some
        (record { symbol = bytes "ETH"; contract_address = []; amount = bytes "5"; decimals = 18 });
  raw = [];
}

abbrev in_event : NormalizedEvent
in_event = record out_event { direction = incoming; watched_address = bytes "0xaa" }

parses : parse env (bytes "eth") raw ≡ some (out_event ∷ in_event ∷ [])
unfolding parse text_eq parse_tx is_positive generate_event_id to_upper to_lower native_symbol
parses = refl

hex_is_address : (a : List ℕ) → IsAddressText (env.address_hex a)
unfolding to_lower evm_normalize has_prefix trim_space trim_right trim_left is_space
hex_is_address a = inr refl

tx_eq : (x : EvmTx) → some tx ≡ some x → tx ≡ x
tx_eq x e = ground arith

tx_is_address :
    (x : EvmTx) → env.decode_tx raw.payload ≡ some x → IsAddressText x.from × IsAddressText x.to
unfolding to_lower evm_normalize has_prefix trim_space trim_right trim_left is_space
tx_is_address x e =
    subst (λ x. IsAddressText x.from × IsAddressText x.to) (tx_eq x e) (inr refl, inr refl)

parse-IsSound_example : IsSound (bytes "eth") raw in_event
parse-IsSound_example =
    parse-IsSound env hex_is_address (bytes "eth") raw (out_event ∷ in_event ∷ []) in_event
      tx_is_address parses (inr (inl refl))
