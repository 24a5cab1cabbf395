-- ===== src/Parser/Tron.antt =====
-- internal/parser/tron.go. JSON decoding, HexToHash of go-ethereum, base58 and SHA-256 are parameters.
pub mod Laws
use address_monitor.Prelude.{
  ℕ, suc, ◌+◌, ◌-◌, ◌*◌, Bool, true, false, Option, none, some, List, [], ◌∷◌, ◌++◌, Text, bytes,
  text_eq, leb, ltb, if◌then◌else◌, length, drop,
}
use address_monitor.Prelude.Strings.{trim_prefix}
use address_monitor.Prelude.Int.{ℤ, pos, negsuc}
use address_monitor.AddrCodec.{Base58, tron_normalize, hex_value}
use address_monitor.Events.{
  EventType, native_transfer, token_transfer, Direction, incoming, outgoing, AssetInfo,
  NormalizedEvent, RawEvent,
}
use address_monitor.Parser.EventId.{decimal, show_int, generate_event_id}
use address_monitor.Parser.Evm.{set_bytes, topic_erc20_transfer}

-- An entry of raw_data.contract, its value spread out.
pub record TronContract : Type 0 where
  pub type : Text
  pub amount : ℤ
  pub owner_address : Text
  pub to_address : Text

pub record TronLog : Type 0 where
  pub address : Text
  pub topics : List Text
  pub payload : Text

pub record TronTx : Type 0 where
  pub contracts : List TronContract
  pub ret : List Text
  pub logs : List TronLog

pub record TronEnv : Type 0 where
  pub base : Base58
  pub decode : Text → Option TronTx
  pub hex_to_hash : Text → List ℕ
  pub sha256 : Text → List ℕ

-- hex.DecodeString without its error: the bytes before the first bad pair.
unfoldable pub hex_bytes : Text → List ℕ
hex_bytes [] = []
hex_bytes (a ∷ []) = []
hex_bytes (a ∷ b ∷ s) =
    let rest = hex_bytes s in
    elim (hex_value a) [
      | none ↦ []
      | some x ↦ elim (hex_value b) [ none ↦ [] | some y ↦ (x * 16 + y) ∷ rest ]
    ]

-- tronTopicToAddress
unfoldable pub tron_topic_to_address : Base58 → Text → Text
unfolding tron_normalize
tron_topic_to_address base topic =
    let t = trim_prefix topic (bytes "0x") in
    if leb 40 (length t)
    then tron_normalize base (bytes "41" ++ drop (length t - 40) t)
    else tron_normalize base t

-- tx.Ret[0].ContractRet == "SUCCESS"
unfoldable pub has_succeeded : List Text → Bool
has_succeeded [] = false
has_succeeded (r ∷ rs) = text_eq r (bytes "SUCCESS")

module _ (env : TronEnv) where
  unfoldable pub tron_event :
      RawEvent → ℤ → EventType → Text → Direction → Text → Text → AssetInfo → NormalizedEvent
  tron_event raw index type watched direction from to asset = record {
    event_id = generate_event_id env.sha256 (bytes "TRON") raw.tx_hash index;
    chain = bytes "TRON";
    tx_hash = raw.tx_hash;
    block_number = raw.block_num;
    block_time = raw.block_time;
    event_type = type;
    watched_address = watched;
    direction = direction;
    from = from;
    to = to;
    asset = some asset;
    raw = raw.payload;
  }

  -- The two events of a transfer.
  unfoldable pub transfer :
      RawEvent → ℤ → ℤ → EventType → Text → Text → AssetInfo → List NormalizedEvent
  unfolding tron_event
  transfer raw i j type from to asset =
      tron_event raw i type from outgoing from to asset
      ∷ tron_event raw j type to incoming from to asset
      ∷ []

  -- parseNativeTransfer
  unfoldable pub parse_native_transfer : RawEvent → TronContract → List NormalizedEvent
  unfolding transfer
  parse_native_transfer raw c =
      transfer raw (negsuc 1) (negsuc 0) native_transfer (tron_normalize env.base c.owner_address)
        (tron_normalize env.base c.to_address)
        (record {
          symbol = bytes "TRX";
          contract_address = [];
          amount = show_int c.amount;
          decimals = 6;
        })

  -- One round of parseLogs.
  unfoldable pub log_events : RawEvent → ℕ → Text → List Text → Text → List NormalizedEvent
  unfolding transfer tron_topic_to_address hex_bytes set_bytes decimal
  log_events raw i address (t0 ∷ t1 ∷ t2 ∷ topics) payload =
      if text_eq (env.hex_to_hash (bytes "0x" ++ t0)) topic_erc20_transfer
      then transfer raw (pos (i * 10)) (pos (i * 10 + 1)) token_transfer
          (tron_topic_to_address env.base t1) (tron_topic_to_address env.base t2)
          (record {
            symbol = [];
            contract_address = tron_normalize env.base address;
            amount = decimal (set_bytes 0 (hex_bytes payload));
            decimals = 0;
          })
      else []
  log_events raw i address [] payload = []
  log_events raw i address (t0 ∷ []) payload = []
  log_events raw i address (t0 ∷ t1 ∷ []) payload = []

  unfoldable pub parse_logs : RawEvent → ℕ → List TronLog → List NormalizedEvent
  unfolding log_events
  parse_logs raw i [] = []
  parse_logs raw i (log ∷ logs) =
      log_events raw i log.address log.topics log.payload ++ parse_logs raw (i + 1) logs

  -- The switch over the first contract.
  unfoldable pub parse_contract : RawEvent → TronTx → TronContract → List NormalizedEvent
  unfolding parse_native_transfer parse_logs
  parse_contract raw tx c =
      if text_eq c.type (bytes "TransferContract")
      then parse_native_transfer raw c
      else if text_eq c.type (bytes "TriggerSmartContract")
      then parse_logs raw 0 tx.logs
      else []

  unfoldable pub parse_success : RawEvent → TronTx → List TronContract → List NormalizedEvent
  unfolding parse_contract
  parse_success raw tx [] = []
  parse_success raw tx (c ∷ cs) = parse_contract raw tx c

  -- Parse; none is an error.
  unfoldable pub parse_tron : RawEvent → Option (List NormalizedEvent)
  unfolding parse_success has_succeeded
  parse_tron raw = elim (env.decode raw.payload) [
    | none ↦ none
    | some tx ↦ some (if has_succeeded tx.ret then parse_success raw tx tx.contracts else [])
  ]
