-- ===== src/Parser/Evm.antt =====
-- internal/parser/evm.go. A hash and an address are their bytes. JSON decoding and the functions of
-- go-ethereum are parameters.
pub mod Laws
use address_monitor.Prelude.{
  ℕ, zero, suc, ◌+◌, ◌*◌, Bool, true, false, Option, none, some, List, [], ◌∷◌, ◌++◌, Text, bytes,
  text_eq, to_lower, to_upper, leb, ltb, if◌then◌else◌, ◌==◌, ◌&&◌, ◌||◌, is_empty, length, take,
  not,
}
use address_monitor.Prelude.Int.{ℤ, pos, negsuc}
use address_monitor.AddrCodec.{hex_decode}
use address_monitor.Events.{
  EventType, native_transfer, token_transfer, swap, stake, unstake, contract_call, Direction,
  incoming, outgoing, unset, AssetInfo, NormalizedEvent, RawEvent,
}
use address_monitor.Parser.EventId.{decimal, generate_event_id}

pub record EvmTx : Type 0 where
  pub hash : Text
  pub from : Text
  pub to : Text
  pub value : Text
  pub input : Text

-- The fields of types.Log that the parser reads.
pub record EvmLog : Type 0 where
  pub address : List ℕ
  pub topics : List (List ℕ)
  pub payload : List ℕ
  pub index : ℕ

pub record EvmEnv : Type 0 where
  pub decode_tx : Text → Option EvmTx
  pub decode_log : Text → Option EvmLog
  pub bytes_to_address : List ℕ → List ℕ
  pub address_hex : List ℕ → Text
  pub sha256 : Text → List ℕ

-- HexToHash of a constant.
abbrev pub from_hex : Text → List ℕ
from_hex s = elim (hex_decode s) [ none ↦ [] | some b ↦ b ]

abbrev pub topic_erc20_transfer : List ℕ
topic_erc20_transfer =
    from_hex (bytes "ddf252ad1be2c89b69c2b068fc378daa952ba7f163c4a11628f55a4df523b3ef")

abbrev pub topic_uniswap_v2_swap : List ℕ
topic_uniswap_v2_swap =
    from_hex (bytes "d78ad95fa46c994b6551d0da85fc275fe613ce37657fb8d5e3d130840159d822")

abbrev pub topic_uniswap_v3_swap : List ℕ
topic_uniswap_v3_swap =
    from_hex (bytes "c42079f94a6350d7e6235f29174924f928cc2ac818eb64fed8004e115fbcca67")

abbrev pub topic_deposit : List ℕ
topic_deposit = from_hex (bytes "e1fffcc4923d04b559f4d29a8bfc6cda04eb5b0d3c460751c2402c5c5cc9109c")

abbrev pub topic_withdraw : List ℕ
topic_withdraw = from_hex (bytes "884edad9ce6fa2440d8a54cc123490eb96d2768479d49ff9c7366125a9424364")

unfoldable pub native_symbol : Text → Text
native_symbol chain =
    if text_eq chain (bytes "ETH")
    then bytes "ETH"
    else if text_eq chain (bytes "BSC")
    then bytes "BNB"
    else chain

abbrev pub is_digit : ℕ → Bool
is_digit c = leb 48 c && leb c 57

-- A digit other than 0 stands among the leading digits.
unfoldable pub some_nonzero : Text → Bool
some_nonzero [] = false
some_nonzero (c ∷ cs) = is_digit c && (not (c == 48) || some_nonzero cs)

-- value.SetString(s, 10), then value.Sign() > 0. SetString keeps the digits before a text that it
-- refuses.
unfoldable pub is_positive : Text → Bool
unfolding some_nonzero
is_positive [] = false
is_positive (c ∷ cs) =
    if c == 45 then false else if c == 43 then some_nonzero cs else some_nonzero (c ∷ cs)

-- SetBytes: the bytes as a big-endian number.
unfoldable pub set_bytes : ℕ → List ℕ → ℕ
set_bytes n [] = n
set_bytes n (b ∷ bs) = set_bytes (n * 256 + b) bs

module _ (env : EvmEnv) where
  abbrev pub lower_hex : List ℕ → Text
  lower_hex a = to_lower (env.address_hex a)

  -- A NormalizedEvent with the fields that all of them take from the raw event.
  unfoldable pub event_of :
      Text
      → RawEvent
      → ℤ
      → EventType
      → Text
      → Direction
      → Text
      → Text
      → Option AssetInfo
      → NormalizedEvent
  event_of chain raw index type watched direction from to asset = record {
    event_id = generate_event_id env.sha256 chain raw.tx_hash index;
    chain = chain;
    tx_hash = raw.tx_hash;
    block_number = raw.block_num;
    block_time = raw.block_time;
    event_type = type;
    watched_address = watched;
    direction = direction;
    from = from;
    to = to;
    asset = asset;
    raw = raw.payload;
  }

  -- parseTx; the result `none` is an error.
  unfoldable pub parse_tx : Text → RawEvent → Option (List NormalizedEvent)
  unfolding event_of
  parse_tx chain raw = elim (env.decode_tx raw.payload) [
    | none ↦ none
    | some tx ↦
        let from = to_lower tx.from in
        let to = to_lower tx.to in
        let asset = some (record {
          symbol = native_symbol chain;
          contract_address = [];
          amount = tx.value;
          decimals = 18;
        }) in
        if is_positive tx.value
        then some (
            event_of chain raw (negsuc 1) native_transfer from outgoing from to asset
            ∷ event_of chain raw (negsuc 0) native_transfer to incoming from to asset
            ∷ [])
        else some []
  ]

  unfoldable pub parse_erc20_transfer : Text → RawEvent → EvmLog → List NormalizedEvent
  unfolding event_of
  parse_erc20_transfer chain raw log = elim log.topics [
    | t0 ∷ t1 ∷ t2 ∷ ts ↦
        let from = lower_hex (env.bytes_to_address t1) in
        let to = lower_hex (env.bytes_to_address t2) in
        let asset = some (record {
          symbol = [];
          contract_address = lower_hex log.address;
          amount = decimal (set_bytes 0 log.payload);
          decimals = 0;
        }) in
        event_of chain raw (pos (log.index * 10)) token_transfer from outgoing from to asset
        ∷ event_of chain raw (pos (log.index * 10 + 1)) token_transfer to incoming from to asset
        ∷ []
    | t0 ∷ t1 ∷ [] ↦ []
    | t0 ∷ [] ↦ []
    | [] ↦ []
  ]

  unfoldable pub parse_swap : Text → RawEvent → EvmLog → List NormalizedEvent
  unfolding event_of
  parse_swap chain raw log =
      let contract = lower_hex log.address in
      event_of chain raw (pos log.index) swap contract unset contract [] none ∷ []

  -- The user of a deposit or withdrawal: the second topic's address, if there is one.
  abbrev pub user_of : EvmLog → Text
  user_of log = elim log.topics [
    | t0 ∷ t1 ∷ ts ↦ lower_hex (env.bytes_to_address t1)
    | t0 ∷ [] ↦ []
    | [] ↦ []
  ]

  abbrev pub amount_of : EvmLog → Text
  amount_of log =
      if leb 32 (length log.payload) then decimal (set_bytes 0 (take 32 log.payload)) else []

  abbrev pub stake_asset : EvmLog → Option AssetInfo
  stake_asset log = some (record {
    symbol = [];
    contract_address = lower_hex log.address;
    amount = amount_of log;
    decimals = 0;
  })

  unfoldable pub parse_stake : Text → RawEvent → EvmLog → List NormalizedEvent
  unfolding event_of
  parse_stake chain raw log =
      event_of chain raw (pos log.index) stake (user_of log) unset (user_of log)
        (lower_hex log.address) (stake_asset log)
      ∷ []

  unfoldable pub parse_unstake : Text → RawEvent → EvmLog → List NormalizedEvent
  unfolding event_of
  parse_unstake chain raw log =
      event_of chain raw (pos log.index) unstake (user_of log) unset (lower_hex log.address)
        (user_of log) (stake_asset log)
      ∷ []

  -- The switch of parseLog on the first topic.
  unfoldable pub parse_topic : Text → RawEvent → EvmLog → List ℕ → List NormalizedEvent
  unfolding event_of
  parse_topic chain raw log topic =
      if text_eq topic topic_erc20_transfer
      then parse_erc20_transfer chain raw log
      else if text_eq topic topic_uniswap_v2_swap || text_eq topic topic_uniswap_v3_swap
      then parse_swap chain raw log
      else if text_eq topic topic_deposit
      then parse_stake chain raw log
      else if text_eq topic topic_withdraw
      then parse_unstake chain raw log
      else event_of chain raw (pos log.index) contract_call [] unset (lower_hex log.address) [] none
        ∷ []

  unfoldable pub parse_log : Text → RawEvent → Option (List NormalizedEvent)
  parse_log chain raw = elim (env.decode_log raw.payload) [
    | none ↦ none
    | some log ↦ elim log.topics [ [] ↦ some [] | t ∷ ts ↦ some (parse_topic chain raw log t) ]
  ]

  -- EVMParser.Parse, of NewEVMParser(chain).
  unfoldable pub parse : Text → RawEvent → Option (List NormalizedEvent)
  parse chain raw =
      if text_eq raw.type (bytes "tx")
      then parse_tx (to_upper chain) raw
      else if text_eq raw.type (bytes "log")
      then parse_log (to_upper chain) raw
      else some []
