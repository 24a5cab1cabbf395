-- ===== src/Parser/Sol.antt =====
-- internal/parser/sol.go. The JSON decoding, with the calls of solana-go that read the accounts of a
-- transaction and print their keys, is a parameter. A 64-bit integer is its bits as a number below
-- 2^64; the balances that are decoded are such numbers. A token balance is taken to have its amount.
pub mod Laws
pub mod Balances
use address_monitor.Prelude.{
  ℕ, zero, suc, ◌+◌, ◌-◌, ◌*◌, ◌%◌, ◌^◌, Bool, true, false, Option, none, some, List, [], ◌∷◌, ◌++◌,
  Text, bytes, text_eq, to_lower, leb, ltb, if◌then◌else◌, ◌==◌, ◌&&◌, is_empty_text,
}
use address_monitor.Prelude.Int.{pos}
use address_monitor.Events.{
  EventType, native_transfer, token_transfer, Direction, incoming, outgoing, AssetInfo,
  NormalizedEvent, RawEvent,
}
use address_monitor.Parser.EventId.{generate_event_id}

-- rpc.TokenBalance; the owner is a pointer that may be nil.
pub record TokenBalance : Type 0 where
  pub account_index : ℕ
  pub mint : Text
  pub owner : Option Text
  pub amount : Text
  pub decimals : ℕ

-- The meta data of a transaction, and its accounts, if there is a transaction that decodes.
pub record SolTx : Type 0 where
  pub accounts : Option (List Text)
  pub pre_balances : List ℕ
  pub post_balances : List ℕ
  pub fee : ℕ
  pub pre_tokens : List TokenBalance
  pub post_tokens : List TokenBalance

-- `decode` answers none for an error, and some none for a result without meta data.
pub record SolEnv : Type 0 where
  pub decode : Text → Option (Option SolTx)
  pub sha256 : Text → List ℕ

-- The simplified uint64ToString: rune('0' + n%10).
unfoldable pub uint64_to_string : ℕ → Text
uint64_to_string n = (48 + n % 10) ∷ []

-- parseUint64: other characters than digits are skipped, and the number wraps round.
unfoldable pub parse_digits : ℕ → Text → ℕ
parse_digits n [] = n
parse_digits n (c ∷ s) =
    parse_digits (if leb 48 c && leb c 57 then (n * 10 + (c - 48)) % 2 ^ 64 else n) s

unfoldable pub parse_uint64 : Text → ℕ
unfolding parse_digits
parse_uint64 s = parse_digits 0 s

-- int64(post) - int64(pre), with the fee added for the payer.
unfoldable pub net_change : ℕ → ℕ → ℕ → ℕ → ℕ
net_change i pre post fee = (post + (2 ^ 64 - pre) + (if i == 0 then fee else 0)) % 2 ^ 64

-- x > 0 for the bits of an int64, and uint64(-x).
unfoldable pub is_positive64 : ℕ → Bool
is_positive64 x = ltb 0 x && ltb x (2 ^ 63)

unfoldable pub negate64 : ℕ → ℕ
negate64 x = (2 ^ 64 - x) % 2 ^ 64

-- The symbol and the decimals of knownTokens.
unfoldable pub known_token : Text → Option (Text × ℕ)
known_token mint =
    if text_eq mint (bytes "EPjFWdd5AufqSSqeM2qN1xzybapC8G4wEGGkZwyTDt1v")
    then some (bytes "USDC", 6)
    else if text_eq mint (bytes "Es9vMFrzaCERmJfrF4H2FYD4KCoNkY11McCe8BenwNYB")
    then some (bytes "USDT", 6)
    else none

-- preMap[index]: the last of the balances with the index.
unfoldable pub pre_balance : ℕ → List TokenBalance → Option TokenBalance
pre_balance index [] = none
pre_balance index (b ∷ bs) = elim (pre_balance index bs) [
  | some c ↦ some c
  | none ↦ if b.account_index == index then some b else none
]

unfoldable pub amount_of : Option TokenBalance → ℕ
unfolding parse_uint64
amount_of none = 0
amount_of (some b) = if is_empty_text b.amount then 0 else parse_uint64 b.amount

abbrev pub asset_of : Text → Text → Option (Text × ℕ) → Text → ℕ → AssetInfo
asset_of symbol mint (some (known, places)) amount decimals = record {
  symbol = known;
  contract_address = mint;
  amount = amount;
  decimals = places;
}
asset_of symbol mint none amount decimals = record {
  symbol = symbol;
  contract_address = mint;
  amount = amount;
  decimals = decimals;
}

-- An error, a panic, or events.
pub data SolResult : Type 0 where
  failed panicked : SolResult
  parsed : List NormalizedEvent → SolResult

module _ (env : SolEnv) where
  unfoldable pub sol_event :
      RawEvent → ℕ → EventType → Text → Direction → AssetInfo → NormalizedEvent
  sol_event raw index type address direction asset = record {
    event_id = generate_event_id env.sha256 (bytes "SOL") raw.tx_hash (pos index);
    chain = bytes "SOL";
    tx_hash = raw.tx_hash;
    block_number = raw.block_num;
    block_time = raw.block_time;
    event_type = type;
    watched_address = address;
    direction = direction;
    from = address;
    to = address;
    asset = some asset;
    raw = raw.payload;
  }

  -- The event of account i, if its balance has changed.
  unfoldable pub native_events : RawEvent → ℕ → Text → ℕ → ℕ → ℕ → List NormalizedEvent
  unfolding sol_event net_change is_positive64 negate64 uint64_to_string
  native_events raw i account pre post fee =
      let net = net_change i pre post fee in
      let positive = is_positive64 net in
      let amount = uint64_to_string (if positive then net else negate64 net) in
      if net == 0
      then []
      else sol_event raw i native_transfer (to_lower account)
          (if positive then incoming else outgoing)
          (record { symbol = bytes "SOL"; contract_address = []; amount = amount; decimals = 9 })
        ∷ []

  -- The loop of parseNativeTransfers, from index i on.
  unfoldable pub native_loop : RawEvent → ℕ → ℕ → List Text → List ℕ → List ℕ → List NormalizedEvent
  unfolding native_events
  native_loop raw fee i [] pre post = []
  native_loop raw fee i (a ∷ as') [] post = []
  native_loop raw fee i (a ∷ as') (b ∷ bs) [] = []
  native_loop raw fee i (a ∷ as') (b ∷ bs) (c ∷ cs) =
      native_events raw i a b c fee ++ native_loop raw fee (i + 1) as' bs cs

  unfoldable pub parse_native_transfers : RawEvent → SolTx → List NormalizedEvent
  unfolding native_loop
  parse_native_transfers raw tx = elim tx.accounts [
    | none ↦ []
    | some accounts ↦ native_loop raw tx.fee 0 accounts tx.pre_balances tx.post_balances
  ]

  -- One round of parseTokenTransfers; none is the panic of a nil owner.
  unfoldable pub token_events :
      RawEvent → ℕ → List TokenBalance → TokenBalance → Option (List NormalizedEvent)
  unfolding sol_event pre_balance known_token uint64_to_string amount_of
  token_events raw i pre b =
      let before = amount_of (pre_balance b.account_index pre) in
      let after = amount_of (some b) in
      let gains = ltb before after in
      let amount = uint64_to_string (if gains then after - before else before - after) in
      if before == after then some [] else elim b.owner [
        | none ↦ none
        | some owner ↦ some (
            sol_event raw (10000 + i) token_transfer (to_lower owner)
              (if gains then incoming else outgoing)
              (asset_of (bytes "UNKNOWN") b.mint (known_token b.mint) amount b.decimals)
            ∷ [])
      ]

  unfoldable pub parse_token_transfers :
      RawEvent → ℕ → List TokenBalance → List TokenBalance → Option (List NormalizedEvent)
  unfolding token_events
  parse_token_transfers raw i pre [] = some []
  parse_token_transfers raw i pre (b ∷ bs) =
      let rest = parse_token_transfers raw (i + 1) pre bs in
      elim (token_events raw i pre b) [
        | none ↦ none
        | some es ↦ elim rest [ none ↦ none | some fs ↦ some (es ++ fs) ]
      ]

  -- Parse behind the decoding.
  unfoldable pub joined : List NormalizedEvent → Option (List NormalizedEvent) → SolResult
  joined native none = panicked
  joined native (some tokens) = parsed (native ++ tokens)

  unfoldable pub parse_decoded : RawEvent → Option (Option SolTx) → SolResult
  unfolding joined parse_native_transfers parse_token_transfers
  parse_decoded raw none = failed
  parse_decoded raw (some none) = parsed []
  parse_decoded raw (some (some tx)) =
      joined (parse_native_transfers raw tx)
        (parse_token_transfers raw 0 tx.pre_tokens tx.post_tokens)

  -- Parse
  unfoldable pub parse_sol : RawEvent → SolResult
  unfolding parse_decoded
  parse_sol raw =
      if text_eq raw.type (bytes "sol_tx")
      then parse_decoded raw (env.decode raw.payload)
      else parsed []
