-- ===== src/Events.antt =====
-- internal/parser/schema.go and internal/chain/listener.go: raw and normalized events. A JSON
-- document is kept as the value that it encodes, and the SHA-256 of an event key as a parameter.
use address_monitor.Prelude.{ℕ, Text, Option}
use address_monitor.Prelude.Int.{ℤ}

pub data EventType : Type 0 where
  native_transfer token_transfer swap stake unstake contract_call reorg : EventType

-- "IN", "OUT" or the empty string.
pub data Direction : Type 0 where
  incoming outgoing unset : Direction

pub record AssetInfo : Type 0 where
  pub symbol : Text
  pub contract_address : Text
  pub amount : Text
  pub decimals : ℕ

pub record NormalizedEvent : Type 0 where
  pub event_id : Text
  pub chain : Text
  pub tx_hash : Text
  pub block_number : ℕ
  pub block_time : ℤ
  pub event_type : EventType
  pub watched_address : Text
  pub direction : Direction
  pub from : Text
  pub to : Text
  pub asset : Option AssetInfo
  pub raw : Text

-- RawEvent: what a listener reads from a chain. `type` is "tx", "log" or "sol_tx".
pub record RawEvent : Type 0 where
  pub chain : Text
  pub tx_hash : Text
  pub block_num : ℕ
  pub block_time : ℤ
  pub type : Text
  pub payload : Text
