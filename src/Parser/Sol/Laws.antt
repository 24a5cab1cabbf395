-- ===== src/Parser/Sol/Laws.antt =====
-- What holds of every event that the SOL parser makes, and why none is matched.
use address_monitor.Prelude.{◌≡◌, Option, some, List, bytes, to_lower, length, In}
use address_monitor.Events.{NormalizedEvent, RawEvent, AssetInfo}
use address_monitor.Parser.Sol.{SolResult, parsed}

-- An event has the place of its raw event, watches an address in lower case, and has an amount of
-- one character.
pub record IsSolEvent (source : RawEvent) (e : NormalizedEvent) : Type 0 where
  pub chain : e.chain ≡ bytes "SOL"
  pub tx_hash : e.tx_hash ≡ source.tx_hash
  pub block_number : e.block_number ≡ source.block_num
  pub block_time : e.block_time ≡ source.block_time
  pub raw : e.raw ≡ source.payload
  pub lowered : to_lower e.watched_address ≡ e.watched_address
  pub amount : (a : AssetInfo) × (e.asset ≡ some a) × (length a.amount ≡ 1)

record AllSol (source : RawEvent) (es : List NormalizedEvent) : Type 0 where
  each : (e : NormalizedEvent) → In e es → IsSolEvent source e

record SomeSol (source : RawEvent) (o : Option (List NormalizedEvent)) : Type 0 where
  holds : (es : List NormalizedEvent) → o ≡ some es → AllSol source es

record ResultSol (source : RawEvent) (r : SolResult) : Type 0 where
  holds : (es : List NormalizedEvent) → r ≡ parsed es → AllSol source es
