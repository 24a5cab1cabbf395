-- ===== src/Chain/Writer.antt =====
-- internal/chain/supervisor.go: runRawEventBatchWriter, which takes the raw events from their channel
-- and stores them in batches, a buffer for each chain. The loops over the buffers visit them in the
-- order of the association list; the code's order is any. Each call of BatchInsert is kept with its
-- table, its items and whether it failed.
pub mod Content
pub mod Laws
pub mod Bounds
use address_monitor.Prelude.{
  ℕ, Bool, true, false, Option, none, some, List, [], ◌∷◌, ◌++◌, Text, TextMap, lookup, insert,
  length, ltb, leb, is_empty, if◌then◌else◌,
}
use address_monitor.Store.RawEvents.{table_name_for_chain}
use address_monitor.Chain.Supervisor.{RawItem, offer}

pub record BatchInsert : Type 0 where
  pub chain : Text
  pub table : Text
  pub items : List RawItem
  pub failed : Bool

pub record Writer : Type 0 where
  pub channel : List RawItem
  pub buffers : TextMap (List RawItem)
  pub inserts : List BatchInsert
  pub running : Bool

abbrev pub max_batch : ℕ
max_batch = 100

abbrev pub buffered : Option (List RawItem) → List RawItem
buffered none = []
buffered (some items) = items

abbrev pub buffer : Text → Writer → List RawItem
buffer chain w = buffered (lookup chain w.buffers)

-- The closure flush; `fails` is the error of BatchInsert.
unfoldable pub flush : (Text → Bool) → Text → Writer → Writer
unfolding table_name_for_chain
flush fails chain w = if is_empty (buffer chain w) then w else record w {
  buffers = insert chain [] w.buffers;
  inserts =
      w.inserts
      ++ record {
        chain = chain;
        table = table_name_for_chain chain;
        items = buffer chain w;
        failed = fails chain;
      }
        ∷ [];
}

-- for chain := range buffers
unfoldable pub flush_all : (Text → Bool) → TextMap (List RawItem) → Writer → Writer
unfolding flush
flush_all fails [] w = w
flush_all fails ((chain, items) ∷ rest) w = flush_all fails rest (flush fails chain w)

unfoldable pub put : RawItem → Writer → Writer
put item w = record w { buffers = insert item.chain (buffer item.chain w ++ item ∷ []) w.buffers }

-- The case of an item.
unfoldable pub take_item : (Text → Bool) → RawItem → Writer → Writer
unfolding flush put
take_item fails item w =
    let w' = put item w in
    if leb max_batch (length (buffer item.chain w')) then flush fails item.chain w' else w'

-- A handler offers an item to the channel, or one of the three cases of the select happens.
pub data Signal : Type 0 where
  offers : RawItem → Signal
  takes ticks stops : (Text → Bool) → Signal

unfoldable pub take_next : (Text → Bool) → List RawItem → Writer → Writer
unfolding take_item
take_next fails [] w = w
take_next fails (item ∷ rest) w = take_item fails item (record w { channel = rest })

unfoldable pub step : Signal → Writer → Writer
unfolding take_next flush_all
step (Signal.offers item) w = record w { channel = offer item w.channel }
step (Signal.takes fails) w = if w.running then take_next fails w.channel w else w
step (Signal.ticks fails) w = if w.running then flush_all fails w.buffers w else w
step (Signal.stops fails) w =
    if w.running then record (flush_all fails w.buffers w) { running = false } else w

unfoldable pub run : List Signal → Writer → Writer
run [] w = w
run (g ∷ gs) w = run gs (step g w)
