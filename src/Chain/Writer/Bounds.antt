-- ===== src/Chain/Writer/Bounds.antt =====
-- The batch writer keeps its buffers below a batch and its batches between 1 and 100 items.
use address_monitor.Prelude.{
  ◌≡◌, ◌≤◌, ◌<◌, refl, Bool, true, false, List, [], ◌∷◌, ◌++◌, ◌||◌, Text, TextMap, lookup, insert,
  lookup-insert_self, length, length-append, ltb, leb, is_empty, if◌then◌else◌, any, any-append,
  text_eq, text_eq_self, Bool-cases, inl, inr, arith,
}
use address_monitor.Store.RawEvents.{table_name_for_chain}
use address_monitor.Chain.Supervisor.{RawItem}
use address_monitor.Chain.Writer.{
  Writer, buffered, buffer, max_batch, flush, flush_all, put, take_item, Signal, take_next, step,
  run,
}

-- The lengths that the writer keeps to: no buffer is full, and no call is empty or above 100.
pub record IsBounded (w : Writer) : Type 0 where
  pub buffers : any (λ e. leb max_batch (length e.1)) w.buffers ≡ false
  pub inserts : any (λ b. is_empty b.items || ltb max_batch (length b.items)) w.inserts ≡ false

lookup_bounded :
    (chain : Text) (m : TextMap (List RawItem))
    → any (λ e. leb max_batch (length e.1)) m ≡ false
    → length (buffered (lookup chain m)) < 100
unfolding lookup
lookup_bounded chain [] h = omega arith
lookup_bounded chain ((k, v) ∷ m) h = ground (arith, lookup_bounded chain m)

insert_bounded :
    (chain : Text) (v : List RawItem) (m : TextMap (List RawItem))
    → length v < 100
    → any (λ e. leb max_batch (length e.1)) m ≡ false
    → any (λ e. leb max_batch (length e.1)) (insert chain v m) ≡ false
unfolding insert
insert_bounded chain v [] lt h = ground arith
insert_bounded chain v ((k, u) ∷ m) lt h = ground (arith, insert_bounded chain v m)

insert-insert :
    (chain : Text) (u v : List RawItem) (m : TextMap (List RawItem))
    → insert chain v (insert chain u m) ≡ insert chain v m
unfolding insert
insert-insert chain u v [] = rw (text_eq_self chain) refl
insert-insert chain u v ((k, t) ∷ m) = elim (Bool-cases (text_eq k chain)) [
  | inl e ↦ rw (insert, e) (rw (text_eq_self chain) refl)
  | inr e ↦ rw (insert, e) (rw (insert, e) (rw (insert-insert chain u v m) refl))
]

-- Emptying a buffer of 1 to 100 items, whatever it was put into.
flush-IsBounded :
    (fails : Text → Bool) (c : Text) (w w' : Writer)
    → IsBounded w
    → w'.inserts ≡ w.inserts
    → insert c [] w'.buffers ≡ insert c [] w.buffers
    → length (buffer c w') ≤ 100
    → is_empty (buffer c w') ≡ false
    → IsBounded (flush fails c w')
unfolding flush
flush-IsBounded fails c w w' b same_inserts same_buffers le filled = record {
  buffers =
      rw (flush, filled) (rw same_buffers (insert_bounded c [] w.buffers (omega arith) b.buffers));
  inserts =
      rw (flush, filled)
        (rw same_inserts (
          ground (
            arith,
            b.inserts,
            filled,
            le,
            any-append (λ b. is_empty b.items || ltb max_batch (length b.items)) w.inserts
                (record {
                  chain = c;
                  table = table_name_for_chain c;
                  items = buffer c w';
                  failed = fails c;
                }
                  ∷ []),
          )));
}

flush_own-IsBounded :
    (fails : Text → Bool) (c : Text) (w : Writer) → IsBounded w → IsBounded (flush fails c w)
unfolding flush
flush_own-IsBounded fails c w b = elim (Bool-cases (is_empty (buffer c w))) [
  | inl e ↦ rw (flush, e) b
  | inr e ↦
      flush-IsBounded fails c w w b refl refl (omega (arith, lookup_bounded c w.buffers b.buffers))
        e
]

flush_all-IsBounded :
    (fails : Text → Bool) (keys : TextMap (List RawItem)) (w : Writer)
    → IsBounded w
    → IsBounded (flush_all fails keys w)
unfolding flush_all
flush_all-IsBounded fails [] w b = b
flush_all-IsBounded fails ((c, items) ∷ keys) w b =
    flush_all-IsBounded fails keys (flush fails c w) (flush_own-IsBounded fails c w b)

buffer-put :
    (item : RawItem) (w : Writer)
    → buffer item.chain (put item w) ≡ buffer item.chain w ++ item ∷ []
unfolding put
buffer-put item w =
    rw (lookup-insert_self item.chain (buffer item.chain w ++ item ∷ []) w.buffers) refl

is_empty-snoc : (xs : List RawItem) (x : RawItem) → is_empty (xs ++ x ∷ []) ≡ false
is_empty-snoc [] x = refl
is_empty-snoc (y ∷ ys) x = refl

put-IsBounded :
    (item : RawItem) (w : Writer)
    → IsBounded w
    → length (buffer item.chain w ++ item ∷ []) < 100
    → IsBounded (put item w)
unfolding put
put-IsBounded item w b lt = record {
  buffers = insert_bounded item.chain (buffer item.chain w ++ item ∷ []) w.buffers lt b.buffers;
  inserts = b.inserts;
}

take_item-IsBounded :
    (fails : Text → Bool) (item : RawItem) (w : Writer)
    → IsBounded w
    → IsBounded (take_item fails item w)
unfolding take_item put
take_item-IsBounded fails item w b =
    let n = lookup_bounded item.chain w.buffers b.buffers in
    let items = buffer item.chain w ++ item ∷ [] in
    let size = length-append (buffer item.chain w) (item ∷ []) in
    elim (Bool-cases (leb max_batch (length (buffer item.chain (put item w))))) [
      | inl e ↦
          rw (take_item, e)
            (flush-IsBounded fails item.chain w (put item w) b refl
              (insert-insert item.chain items [] w.buffers)
              (rw (buffer-put item w) (omega (arith, n, size)))
              (rw (buffer-put item w) (is_empty-snoc (buffer item.chain w) item)))
      | inr e ↦ rw (take_item, e) (put-IsBounded item w b (ground (arith, buffer-put item w, e)))
    ]

either-IsBounded :
    (b : Bool) (x y : Writer) → IsBounded x → IsBounded y → IsBounded (if b then x else y)
either-IsBounded true x y h k = h
either-IsBounded false x y h k = k

step-IsBounded : (g : Signal) (w : Writer) → IsBounded w → IsBounded (step g w)
unfolding step take_next
step-IsBounded (Signal.offers item) w b = record { buffers = b.buffers; inserts = b.inserts }
step-IsBounded (Signal.takes fails) w b =
    either-IsBounded w.running (take_next fails w.channel w) w (taken w.channel) b
  where
    taken : (xs : List RawItem) → IsBounded (take_next fails xs w)
    taken [] = b
    taken (x ∷ xs) =
        take_item-IsBounded fails x (record w { channel = xs })
          (record { buffers = b.buffers; inserts = b.inserts })
step-IsBounded (Signal.ticks fails) w b =
    either-IsBounded w.running (flush_all fails w.buffers w) w
      (flush_all-IsBounded fails w.buffers w b) b
step-IsBounded (Signal.stops fails) w b =
    let all = flush_all-IsBounded fails w.buffers w b in
    either-IsBounded w.running (record (flush_all fails w.buffers w) { running = false }) w
      (record { buffers = all.buffers; inserts = all.inserts }) b

-- Over any signals no buffer has 100 items, and every call of BatchInsert has between 1 and 100.
pub run-IsBounded : (gs : List Signal) (w : Writer) → IsBounded w → IsBounded (run gs w)
unfolding run
run-IsBounded [] w b = b
run-IsBounded (g ∷ gs) w b = run-IsBounded gs (step g w) (step-IsBounded g w b)
