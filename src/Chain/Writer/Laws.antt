-- ===== src/Chain/Writer/Laws.antt =====
-- The batch writer loses no item and keeps the order of each chain.
use address_monitor.Prelude.{
  ◌≡◌, refl, sym, ap, ◌∙◌, Bool, true, false, Option, some, List, [], ◌∷◌, ◌++◌, Text, TextMap,
  lookup, lookup-insert, is_empty, if◌then◌else◌, text_eq, eq_of_text_eq, Bool-cases, inl, inr,
}
use mathlib.Core.List.{append-nil}
use address_monitor.Chain.Supervisor.{RawItem}
use address_monitor.Chain.Writer.{Writer, buffered, buffer, flush, flush_all, Signal, step, run}
use address_monitor.Chain.Writer.Content.{on, sent, accepted, content, content-step, content-run}

empty_of : (xs : List RawItem) → is_empty xs ≡ true → xs ≡ []
empty_of [] h = refl
empty_of (x ∷ xs) h = cc

buffered_if :
    (b : Bool) (o : Option (List RawItem))
    → buffered (if b then some [] else o) ≡ (if b then [] else buffered o)
buffered_if true o = refl
buffered_if false o = refl

if_same : (b : Bool) (xs : List RawItem) → (if b then xs else xs) ≡ xs
if_same true xs = refl
if_same false xs = refl

buffer-flush :
    (fails : Text → Bool) (c chain : Text) (w : Writer)
    → buffer chain (flush fails c w) ≡ (if text_eq c chain then [] else buffer chain w)
unfolding flush
buffer-flush fails c chain w = elim (Bool-cases (is_empty (buffer c w))) [
  | inl e ↦
      rw (flush, e)
        (elim (Bool-cases (text_eq c chain)) [
          | inl same ↦ rw same (rw (← eq_of_text_eq c chain same) (empty_of (buffer c w) e))
          | inr other ↦ rw other refl
        ])
  | inr e ↦
      rw (flush, e) (rw (lookup-insert c chain [] w.buffers) (buffered_if (text_eq c chain) _))
]

buffer-flush_all_empty :
    (fails : Text → Bool) (chain : Text) (keys : TextMap (List RawItem)) (w : Writer)
    → buffer chain w ≡ []
    → buffer chain (flush_all fails keys w) ≡ []
unfolding flush_all
buffer-flush_all_empty fails chain [] w h = h
buffer-flush_all_empty fails chain ((c, items) ∷ keys) w h =
    buffer-flush_all_empty fails chain keys (flush fails c w)
      (buffer-flush fails c chain w ∙ rw h (if_same (text_eq c chain) []))

buffer-flush_all :
    (fails : Text → Bool) (chain : Text) (keys : TextMap (List RawItem)) (w : Writer)
    → (buffered (lookup chain keys) ≡ [] → buffer chain w ≡ [])
    → buffer chain (flush_all fails keys w) ≡ []
unfolding flush_all lookup
buffer-flush_all fails chain [] w h = h refl
buffer-flush_all fails chain ((c, items) ∷ keys) w h = elim (Bool-cases (text_eq c chain)) [
  | inl e ↦
      buffer-flush_all_empty fails chain keys (flush fails c w)
        (buffer-flush fails c chain w ∙ rw e refl)
  | inr e ↦
      buffer-flush_all fails chain keys (flush fails c w)
        (λ k. buffer-flush fails c chain w ∙ rw e (h (rw e k)))
]

buffer_running :
    (chain : Text) (b : Bool) (x y : Writer)
    → b ≡ true
    → buffer chain x ≡ []
    → buffer chain (if b then x else y) ≡ []
buffer_running chain true x y r h = h
buffer_running chain false x y r h = cc

stopped_buffer :
    (fails : Text → Bool) (chain : Text) (w : Writer)
    → w.running ≡ true
    → buffer chain (step (Signal.stops fails) w) ≡ []
unfolding step
stopped_buffer fails chain w r =
    buffer_running chain w.running (record (flush_all fails w.buffers w) { running = false }) w r
      (buffer-flush_all fails chain w.buffers w (λ k. k))

-- Over any signals, and for each chain: the items in the calls of BatchInsert, then those in its
-- buffer, then those in the channel are what was there before and then the items that the channel
-- has accepted, in their order, none lost and none twice; and if the context is done then, for a
-- writer that runs, the same items are in the calls and in the channel.
pub run_keeps_items :
    (gs : List Signal) (fails : Text → Bool) (chain : Text) (w : Writer)
    → (run gs w).running ≡ true
    → (content chain (run gs w) ≡ content chain w ++ on chain (accepted gs w))
      × (sent chain (step (Signal.stops fails) (run gs w)).inserts
            ++ on chain (step (Signal.stops fails) (run gs w)).channel
          ≡ content chain w ++ on chain (accepted gs w))
run_keeps_items gs fails chain w r =
    let s = run gs w in
    let keeps = content-step (Signal.stops fails) chain s ∙ append-nil _ ∙ content-run gs chain w in
    (
      content-run gs chain w,
      ap (λ t. t ++ on chain (step (Signal.stops fails) s).channel)
            (sym (rw (stopped_buffer fails chain s r) (append-nil _)))
          ∙ keeps,
    )
