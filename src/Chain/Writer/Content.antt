-- ===== src/Chain/Writer/Content.antt =====
-- The items that the batch writer has, and what each signal does to them.
use address_monitor.Prelude.{
  ◌≡◌, refl, sym, ap, ◌∙◌, Bool, true, false, List, [], ◌∷◌, ◌++◌, Text, TextMap, lookup-insert,
  length, ltb, leb, is_empty, if◌then◌else◌, select, text_eq, eq_of_text_eq, Bool-cases, inl, inr,
  arith,
}
use mathlib.Core.List.{append_assoc, append-nil}
use address_monitor.Chain.Supervisor.{RawItem, raw_capacity}
use address_monitor.Chain.Writer.{
  BatchInsert, Writer, buffer, max_batch, flush, flush_all, put, take_item, Signal, take_next, step,
  run,
}

-- The items of a chain.
abbrev pub on : Text → List RawItem → List RawItem
on chain items = select (λ i. text_eq i.chain chain) items

-- The items of a chain in the calls of BatchInsert, failed or not.
abbrev pub sent : Text → List BatchInsert → List RawItem
sent chain [] = []
sent chain (b ∷ bs) = (if text_eq b.chain chain then b.items else []) ++ sent chain bs

-- What the channel has taken of a signal.
abbrev pub accepted_of : Signal → Writer → List RawItem
accepted_of (Signal.offers item) w = if ltb (length w.channel) raw_capacity then item ∷ [] else []
accepted_of (Signal.takes fails) w = []
accepted_of (Signal.ticks fails) w = []
accepted_of (Signal.stops fails) w = []

unfoldable pub accepted : List Signal → Writer → List RawItem
accepted [] w = []
accepted (g ∷ gs) w = accepted_of g w ++ accepted gs (step g w)

abbrev handled : Text → Writer → List RawItem
handled chain w = sent chain w.inserts ++ buffer chain w

-- The items of a chain that are in the calls, in the buffer and in the channel, in this order.
abbrev pub content : Text → Writer → List RawItem
content chain w = (sent chain w.inserts ++ buffer chain w) ++ on chain w.channel

sent-append :
    (chain : Text) (xs ys : List BatchInsert)
    → sent chain (xs ++ ys) ≡ sent chain xs ++ sent chain ys
sent-append chain [] ys = refl
sent-append chain (b ∷ bs) ys = rw (sent-append chain bs ys) (
    sym (
      append_assoc (if text_eq b.chain chain then b.items else []) (sent chain bs) (sent chain ys)))

on-append : (chain : Text) (xs ys : List RawItem) → on chain (xs ++ ys) ≡ on chain xs ++ on chain ys
on-append chain [] ys = refl
on-append chain (x ∷ xs) ys = ground (arith, on-append chain xs ys)

handled-flush :
    (fails : Text → Bool) (c chain : Text) (w : Writer)
    → handled chain (flush fails c w) ≡ handled chain w
unfolding flush
handled-flush fails c chain w = elim (Bool-cases (is_empty (buffer c w))) [
  | inl e ↦ rw (flush, e) refl
  | inr e ↦
      rw (flush, e)
        (elim (Bool-cases (text_eq c chain)) [
          | inl same ↦
              rw (sent-append, lookup-insert, same)
                (rw (eq_of_text_eq c chain same) (
                  append-nil _ ∙ ap (λ t. sent chain w.inserts ++ t) (append-nil (buffer chain w))))
          | inr other ↦
              rw (sent-append, lookup-insert, other)
                (ap (λ t. t ++ buffer chain w) (append-nil (sent chain w.inserts)))
        ])
]

handled-flush_all :
    (fails : Text → Bool) (chain : Text) (keys : TextMap (List RawItem)) (w : Writer)
    → handled chain (flush_all fails keys w) ≡ handled chain w
unfolding flush_all
handled-flush_all fails chain [] w = refl
handled-flush_all fails chain ((c, items) ∷ keys) w =
    handled-flush_all fails chain keys (flush fails c w) ∙ handled-flush fails c chain w

handled-put :
    (item : RawItem) (chain : Text) (w : Writer)
    → handled chain (put item w) ≡ handled chain w ++ on chain (item ∷ [])
unfolding put
handled-put item chain w = elim (Bool-cases (text_eq item.chain chain)) [
  | inl same ↦
      rw (put, lookup-insert, same)
        (rw (← eq_of_text_eq item.chain chain same)
          (sym (append_assoc (sent item.chain w.inserts) (buffer item.chain w) (item ∷ []))))
  | inr other ↦ rw (put, lookup-insert, other) (rw append-nil refl)
]

handled-take_item :
    (fails : Text → Bool) (item : RawItem) (chain : Text) (w : Writer)
    → handled chain (take_item fails item w) ≡ handled chain w ++ on chain (item ∷ [])
unfolding take_item
handled-take_item fails item chain w =
    elim (Bool-cases (leb max_batch (length (buffer item.chain (put item w))))) [
      | inl e ↦
          rw (take_item, e)
            (handled-flush fails item.chain chain (put item w) ∙ handled-put item chain w)
      | inr e ↦ rw (take_item, e) (handled-put item chain w)
    ]

channel-flush :
    (fails : Text → Bool) (c : Text) (w : Writer) → (flush fails c w).channel ≡ w.channel
unfolding flush
channel-flush fails c w = ground arith

channel-flush_all :
    (fails : Text → Bool) (keys : TextMap (List RawItem)) (w : Writer)
    → (flush_all fails keys w).channel ≡ w.channel
unfolding flush_all
channel-flush_all fails [] w = refl
channel-flush_all fails ((c, items) ∷ keys) w =
    channel-flush_all fails keys (flush fails c w) ∙ channel-flush fails c w

channel-take_item :
    (fails : Text → Bool) (item : RawItem) (w : Writer)
    → (take_item fails item w).channel ≡ w.channel
unfolding take_item put
channel-take_item fails item w =
    elim (Bool-cases (leb max_batch (length (buffer item.chain (put item w))))) [
      | inl e ↦ rw (take_item, e) (channel-flush fails item.chain (put item w))
      | inr e ↦ rw (take_item, e) refl
    ]

content-take_next :
    (fails : Text → Bool) (chain : Text) (w : Writer) (xs : List RawItem)
    → w.channel ≡ xs
    → content chain (take_next fails xs w) ≡ content chain w
unfolding take_next
content-take_next fails chain w [] e = refl
content-take_next fails chain w (x ∷ xs) e =
    let w' : Writer = record w { channel = xs } in
    rw (handled-take_item fails x chain w', channel-take_item fails x w', e)
      (append_assoc (handled chain w) (on chain (x ∷ [])) (on chain xs)
        ∙ ap (λ t. handled chain w ++ t) (sym (on-append chain (x ∷ []) xs)))

content-flush_all :
    (fails : Text → Bool) (chain : Text) (w : Writer)
    → content chain (flush_all fails w.buffers w) ≡ content chain w
content-flush_all fails chain w =
    rw (handled-flush_all fails chain w.buffers w, channel-flush_all fails w.buffers w) refl

content_either :
    (chain : Text) (b : Bool) (x y : Writer) (c : List RawItem)
    → content chain x ≡ c
    → content chain y ≡ c
    → content chain (if b then x else y) ≡ c
content_either chain true x y c h k = h
content_either chain false x y c h k = k

pub content-step :
    (g : Signal) (chain : Text) (w : Writer)
    → content chain (step g w) ≡ content chain w ++ on chain (accepted_of g w)
unfolding step
content-step (Signal.offers item) chain w =
    elim (Bool-cases (ltb (length w.channel) raw_capacity)) [
      | inl e ↦
          rw (step, e)
            (rw (on-append chain w.channel (item ∷ []))
              (sym (append_assoc (handled chain w) (on chain w.channel) (on chain (item ∷ [])))))
      | inr e ↦ rw (step, e) (sym (append-nil _))
    ]
content-step (Signal.takes fails) chain w =
    content_either chain w.running (take_next fails w.channel w) w (content chain w ++ [])
      (content-take_next fails chain w w.channel refl ∙ sym (append-nil _)) (sym (append-nil _))
content-step (Signal.ticks fails) chain w =
    content_either chain w.running (flush_all fails w.buffers w) w (content chain w ++ [])
      (content-flush_all fails chain w ∙ sym (append-nil _)) (sym (append-nil _))
content-step (Signal.stops fails) chain w =
    content_either chain w.running (record (flush_all fails w.buffers w) { running = false }) w
      (content chain w ++ []) (content-flush_all fails chain w ∙ sym (append-nil _))
      (sym (append-nil _))

pub content-run :
    (gs : List Signal) (chain : Text) (w : Writer)
    → content chain (run gs w) ≡ content chain w ++ on chain (accepted gs w)
unfolding run accepted
content-run [] chain w = sym (append-nil _)
content-run (g ∷ gs) chain w =
    content-run gs chain (step g w)
    ∙ rw (content-step g chain w) (
        append_assoc (content chain w) (on chain (accepted_of g w)) _
        ∙ ap (λ t. content chain w ++ t) (sym (on-append chain (accepted_of g w) _)))
