-- ===== src/Parser/Tron/Laws.antt =====
-- What holds of every event that the TRON parser makes.
use address_monitor.Prelude.{
  ◌≡◌, refl, sym, subst, ℕ, ◌+◌, Bool, true, false, none, some, List, [], ◌∷◌, ◌++◌, Text, bytes,
  text_eq, ◌⊎◌, inl, inr, In, if◌then◌else◌, leb, length, Bool-cases, Option-cases,
}
use address_monitor.Prelude.Strings.{trim_prefix}
use address_monitor.Prelude.Int.{ℤ}
use address_monitor.AddrCodec.{tron_normalize}
use address_monitor.Events.{NormalizedEvent, RawEvent, EventType, incoming, outgoing, AssetInfo}
use address_monitor.Parser.Evm.{topic_erc20_transfer}
use address_monitor.Parser.Tron.{
  TronEnv, TronTx, TronContract, TronLog, tron_topic_to_address, tron_event, transfer,
  parse_native_transfer, log_events, parse_logs, parse_contract, parse_success, has_succeeded,
  parse_tron,
}

some_inj : {A : Type 0} {a b : A} → some a ≡ some b → a ≡ b
some_inj h = cc

none-some : (es : List NormalizedEvent) → none ≡ some es → ⊥
none-some es e = cc

module _ (env : TronEnv) where
  -- An event has the place of its raw event, watches the sender if it is outgoing and the receiver
  -- if it is incoming, and watches a normal form of the codec.
  pub record IsTronEvent (source : RawEvent) (e : NormalizedEvent) : Type 0 where
    pub chain : e.chain ≡ bytes "TRON"
    pub tx_hash : e.tx_hash ≡ source.tx_hash
    pub block_number : e.block_number ≡ source.block_num
    pub block_time : e.block_time ≡ source.block_time
    pub raw : e.raw ≡ source.payload
    pub party :
        ((e.direction ≡ outgoing) × (e.watched_address ≡ e.from))
        ⊎ ((e.direction ≡ incoming) × (e.watched_address ≡ e.to))
    pub normal : (x : Text) × (e.watched_address ≡ tron_normalize env.base x)

  record AllTron (source : RawEvent) (es : List NormalizedEvent) : Type 0 where
    each : (e : NormalizedEvent) → In e es → IsTronEvent source e

  none_tron : (raw : RawEvent) → AllTron raw []
  none_tron raw = record { each = λ e i. elim i [ ] }

  AllTron-append :
      (raw : RawEvent) (xs ys : List NormalizedEvent)
      → AllTron raw xs
      → AllTron raw ys
      → AllTron raw (xs ++ ys)
  AllTron-append raw [] ys h k = k
  AllTron-append raw (x ∷ xs) ys h k =
      let rest = AllTron-append raw xs ys (record { each = λ e i. h.each e (inr i) }) k in
      record { each = λ e i. elim i [ inl p ↦ h.each e (inl p) | inr j ↦ rest.each e j ] }

  AllTron-if :
      (b : Bool) (raw : RawEvent) (xs ys : List NormalizedEvent)
      → AllTron raw xs
      → AllTron raw ys
      → AllTron raw (if b then xs else ys)
  AllTron-if true raw xs ys h k = h
  AllTron-if false raw xs ys h k = k

  transfer-AllTron :
      (raw : RawEvent) (i j : ℤ) (t : EventType) (from to x y : Text) (a : AssetInfo)
      → from ≡ tron_normalize env.base x
      → to ≡ tron_normalize env.base y
      → AllTron raw (transfer env raw i j t from to a)
  unfolding transfer tron_event
  transfer-AllTron raw i j t from to x y a p q = record {
    each = λ e k. elim k [
      | inl same ↦ subst (IsTronEvent raw) (sym same) (record {
        chain = refl;
        tx_hash = refl;
        block_number = refl;
        block_time = refl;
        raw = refl;
        party = inl (refl, refl);
        normal = (x, p);
      })
      | inr (inl same) ↦ subst (IsTronEvent raw) (sym same) (record {
        chain = refl;
        tx_hash = refl;
        block_number = refl;
        block_time = refl;
        raw = refl;
        party = inr (refl, refl);
        normal = (y, q);
      })
      | inr (inr none_left) ↦ elim none_left [ ]
    ];
  }

  -- A topic gives a normal form.
  topic_normal :
      (topic : Text)
      → (x : Text) × (tron_topic_to_address env.base topic ≡ tron_normalize env.base x)
  unfolding tron_topic_to_address
  topic_normal topic = if_normal (leb 40 (length (trim_prefix topic (bytes "0x")))) _ _
    where
      if_normal :
          (b : Bool) (s t : Text)
          → (x : Text) × ((if b then tron_normalize env.base s else tron_normalize env.base t)
              ≡ tron_normalize env.base x)
      if_normal true s t = (s, refl)
      if_normal false s t = (t, refl)

  log_events-AllTron :
      (raw : RawEvent) (i : ℕ) (address : Text) (topics : List Text) (payload : Text)
      → AllTron raw (log_events env raw i address topics payload)
  unfolding log_events
  log_events-AllTron raw i address [] payload = none_tron raw
  log_events-AllTron raw i address (t0 ∷ []) payload = none_tron raw
  log_events-AllTron raw i address (t0 ∷ t1 ∷ []) payload = none_tron raw
  log_events-AllTron raw i address (t0 ∷ t1 ∷ t2 ∷ topics) payload =
      let (x, p) = topic_normal t1 in
      let (y, q) = topic_normal t2 in
      AllTron-if (text_eq (env.hex_to_hash (bytes "0x" ++ t0)) topic_erc20_transfer) raw _ []
        (transfer-AllTron raw _ _ _ _ _ x y _ p q) (none_tron raw)

  parse_logs-AllTron :
      (raw : RawEvent) (i : ℕ) (logs : List TronLog) → AllTron raw (parse_logs env raw i logs)
  unfolding parse_logs
  parse_logs-AllTron raw i [] = none_tron raw
  parse_logs-AllTron raw i (log ∷ logs) =
      AllTron-append raw _ _ (log_events-AllTron raw i log.address log.topics log.payload)
        (parse_logs-AllTron raw (i + 1) logs)

  parse_success-AllTron :
      (raw : RawEvent) (tx : TronTx) (cs : List TronContract)
      → AllTron raw (parse_success env raw tx cs)
  unfolding parse_success parse_contract parse_native_transfer
  parse_success-AllTron raw tx [] = none_tron raw
  parse_success-AllTron raw tx (c ∷ cs) =
      AllTron-if (text_eq c.type (bytes "TransferContract")) raw _ _
        (transfer-AllTron raw _ _ _ _ _ c.owner_address c.to_address _ refl refl)
        (AllTron-if (text_eq c.type (bytes "TriggerSmartContract")) raw _ _
          (parse_logs-AllTron raw 0 tx.logs) (none_tron raw))

  parse_tron-some :
      (raw : RawEvent) (tx : TronTx) (es : List NormalizedEvent)
      → env.decode raw.payload ≡ some tx
      → parse_tron env raw ≡ some es
      → (if has_succeeded tx.ret then parse_success env raw tx tx.contracts else []) ≡ es
  unfolding parse_tron
  parse_tron-some raw tx es d h = some_inj (rw (parse_tron, d) at h)

  -- Every event of the TRON parser comes from a transaction that decodes and whose first result is
  -- SUCCESS, carries the hash and the block of its raw event, watches its sender if it is outgoing
  -- and its receiver if it is incoming, and watches a normal form of the codec.
  pub parse_tron-IsTronEvent :
      (raw : RawEvent) (es : List NormalizedEvent) (e : NormalizedEvent)
      → parse_tron env raw ≡ some es
      → In e es
      → IsTronEvent raw e
        × (tx : TronTx) × (env.decode raw.payload ≡ some tx)
        × (has_succeeded tx.ret ≡ true)
  unfolding parse_tron
  parse_tron-IsTronEvent raw es e h i = elim (Option-cases (env.decode raw.payload)) [
    | inl none_decoded ↦ absurd (none-some es (rw (parse_tron, none_decoded) at h))
    | inr (tx, d) ↦
        let same = parse_tron-some raw tx es d h in
        elim (Bool-cases (has_succeeded tx.ret)) [
          | inl ok ↦
              let same' : parse_success env raw tx tx.contracts ≡ es = rw ok at same in
              (
                (subst (AllTron raw) same' (parse_success-AllTron raw tx tx.contracts)).each e i,
                tx,
                d,
                ok,
              )
          | inr bad ↦
              let same' : [] ≡ es = rw bad at same in
              let all = subst (λ l. In e l) (sym same') i in elim all [ ]
        ]
  ]
