-- ===== src/Parser/Evm/Laws.antt =====
-- What holds of every event that the EVM parser makes.
use address_monitor.Prelude.{
  ◌≡◌, ◌∙◌, refl, sym, subst, ℕ, Bool, true, false, Option, none, some, List, [], ◌∷◌, Text, bytes,
  text_eq, to_lower, to_upper, ◌⊎◌, inl, inr, In, if◌then◌else◌, ◌||◌, Bool-cases, Option-cases,
  arith,
}
use address_monitor.Prelude.Int.{ℤ, pos}
use address_monitor.AddrCodec.{evm_normalize, normalize, evm}
use address_monitor.AddrCodec.Laws.{normalize_idem}
use address_monitor.Events.{
  NormalizedEvent, RawEvent, EventType, Direction, AssetInfo, contract_call, unset,
}
use address_monitor.Parser.Evm.{
  EvmEnv, EvmTx, EvmLog, event_of, parse_tx, parse_erc20_transfer, parse_swap, parse_stake,
  parse_unstake, parse_topic, parse_log, parse, is_positive, lower_hex, user_of,
  topic_erc20_transfer, topic_uniswap_v2_swap, topic_uniswap_v3_swap, topic_deposit, topic_withdraw,
}

-- No address, or one that the codec would only put in lower case.
abbrev pub IsAddressText : Text → Type 0
IsAddressText s = (s ≡ []) ⊎ (evm_normalize s ≡ to_lower s)

-- No address, or one in the form in which the API stores it.
abbrev pub IsStored : Text → Type 0
IsStored s = (s ≡ []) ⊎ (evm_normalize s ≡ s)

-- An event carries the parser's chain and its raw event's place on it, and watches an address as it is stored.
pub record IsSound (name : Text) (source : RawEvent) (e : NormalizedEvent) : Type 0 where
  pub chain : e.chain ≡ to_upper name
  pub tx_hash : e.tx_hash ≡ source.tx_hash
  pub block_number : e.block_number ≡ source.block_num
  pub block_time : e.block_time ≡ source.block_time
  pub raw : e.raw ≡ source.payload
  pub stored : IsStored e.watched_address

evm_normalize_idem : (s : Text) → evm_normalize (evm_normalize s) ≡ evm_normalize s
unfolding normalize
evm_normalize_idem s =
    normalize_idem (record { decode = λ t. []; check_encode = λ p v. [] }) evm s (λ e. ground arith)

IsStored-to_lower : (s : Text) → IsAddressText s → IsStored (to_lower s)
unfolding to_lower
IsStored-to_lower s (inl e) = inl (rw e refl)
IsStored-to_lower s (inr e) = inr (subst (λ t. evm_normalize t ≡ t) e (evm_normalize_idem s))

record AllSound (name : Text) (source : RawEvent) (es : List NormalizedEvent) : Type 0 where
  each : (e : NormalizedEvent) → In e es → IsSound name source e

nothing : (chain : Text) (raw : RawEvent) → AllSound chain raw []
nothing chain raw = record { each = λ e i. elim i [ ] }

some_eq : (xs ys : List NormalizedEvent) → some xs ≡ some ys → xs ≡ ys
some_eq xs ys p = ground arith

none_is_some : (es : List NormalizedEvent) → none ≡ some es → ⊥
none_is_some es p = ground arith

of_some :
    (chain : Text) (raw : RawEvent) (xs es : List NormalizedEvent)
    → some xs ≡ some es
    → AllSound chain raw xs
    → AllSound chain raw es
of_some chain raw xs es p h = subst (AllSound chain raw) (some_eq xs es p) h

module _ (env : EvmEnv) (hex_is_address : (a : List ℕ) → IsAddressText (env.address_hex a)) where
  IsStored-lower_hex : (a : List ℕ) → IsStored (lower_hex env a)
  IsStored-lower_hex a = IsStored-to_lower (env.address_hex a) (hex_is_address a)

  event_of-IsSound :
      (chain : Text) (raw : RawEvent) (index : ℤ) (type : EventType) (watched : Text)
      (d : Direction) (from to : Text) (asset : Option AssetInfo)
      → IsStored watched
      → IsSound chain raw (event_of env (to_upper chain) raw index type watched d from to asset)
  unfolding event_of
  event_of-IsSound chain raw index type watched d from to asset h = record {
    chain = refl;
    tx_hash = refl;
    block_number = refl;
    block_time = refl;
    raw = refl;
    stored = h;
  }

  one :
      (chain : Text) (raw : RawEvent) (x : NormalizedEvent)
      → IsSound chain raw x
      → AllSound chain raw (x ∷ [])
  one chain raw x h = record {
    each = λ e i. elim i [ inl p ↦ subst (IsSound chain raw) (sym p) h | inr j ↦ elim j [ ] ];
  }

  two :
      (chain : Text) (raw : RawEvent) (x y : NormalizedEvent)
      → IsSound chain raw x
      → IsSound chain raw y
      → AllSound chain raw (x ∷ y ∷ [])
  two chain raw x y h k = record {
    each = λ e i. elim i [
      | inl p ↦ subst (IsSound chain raw) (sym p) h
      | inr j ↦ (one chain raw y k).each e j
    ];
  }

  parse_tx-AllSound :
      (chain : Text) (raw : RawEvent) (tx : EvmTx) (es : List NormalizedEvent)
      → IsAddressText tx.from × IsAddressText tx.to
      → env.decode_tx raw.payload ≡ some tx
      → parse_tx env (to_upper chain) raw ≡ some es
      → AllSound chain raw es
  unfolding parse_tx
  parse_tx-AllSound chain raw tx es h e = elim (Bool-cases (is_positive tx.value)) [
    | inl b ↦
        rw (e, parse_tx, b)
          (λ p. of_some chain raw _ es p (
            two chain raw _ _
              (event_of-IsSound chain raw _ _ _ _ _ _ _ (IsStored-to_lower tx.from h.0))
              (event_of-IsSound chain raw _ _ _ _ _ _ _ (IsStored-to_lower tx.to h.1))))
    | inr b ↦ rw (e, parse_tx, b) (λ p. of_some chain raw _ es p (nothing chain raw))
  ]

  parse_erc20-AllSound :
      (chain : Text) (raw : RawEvent) (log : EvmLog) (ts : List (List ℕ))
      → log.topics ≡ ts
      → AllSound chain raw (parse_erc20_transfer env (to_upper chain) raw log)
  unfolding parse_erc20_transfer
  parse_erc20-AllSound chain raw log [] e = rw (e, parse_erc20_transfer) (nothing chain raw)
  parse_erc20-AllSound chain raw log (t0 ∷ []) e = rw (e, parse_erc20_transfer) (nothing chain raw)
  parse_erc20-AllSound chain raw log (t0 ∷ t1 ∷ []) e =
      rw (e, parse_erc20_transfer) (nothing chain raw)
  parse_erc20-AllSound chain raw log (t0 ∷ t1 ∷ t2 ∷ ts) e =
      rw (e, parse_erc20_transfer)
        (two chain raw _ _
          (event_of-IsSound chain raw _ _ _ _ _ _ _ (IsStored-lower_hex (env.bytes_to_address t1)))
          (event_of-IsSound chain raw _ _ _ _ _ _ _ (IsStored-lower_hex (env.bytes_to_address t2))))

  IsStored-user_of :
      (log : EvmLog) (ts : List (List ℕ)) → log.topics ≡ ts → IsStored (user_of env log)
  IsStored-user_of log [] e = rw e (inl refl)
  IsStored-user_of log (t0 ∷ []) e = rw e (inl refl)
  IsStored-user_of log (t0 ∷ t1 ∷ ts) e = rw e (IsStored-lower_hex (env.bytes_to_address t1))

  AllSound-if :
      (chain : Text) (raw : RawEvent) (c : Bool) (xs ys : List NormalizedEvent)
      → AllSound chain raw xs
      → AllSound chain raw ys
      → AllSound chain raw (if c then xs else ys)
  AllSound-if chain raw true xs ys h k = h
  AllSound-if chain raw false xs ys h k = k

  parse_swap-AllSound :
      (chain : Text) (raw : RawEvent) (log : EvmLog)
      → AllSound chain raw (parse_swap env (to_upper chain) raw log)
  unfolding parse_swap
  parse_swap-AllSound chain raw log =
      one chain raw _ (event_of-IsSound chain raw _ _ _ _ _ _ _ (IsStored-lower_hex log.address))

  parse_stake-AllSound :
      (chain : Text) (raw : RawEvent) (log : EvmLog)
      → AllSound chain raw (parse_stake env (to_upper chain) raw log)
  unfolding parse_stake
  parse_stake-AllSound chain raw log =
      one chain raw _
        (event_of-IsSound chain raw _ _ _ _ _ _ _ (IsStored-user_of log log.topics refl))

  parse_unstake-AllSound :
      (chain : Text) (raw : RawEvent) (log : EvmLog)
      → AllSound chain raw (parse_unstake env (to_upper chain) raw log)
  unfolding parse_unstake
  parse_unstake-AllSound chain raw log =
      one chain raw _
        (event_of-IsSound chain raw _ _ _ _ _ _ _ (IsStored-user_of log log.topics refl))

  parse_topic-AllSound :
      (chain : Text) (raw : RawEvent) (log : EvmLog) (t : List ℕ)
      → AllSound chain raw (parse_topic env (to_upper chain) raw log t)
  unfolding parse_topic
  parse_topic-AllSound chain raw log t =
      AllSound-if chain raw (text_eq t topic_erc20_transfer) _ _
        (parse_erc20-AllSound chain raw log log.topics refl)
        (AllSound-if chain raw (text_eq t topic_uniswap_v2_swap || text_eq t topic_uniswap_v3_swap)
          _ _ (parse_swap-AllSound chain raw log)
          (AllSound-if chain raw (text_eq t topic_deposit) _ _ (parse_stake-AllSound chain raw log)
            (AllSound-if chain raw (text_eq t topic_withdraw) _ _
              (parse_unstake-AllSound chain raw log)
              (one chain raw _ (
                event_of-IsSound chain raw (pos log.index) contract_call [] unset
                  (lower_hex env log.address) [] none (inl refl))))))

  parse_log-AllSound :
      (chain : Text) (raw : RawEvent) (log : EvmLog) (ts : List (List ℕ))
      (es : List NormalizedEvent)
      → log.topics ≡ ts
      → env.decode_log raw.payload ≡ some log
      → parse_log env (to_upper chain) raw ≡ some es
      → AllSound chain raw es
  unfolding parse_log
  parse_log-AllSound chain raw log [] es t e =
      rw (e, parse_log, t) (λ p. of_some chain raw _ es p (nothing chain raw))
  parse_log-AllSound chain raw log (t0 ∷ ts) es t e =
      rw (e, parse_log, t) (λ p. of_some chain raw _ es p (parse_topic-AllSound chain raw log t0))

  -- A decoding that fails is an error.
  not_failed :
      (chain : Text) (raw : RawEvent) (es : List NormalizedEvent)
      → ((env.decode_tx raw.payload ≡ none) → parse_tx env (to_upper chain) raw ≡ none)
        × ((env.decode_log raw.payload ≡ none) → parse_log env (to_upper chain) raw ≡ none)
  unfolding parse_tx parse_log
  not_failed chain raw es = (λ e. rw (e, parse_tx) refl, λ e. rw (e, parse_log) refl)

  parse-AllSound :
      (chain : Text) (raw : RawEvent) (es : List NormalizedEvent)
      → ((tx : EvmTx)
          → env.decode_tx raw.payload ≡ some tx
          → IsAddressText tx.from × IsAddressText tx.to)
      → (parse_tx env (to_upper chain) raw ≡ some es → AllSound chain raw es)
        × (parse_log env (to_upper chain) raw ≡ some es → AllSound chain raw es)
  parse-AllSound chain raw es h = (
    λ p. elim (Option-cases (env.decode_tx raw.payload)) [
      | inl e ↦ absurd (none_is_some es (sym ((not_failed chain raw es).0 e) ∙ p))
      | inr (tx, e) ↦ parse_tx-AllSound chain raw tx es (h tx e) e p
    ],
    λ p. elim (Option-cases (env.decode_log raw.payload)) [
      | inl e ↦ absurd (none_is_some es (sym ((not_failed chain raw es).1 e) ∙ p))
      | inr (log, e) ↦ parse_log-AllSound chain raw log log.topics es refl e p
    ],
  )

  -- Every event that the EVM parser makes carries the chain of the parser in upper case, and the
  -- hash, block, time and data of its raw event, and watches either no address or one in the form in which the API stores addresses; where
  -- Address.Hex, and the sender and recipient of a decoded transaction, are texts that the codec
  -- only puts in lower case, or are empty.
  pub parse-IsSound :
      (chain : Text) (raw : RawEvent) (es : List NormalizedEvent) (e : NormalizedEvent)
      → ((tx : EvmTx)
          → env.decode_tx raw.payload ≡ some tx
          → IsAddressText tx.from × IsAddressText tx.to)
      → parse env chain raw ≡ some es
      → In e es
      → IsSound chain raw e
  unfolding parse
  parse-IsSound chain raw es e h = elim (Bool-cases (text_eq raw.type (bytes "tx"))) [
    | inl x ↦ rw x (λ p i. ((parse-AllSound chain raw es h).0 p).each e i)
    | inr x ↦ elim (Bool-cases (text_eq raw.type (bytes "log"))) [
      | inl y ↦ rw (x, y) (λ p i. ((parse-AllSound chain raw es h).1 p).each e i)
      | inr y ↦ rw (x, y) (λ p i. (of_some chain raw [] es p (nothing chain raw)).each e i)
    ]
  ]
