-- ===== src/Chain/Supervisor/Only.antt =====
-- Laws of handle_raw_event: why an event was published.
use address_monitor.Prelude.{
  ◌≡◌, ◌∙◌, refl, sym, subst, Bool, true, false, Option, some, List, [], ◌∷◌, ◌++◌, ◌⊎◌, inl, inr,
  In, if◌then◌else◌, Bool-cases, arith, is_empty,
}
use address_monitor.Events.{NormalizedEvent, RawEvent}
use address_monitor.Store.WatchedAddresses.{WatchedAddress, AddressTable, list_by_chain_address}
use address_monitor.Chain.ContractFilter.{ContractFilter, is_allowed}
use address_monitor.Dispatcher.Expander.{contract_of}
use address_monitor.Matcher.Defs.{Bloom, Filters, Watched, found, failed, is_watched, tests}
use address_monitor.Matcher.Laws.{is_watched_lem}
use address_monitor.Chain.Supervisor.{
  SupervisorEnv, Pipeline, complete, publish_matched, after_match, match_event, match_events,
  handle_raw_event,
}
use address_monitor.Chain.Supervisor.Laws.{complete_same}

In_of_append_one :
    (x e : NormalizedEvent) (xs : List NormalizedEvent) → In x (xs ++ e ∷ []) → In x xs ⊎ (x ≡ e)
In_of_append_one x e [] i = ground (arith, i)
In_of_append_one x e (y ∷ ys) (inl p) = inl (inl p)
In_of_append_one x e (y ∷ ys) (inr i) = elim (In_of_append_one x e ys i) [
  | inl j ↦ inl (inr j)
  | inr p ↦ inr p
]

found_rows :
    (known fails : Bool) (rows rows' : List WatchedAddress)
    → (if known then (if fails then failed else found rows) else found []) ≡ found rows'
    → is_empty rows' ≡ false
    → is_empty rows ≡ false
found_rows known fails rows rows' e ne = ground arith

module _ (b : Bloom) (env : SupervisorEnv) (f : ContractFilter) (bfs : Filters b)
    (t : AddressTable) where
  rows_found :
      (e : NormalizedEvent) (rows : List WatchedAddress)
      → (is_watched b env.same
          (env.list_fails e)
          (env.hot_hit e)
          (complete f e).chain
          (complete f e).watched_address
          bfs
          t).0
        ≡ found rows
      → is_empty rows ≡ false
      → is_empty (list_by_chain_address env.same e.chain e.watched_address t) ≡ false
  rows_found e rows w ne =
      let (chain, address) = complete_same f e in
      let h =
        found_rows (tests b bfs (complete f e).chain (complete f e).watched_address)
          (env.list_fails e) _ rows
          (sym (is_watched_lem b env.same (env.list_fails e) (env.hot_hit e) _ _ bfs t) ∙ w) ne in
      subst (λ c. is_empty (list_by_chain_address env.same c e.watched_address t) ≡ false) chain
        (subst (λ a. is_empty (list_by_chain_address env.same (complete f e).chain a t) ≡ false)
          address h)

  publish_matched_only :
      (raw : RawEvent) (e x : NormalizedEvent) (s : Pipeline)
      → In x (publish_matched b env f bfs t raw e s).published
      → In x s.published ⊎ (x ≡ e)
  unfolding publish_matched
  publish_matched_only raw e x s = elim (Bool-cases (env.publish_fails e)) [
    | inl h ↦ rw h (λ i. inl i)
    | inr h ↦ rw h (λ i. In_of_append_one x e s.published i)
  ]

  after_match_only :
      (raw : RawEvent) (e x : NormalizedEvent) (w : Watched × Bool) (s : Pipeline)
      → In x (after_match b env f bfs t raw e w s).published
      → In x s.published
        ⊎ ((x ≡ e) × (rows : List WatchedAddress) × (w.0 ≡ found rows) × (is_empty rows ≡ false))
  after_match_only raw e x (failed, hot) s i = inl i
  after_match_only raw e x (found [], hot) s i = inl i
  after_match_only raw e x (found (wa ∷ was), true) s i = elim (publish_matched_only raw e x _ i) [
    | inl j ↦ inl j
    | inr p ↦ inr (p, wa ∷ was, refl, refl)
  ]
  after_match_only raw e x (found (wa ∷ was), false) s i = elim (publish_matched_only raw e x s i) [
    | inl j ↦ inl j
    | inr p ↦ inr (p, wa ∷ was, refl, refl)
  ]

  -- Why an event was published.
  pub record IsWanted (es : List NormalizedEvent) (x : NormalizedEvent) : Type 0 where
    pub event : NormalizedEvent
    pub parsed : In event es
    pub completed : x ≡ complete f event
    pub allowed : is_allowed env.base f event.chain (contract_of event) ≡ true
    pub watched :
        is_empty (list_by_chain_address env.same event.chain event.watched_address t) ≡ false

  match_event_only :
      (raw : RawEvent) (e x : NormalizedEvent) (s : Pipeline)
      → In x (match_event b env f bfs t raw e s).published
      → In x s.published ⊎ IsWanted (e ∷ []) x
  unfolding match_event
  match_event_only raw e x s = elim (Bool-cases (is_allowed env.base f e.chain (contract_of e))) [
    | inl h ↦ rw h (λ i. elim (after_match_only raw (complete f e) x _ s i) [
      | inl j ↦ inl j
      | inr (p, rows, w, ne) ↦ inr (record {
        event = e;
        parsed = inl refl;
        completed = p;
        allowed = h;
        watched = rows_found e rows w ne;
      })
    ])
    | inr h ↦ rw h (λ i. inl i)
  ]

  IsWanted-more :
      (es : List NormalizedEvent) (e x : NormalizedEvent) → IsWanted es x → IsWanted (e ∷ es) x
  IsWanted-more es e x w = record {
    event = w.event;
    parsed = inr w.parsed;
    completed = w.completed;
    allowed = w.allowed;
    watched = w.watched;
  }

  IsWanted-first :
      (es : List NormalizedEvent) (e x : NormalizedEvent)
      → IsWanted (e ∷ []) x
      → IsWanted (e ∷ es) x
  IsWanted-first es e x w = record {
    event = w.event;
    parsed = elim w.parsed [ inl p ↦ inl p | inr i ↦ elim i [ ] ];
    completed = w.completed;
    allowed = w.allowed;
    watched = w.watched;
  }

  match_events_only :
      (raw : RawEvent) (es : List NormalizedEvent) (x : NormalizedEvent) (s : Pipeline)
      → In x (match_events b env f bfs t raw es s).published
      → In x s.published ⊎ IsWanted es x
  unfolding match_events
  match_events_only raw [] x s i = inl i
  match_events_only raw (e ∷ es) x s i = elim (match_events_only raw es x _ i) [
    | inl j ↦ elim (match_event_only raw e x s j) [
      | inl k ↦ inl k
      | inr w ↦ inr (IsWanted-first es e x w)
    ]
    | inr w ↦ inr (IsWanted-more es e x w)
  ]

  -- Every event that handleRawEvent publishes is the completed form of one that the chain's parser
  -- made of the raw event, passes the contract whitelist, and has an enabled row in the table for
  -- its chain and address.
  pub handle_raw_event_only :
      (raw : RawEvent) (parse : RawEvent → Option (List NormalizedEvent))
      (es : List NormalizedEvent) (x : NormalizedEvent) (s : Pipeline)
      → env.parsers raw.chain ≡ some parse
      → parse raw ≡ some es
      → In x (handle_raw_event b env f bfs t raw s).published
      → In x s.published ⊎ IsWanted es x
  unfolding handle_raw_event
  handle_raw_event_only raw parse es x s p q =
      rw (p, handle_raw_event, q) (λ i. match_events_only raw es x s i)
