-- ===== src/Chain/Supervisor/Laws.antt =====
-- Laws of handle_raw_event: which events have to be published.
use address_monitor.Prelude.{
  ◌≡◌, ◌∙◌, refl, sym, subst, Bool, true, false, Option, some, List, [], ◌∷◌, Text, inl, inr, In,
  In-append_left, In-append_right, Bool-cases, Option-cases,
}
use address_monitor.Events.{NormalizedEvent, RawEvent}
use address_monitor.Store.WatchedAddresses.{WatchedAddress, AddressTable}
use address_monitor.Chain.ContractFilter.{ContractFilter, is_allowed}
use address_monitor.Dispatcher.Expander.{contract_of}
use address_monitor.Matcher.Defs.{Bloom, Filters, Watched, found, failed, is_watched, is_known}
use address_monitor.Matcher.Filters.{Covers}
use address_monitor.Matcher.Laws.{is_watched_complete}
use address_monitor.Chain.Supervisor.{
  SupervisorEnv, Pipeline, complete, publish_matched, after_match, match_event, match_events,
  handle_raw_event,
}

-- The completed event has the chain and the address of the event.
pub complete_same :
    (f : ContractFilter) (e : NormalizedEvent)
    → ((complete f e).chain ≡ e.chain) × ((complete f e).watched_address ≡ e.watched_address)
unfolding complete
complete_same f e = elim (Option-cases e.asset) [
  | inl h ↦ rw (h, complete) (refl, refl)
  | inr (a, h) ↦ rw (h, complete) (refl, refl)
]

module _ (b : Bloom) (env : SupervisorEnv) (f : ContractFilter) (bfs : Filters b)
    (t : AddressTable) where
  publish_matched_kept :
      (raw : RawEvent) (e x : NormalizedEvent) (s : Pipeline)
      → In x s.published
      → In x (publish_matched b env f bfs t raw e s).published
  unfolding publish_matched
  publish_matched_kept raw e x s i = elim (Bool-cases (env.publish_fails e)) [
    | inl h ↦ rw h i
    | inr h ↦ rw h (In-append_left x s.published _ i)
  ]

  publish_matched_new :
      (raw : RawEvent) (e : NormalizedEvent) (s : Pipeline)
      → env.publish_fails e ≡ false
      → In e (publish_matched b env f bfs t raw e s).published
  unfolding publish_matched
  publish_matched_new raw e s h = rw h (In-append_right e s.published _ (inl refl))

  after_match_kept :
      (raw : RawEvent) (e x : NormalizedEvent) (w : Watched × Bool) (s : Pipeline)
      → In x s.published
      → In x (after_match b env f bfs t raw e w s).published
  after_match_kept raw e x (failed, hot) s i = i
  after_match_kept raw e x (found [], hot) s i = i
  after_match_kept raw e x (found (wa ∷ was), true) s i = publish_matched_kept raw e x _ i
  after_match_kept raw e x (found (wa ∷ was), false) s i = publish_matched_kept raw e x s i

  after_match_new :
      (raw : RawEvent) (e : NormalizedEvent) (w : Watched × Bool) (s : Pipeline)
      (rows : List WatchedAddress) (wa : WatchedAddress)
      → w.0 ≡ found rows
      → In wa rows
      → env.publish_fails e ≡ false
      → In e (after_match b env f bfs t raw e w s).published
  after_match_new raw e (v, true) s [] wa p i h = elim i [ ]
  after_match_new raw e (v, false) s [] wa p i h = elim i [ ]
  after_match_new raw e (v, true) s (r ∷ rows) wa p i h = rw p (publish_matched_new raw e _ h)
  after_match_new raw e (v, false) s (r ∷ rows) wa p i h = rw p (publish_matched_new raw e s h)

  match_event_kept :
      (raw : RawEvent) (e x : NormalizedEvent) (s : Pipeline)
      → In x s.published
      → In x (match_event b env f bfs t raw e s).published
  unfolding match_event
  match_event_kept raw e x s i = elim (Bool-cases (is_allowed env.base f e.chain (contract_of e))) [
    | inl h ↦ rw h (after_match_kept raw (complete f e) x _ s i)
    | inr h ↦ rw h i
  ]

  match_events_kept :
      (raw : RawEvent) (es : List NormalizedEvent) (x : NormalizedEvent) (s : Pipeline)
      → In x s.published
      → In x (match_events b env f bfs t raw es s).published
  unfolding match_events
  match_events_kept raw [] x s i = i
  match_events_kept raw (e ∷ es) x s i = match_events_kept raw es x _ (match_event_kept raw e x s i)

  -- What makes an event one that has to be published.
  pub record IsDue (e : NormalizedEvent) (wa : WatchedAddress) : Type 0 where
    pub allowed : is_allowed env.base f e.chain (contract_of e) ≡ true
    pub row : In wa t.rows
    pub enabled : wa.status ≡ 1
    pub chain : wa.chain ≡ e.chain
    pub address : wa.address ≡ e.watched_address
    pub listed : env.list_fails e ≡ false
    pub sent : env.publish_fails (complete f e) ≡ false

  match_event_new :
      (raw : RawEvent) (e : NormalizedEvent) (wa : WatchedAddress) (s : Pipeline)
      → ((x : Text) → env.same x x ≡ true)
      → Covers b bfs t.rows
      → is_known b bfs e.chain ≡ true
      → IsDue e wa
      → In (complete f e) (match_event b env f bfs t raw e s).published
  unfolding match_event
  match_event_new raw e wa s same_refl covers known d =
      let (chain, address) = complete_same f e in
      let (rows, p, i) =
        is_watched_complete b env.same (env.hot_hit e) wa bfs t same_refl covers (rw d.chain known)
          d.row d.enabled in
      rw (d.allowed, d.listed)
        (after_match_new raw (complete f e) _ s rows wa
          (subst
            (λ c.
              (is_watched b env.same false (env.hot_hit e) c (complete f e).watched_address bfs t).0
              ≡ found rows)
            (d.chain ∙ sym chain)
            (subst
              (λ a. (is_watched b env.same false (env.hot_hit e) wa.chain a bfs t).0 ≡ found rows)
              (d.address ∙ sym address) p))
          i d.sent)

  match_events_new :
      (raw : RawEvent) (es : List NormalizedEvent) (e : NormalizedEvent) (wa : WatchedAddress)
      (s : Pipeline)
      → ((x : Text) → env.same x x ≡ true)
      → Covers b bfs t.rows
      → is_known b bfs e.chain ≡ true
      → In e es
      → IsDue e wa
      → In (complete f e) (match_events b env f bfs t raw es s).published
  unfolding match_events
  match_events_new raw [] e wa s same_refl covers known i d = elim i [ ]
  match_events_new raw (x ∷ es) e wa s same_refl covers known (inl p) d =
      match_events_kept raw es (complete f e) _ (
        subst (λ y. In (complete f e) (match_event b env f bfs t raw y s).published) p
          (match_event_new raw e wa s same_refl covers known d))
  match_events_new raw (x ∷ es) e wa s same_refl covers known (inr i) d =
      match_events_new raw es e wa _ same_refl covers known i d

  -- If the filters cover the table, an event that is parsed from a raw event, passes the contract
  -- whitelist, and has an enabled row of the table for its chain and address, is published with its
  -- token completed, when the query and the publishing for it succeed and the column's comparison
  -- finds equal texts equal.
  pub handle_raw_event_publishes :
      (raw : RawEvent) (parse : RawEvent → Option (List NormalizedEvent))
      (es : List NormalizedEvent) (e : NormalizedEvent) (wa : WatchedAddress) (s : Pipeline)
      → ((x : Text) → env.same x x ≡ true)
      → Covers b bfs t.rows
      → is_known b bfs e.chain ≡ true
      → env.parsers raw.chain ≡ some parse
      → parse raw ≡ some es
      → In e es
      → IsDue e wa
      → In (complete f e) (handle_raw_event b env f bfs t raw s).published
  unfolding handle_raw_event
  handle_raw_event_publishes raw parse es e wa s same_refl covers known p q i d =
      rw (p, handle_raw_event, q) (match_events_new raw es e wa s same_refl covers known i d)
