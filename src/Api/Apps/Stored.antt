-- ===== src/Api/Apps/Stored.antt =====
-- The whitelist that UpdateAllowedContracts stores against what the request allows.
use address_monitor.Prelude.{
  ◌≡◌, refl, Bool, true, false, Option, none, some, List, [], ◌∷◌, ◌||◌, map, Text, TextMap, insert,
  lookup, any, is_unique, not, eq_of_text_eq, text_eq_of_eq, lookup-insert, text_eq, text_eq_iff,
  to_upper, to_upper_idem, is_empty, is_empty_text, if◌then◌else◌, Bool-cases, inl, inr, arith,
}
use address_monitor.AddrCodec.{Base58, codec_of, normalize}
use address_monitor.Store.Apps.{AllowedJson}
use address_monitor.Chain.ContractFilter.{passes}
use address_monitor.Dispatcher.Expander.{parse_allowed_contracts, upper_keys, is_contract_allowed}
use address_monitor.Api.Apps.{normalize_contracts, raw_of, is_json}

-- The contracts that a request allows on a chain, in normal form: those of its last entry for the
-- chain in any spelling, or none if it has no entry for it.
unfoldable pub allowed_on : Base58 → Text → List (Text × List Text) → Option (List Text)
allowed_on base chain [] = none
allowed_on base chain ((c, addrs) ∷ m) = elim (allowed_on base chain m) [
  | some l ↦ some l
  | none ↦
      if text_eq (to_upper c) (to_upper chain)
      then some (map (normalize base (codec_of c)) addrs)
      else none
]

abbrev or_else : Option (List Text) → Option (List Text) → Option (List Text)
or_else none d = d
or_else (some l) d = some l

lookup-normalize_contracts :
    (base : Base58) (chain : Text) (req : List (Text × List Text)) (m : TextMap (List Text))
    → lookup (to_upper chain) (normalize_contracts base req m)
      ≡ or_else (allowed_on base chain req) (lookup (to_upper chain) m)
unfolding normalize_contracts allowed_on
lookup-normalize_contracts base chain [] m = refl
lookup-normalize_contracts base chain ((c, addrs) ∷ req) m = ground (
  arith,
  lookup-normalize_contracts base chain req
      (insert (to_upper c) (map (normalize base (codec_of c)) addrs) m),
  lookup-insert (to_upper c) (to_upper chain) (map (normalize base (codec_of c)) addrs) m,
)

abbrev same_key : Text × List Text → Text × List Text → Bool
same_key a b = text_eq a.0 b.0

abbrev has_key : Text → Text × List Text → Bool
has_key k a = text_eq a.0 k

abbrev is_mixed : Text × List Text → Bool
is_mixed a = not (text_eq (to_upper a.0) a.0)

any-insert :
    (k j : Text) (v w : List Text) (m : TextMap (List Text))
    → any (same_key (j, w)) (insert k v m) ≡ (any (same_key (j, w)) m || text_eq j k)
unfolding insert
any-insert k j v w [] = ground arith
any-insert k j v w ((i, u) ∷ m) =
    ground (arith, text_eq_iff i k, text_eq_iff j i, text_eq_iff j k, any-insert k j v w m)

is_unique-insert :
    (k : Text) (v : List Text) (m : TextMap (List Text))
    → is_unique same_key m ≡ true
    → is_unique same_key (insert k v m) ≡ true
unfolding insert
is_unique-insert k v [] h = refl
is_unique-insert k v ((j, w) ∷ m) h = elim (Bool-cases (text_eq j k)) [
  | inl e ↦ rw (insert, e) (rw (← eq_of_text_eq j k e) h)
  | inr e ↦ rw (insert, e) (ground (arith, any-insert k j v w m, is_unique-insert k v m))
]

any_mixed-insert :
    (k : Text) (v : List Text) (m : TextMap (List Text))
    → to_upper k ≡ k
    → any is_mixed m ≡ false
    → any is_mixed (insert k v m) ≡ false
unfolding insert
any_mixed-insert k v [] u h = ground (arith, text_eq_of_eq (to_upper k) k)
any_mixed-insert k v ((j, w) ∷ m) u h =
    ground (arith, text_eq_of_eq (to_upper k) k, any_mixed-insert k v m)

-- What the loop of UpdateAllowedContracts stores: distinct keys in upper case.
record IsStored (m : TextMap (List Text)) : Type 0 where
  pub distinct : is_unique same_key m ≡ true
  pub upper : any is_mixed m ≡ false

normalize_contracts-IsStored :
    (base : Base58) (req : List (Text × List Text)) (m : TextMap (List Text))
    → IsStored m
    → IsStored (normalize_contracts base req m)
unfolding normalize_contracts
normalize_contracts-IsStored base [] m h = h
normalize_contracts-IsStored base ((c, addrs) ∷ req) m h =
    normalize_contracts-IsStored base req _ (record {
      distinct =
          is_unique-insert (to_upper c) (map (normalize base (codec_of c)) addrs) m h.distinct;
      upper =
          any_mixed-insert (to_upper c) (map (normalize base (codec_of c)) addrs) m
            (to_upper_idem c) h.upper;
    })

lookup-none :
    (k : Text) (m : TextMap (List Text)) → any (same_key (k, [])) m ≡ false → lookup k m ≡ none
unfolding lookup
lookup-none k [] h = refl
lookup-none k ((j, w) ∷ m) h = ground (arith, text_eq_iff j k, text_eq_iff k j, lookup-none k m)

lookup-upper_keys :
    (k : Text) (m r : TextMap (List Text))
    → IsStored m
    → lookup k (upper_keys m r) ≡ or_else (lookup k m) (lookup k r)
unfolding upper_keys lookup
lookup-upper_keys k [] r h = refl
lookup-upper_keys k ((c, v) ∷ m) r h =
    let first_free : any (same_key (c, [])) m ≡ false = ground (arith, h.distinct) in
    let rest : IsStored m = record {
      distinct = ground (arith, h.distinct);
      upper = ground (arith, h.upper);
    } in
    let up : to_upper c ≡ c = eq_of_text_eq (to_upper c) c (ground (arith, h.upper)) in
    rw (upper_keys, up)
      (ground (
        arith,
        text_eq_iff c k,
        lookup-upper_keys k m (insert c v r) rest,
        lookup-insert c k v r,
        lookup-none c m,
      ))

is_empty-insert :
    (k : Text) (v : List Text) (m : TextMap (List Text)) → is_empty (insert k v m) ≡ false
unfolding insert
is_empty-insert k v [] = refl
is_empty-insert k v ((j, w) ∷ m) = ground arith

filled-upper_keys :
    (m r : TextMap (List Text)) → is_empty r ≡ false → is_empty (upper_keys m r) ≡ false
unfolding upper_keys
filled-upper_keys [] r h = h
filled-upper_keys ((c, v) ∷ m) r h =
    filled-upper_keys m (insert (to_upper c) v r) (is_empty-insert (to_upper c) v r)

is_empty-upper_keys : (m : TextMap (List Text)) → is_empty (upper_keys m []) ≡ is_empty m
unfolding upper_keys
is_empty-upper_keys [] = refl
is_empty-upper_keys ((c, v) ∷ m) =
    filled-upper_keys m (insert (to_upper c) v []) (is_empty-insert (to_upper c) v [])

filled-normalize_contracts :
    (base : Base58) (req : List (Text × List Text)) (m : TextMap (List Text))
    → is_empty m ≡ false
    → is_empty (normalize_contracts base req m) ≡ false
unfolding normalize_contracts
filled-normalize_contracts base [] m h = h
filled-normalize_contracts base ((c, addrs) ∷ req) m h =
    filled-normalize_contracts base req _ (is_empty-insert (to_upper c) _ m)

is_empty-normalize_contracts :
    (base : Base58) (req : List (Text × List Text))
    → is_empty (normalize_contracts base req []) ≡ is_empty req
unfolding normalize_contracts
is_empty-normalize_contracts base [] = refl
is_empty-normalize_contracts base ((c, addrs) ∷ req) =
    filled-normalize_contracts base req _ (is_empty-insert (to_upper c) _ [])

parse-raw_of : (m : TextMap (List Text)) → parse_allowed_contracts (raw_of m) ≡ upper_keys m []
unfolding parse_allowed_contracts raw_of upper_keys
parse-raw_of [] = refl
parse-raw_of (e ∷ m) = refl

-- What a request allows, with no request for no restriction.
unfoldable pub allows : Base58 → List (Text × List Text) → Text → Text → Bool
unfolding allowed_on
allows base req chain contract =
    if is_empty_text contract || is_empty req
    then true
    else passes (allowed_on base chain req) (normalize base (codec_of chain) contract)

abbrev pub stored : Base58 → List (Text × List Text) → AllowedJson
stored base req = raw_of (normalize_contracts base req [])

is_json-raw_of : (m : TextMap (List Text)) → is_json (raw_of m) ≡ not (is_empty m)
unfolding raw_of is_json
is_json-raw_of [] = refl
is_json-raw_of (e ∷ m) = refl

-- The column takes what a request stores if the request has an entry.
pub is_json-stored :
    (base : Base58) (req : List (Text × List Text)) → is_json (stored base req) ≡ not (is_empty req)
is_json-stored base req =
    rw (is_json-raw_of (normalize_contracts base req []), is_empty-normalize_contracts base req)
      refl

or_else-none : (o : Option (List Text)) → or_else o none ≡ o
or_else-none none = refl
or_else-none (some l) = refl

pub is_contract_allowed-stored :
    (base : Base58) (req : List (Text × List Text)) (chain contract : Text)
    → is_contract_allowed base (parse_allowed_contracts (stored base req)) chain contract
      ≡ allows base req chain contract
unfolding is_contract_allowed allows lookup
is_contract_allowed-stored base req chain contract =
    let m = normalize_contracts base req [] in
    rw
      (
        parse-raw_of m,
        is_empty-upper_keys m,
        is_empty-normalize_contracts base req,
        lookup-upper_keys (to_upper chain) m []
            (normalize_contracts-IsStored base req [] (record { distinct = refl; upper = refl })),
        lookup-normalize_contracts base chain req [],
        or_else-none (or_else (allowed_on base chain req) none),
        or_else-none (allowed_on base chain req),
      )
      refl
