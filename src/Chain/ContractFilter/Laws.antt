-- ===== src/Chain/ContractFilter/Laws.antt =====
-- What the filter lets pass, in terms of the rows that it was loaded from.
use address_monitor.Prelude.{
  ◌≡◌, refl, Bool, not, true, false, ◌&&◌, ◌||◌, Option, none, some, List, [], ◌∷◌, Text, lookup,
  lookup-insert, to_upper, text_eq, text_eq_iff, is_empty_text, any, arith,
}
use address_monitor.AddrCodec.{Base58, codec_of, normalize}
use address_monitor.Store.Contracts.{AllowedContract}
use address_monitor.Chain.ContractFilter.{
  ContractFilter, empty, add_contract, add_contracts, reload, contains, passes, is_allowed,
}

-- The rows of a chain, and those of a contract on it.
abbrev pub on_chain : Text → AllowedContract → Bool
on_chain chain c = text_eq (to_upper c.chain) chain

abbrev pub is_row : Text → Text → AllowedContract → Bool
is_row chain contract c = on_chain chain c && text_eq c.contract_address contract

-- Whether a chain has a set with an address in it, and whether the set holds an address.
abbrev filled : Option (List Text) → Bool
filled none = false
filled (some []) = false
filled (some (x ∷ xs)) = true

abbrev holds : Text → Option (List Text) → Bool
holds a none = false
holds a (some xs) = contains xs a

lookup-empty : (chain : Text) → lookup chain empty.allowed ≡ none
unfolding empty lookup
lookup-empty chain = refl

holds-add_contract :
    (f : ContractFilter) (c : AllowedContract) (chain a : Text)
    → holds a (lookup chain (add_contract f c).allowed)
      ≡ (is_row chain a c || holds a (lookup chain f.allowed))
unfolding add_contract
holds-add_contract f c chain a =
    rw lookup-insert (ground (arith, text_eq_iff (to_upper c.chain) chain))

filled-add_contract :
    (f : ContractFilter) (c : AllowedContract) (chain : Text)
    → filled (lookup chain (add_contract f c).allowed)
      ≡ (on_chain chain c || filled (lookup chain f.allowed))
unfolding add_contract
filled-add_contract f c chain = rw lookup-insert (ground arith)

holds-add_contracts :
    (cs : List AllowedContract) (f : ContractFilter) (chain a : Text)
    → holds a (lookup chain (add_contracts f cs).allowed)
      ≡ (any (is_row chain a) cs || holds a (lookup chain f.allowed))
unfolding add_contracts
holds-add_contracts [] f chain a = refl
holds-add_contracts (c ∷ cs) f chain a =
    ground
      (arith, holds-add_contracts cs (add_contract f c) chain a, holds-add_contract f c chain a)

filled-add_contracts :
    (cs : List AllowedContract) (f : ContractFilter) (chain : Text)
    → filled (lookup chain (add_contracts f cs).allowed)
      ≡ (any (on_chain chain) cs || filled (lookup chain f.allowed))
unfolding add_contracts
filled-add_contracts [] f chain = refl
filled-add_contracts (c ∷ cs) f chain =
    ground (arith, filled-add_contracts cs (add_contract f c) chain, filled-add_contract f c chain)

passes_lem : (o : Option (List Text)) (a : Text) → passes o a ≡ (not (filled o) || holds a o)
unfolding passes
passes_lem none a = refl
passes_lem (some []) a = refl
passes_lem (some (x ∷ xs)) a = refl

-- After a reload from the enabled rows, an event passes exactly if it has no contract, or no row
-- is on its chain, or some row on its chain has the normal form of its contract.
pub is_allowed-reload :
    (base : Base58) (cs : List AllowedContract) (chain contract : Text)
    → is_allowed base (reload cs) chain contract ≡ (
        is_empty_text contract
        || (not (any (on_chain (to_upper chain)) cs)
            || any (is_row (to_upper chain) (normalize base (codec_of chain) contract)) cs))
unfolding is_allowed reload empty
is_allowed-reload base cs chain contract = ground (
  arith,
  passes_lem (lookup (to_upper chain) (add_contracts empty cs).allowed)
      (normalize base (codec_of chain) contract),
  holds-add_contracts cs empty (to_upper chain) (normalize base (codec_of chain) contract),
  filled-add_contracts cs empty (to_upper chain),
  lookup-empty (to_upper chain),
)
