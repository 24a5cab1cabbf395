-- ===== src/Chain/ContractFilter.antt =====
-- internal/chain/contract_filter.go: the contract whitelist that a worker holds in memory.
pub mod Laws
use address_monitor.Prelude.{
  ℕ, Bool, true, false, Option, none, some, List, [], ◌∷◌, Text, TextMap, lookup, insert, to_upper,
  text_eq, if◌then◌else◌, is_empty_text, is_empty, ltb, not, any,
}
use address_monitor.AddrCodec.{Base58, codec_of, normalize}
use address_monitor.Store.Contracts.{AllowedContract}

-- A set of addresses is the list of its members, and a nil map the empty one.
pub record ContractFilter : Type 0 where
  pub allowed : TextMap (List Text)
  pub symbols : TextMap (TextMap Text)
  pub decimals : TextMap (TextMap ℕ)

unfoldable pub empty : ContractFilter
empty = record { allowed = []; symbols = []; decimals = [] }

-- The value under a key, or a fresh one if the key is missing.
abbrev pub entry {ℓ} : {V : Type ℓ} → V → Option V → V
entry fresh none = fresh
entry fresh (some v) = v

-- One round of the loop of reload. A chain that is new to `allowed` is new to all three maps.
unfoldable pub add_contract : ContractFilter → AllowedContract → ContractFilter
add_contract f c =
    let key = to_upper c.chain in
    let syms = entry [] (lookup key f.symbols) in
    let decs = entry [] (lookup key f.decimals) in
    record {
      allowed = insert key (c.contract_address ∷ entry [] (lookup key f.allowed)) f.allowed;
      symbols =
          insert key
            (if is_empty_text c.symbol then syms else insert c.contract_address c.symbol syms)
            f.symbols;
      decimals =
          insert key (if ltb 0 c.decimals then insert c.contract_address c.decimals decs else decs)
            f.decimals;
    }

unfoldable pub add_contracts : ContractFilter → List AllowedContract → ContractFilter
add_contracts f [] = f
add_contracts f (c ∷ cs) = add_contracts (add_contract f c) cs

unfoldable pub reload : List AllowedContract → ContractFilter
unfolding add_contracts empty
reload contracts = add_contracts empty contracts

-- Load and one round of StartRefreshJob: a failed query leaves the filter as it is.
unfoldable pub refresh : Option (List AllowedContract) → ContractFilter → ContractFilter
refresh none f = f
refresh (some contracts) f = reload contracts

abbrev pub contains : List Text → Text → Bool
contains xs a = any (λ x. text_eq x a) xs

-- _, ok := contracts[…], behind the test for a chain without entries.
unfoldable pub passes : Option (List Text) → Text → Bool
passes none a = true
passes (some []) a = true
passes (some (c ∷ cs)) a = contains (c ∷ cs) a

unfoldable pub is_allowed : Base58 → ContractFilter → Text → Text → Bool
is_allowed base f chain contract =
    if is_empty_text contract
    then true
    else passes (lookup (to_upper chain) f.allowed) (normalize base (codec_of chain) contract)

unfoldable pub get_symbol : ContractFilter → Text → Text → Text
get_symbol f chain contract =
    if is_empty_text contract then [] else elim (lookup (to_upper chain) f.symbols) [
      | none ↦ []
      | some syms ↦ entry [] (lookup contract syms)
    ]

unfoldable pub get_decimals : ContractFilter → Text → Text → ℕ
get_decimals f chain contract =
    if is_empty_text contract then 0 else elim (lookup (to_upper chain) f.decimals) [
      | none ↦ 0
      | some decs ↦ entry 0 (lookup contract decs)
    ]
