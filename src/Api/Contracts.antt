-- ===== src/Api/Contracts.antt =====
-- internal/api/service/contract.go: the contracts of the administrator. The errors of the store are
-- parameters.
use address_monitor.Prelude.{
  ℕ, Bool, true, false, not, ◌||◌, Option, none, some, List, Text, if◌then◌else◌,
}
use address_monitor.AddrCodec.{Base58}
use address_monitor.Store.Contracts.{AllowedContract, ContractTable, update, delete}
use address_monitor.Store.Contracts
use address_monitor.Api.Result.{Result, ok, err}

pub data ContractError : Type 0 where
  store_failed : ContractError

-- UpdateContractReq: the fields that are given.
pub record ContractChange : Type 0 where
  pub symbol : Option Text
  pub decimals : Option ℕ
  pub enabled : Option ℕ

abbrev given {ℓ} : {A : Type ℓ} → Option A → A → A
given none old = old
given (some new) old = new

abbrev is_given {ℓ} : {A : Type ℓ} → Option A → Bool
is_given none = false
is_given (some new) = true

-- The columns of an update.
unfoldable pub changed : ContractChange → AllowedContract → AllowedContract
changed req c = record c {
  symbol = given req.symbol c.symbol;
  decimals = given req.decimals c.decimals;
  enabled = given req.enabled c.enabled;
}

unfoldable pub create_contract :
    Base58
    → Bool
    → Text
    → Text
    → Text
    → ℕ
    → ContractTable
    → Result ContractError AllowedContract × ContractTable
unfolding Contracts.create
create_contract base fails chain address symbol decimals t =
    let c : AllowedContract = record {
      id = 0;
      chain = chain;
      contract_address = address;
      symbol = symbol;
      decimals = decimals;
      enabled = 1;
    } in
    let (row, t') = Contracts.create base c t in
    if fails then (err store_failed, t) else (ok row, t')

unfoldable pub list_contracts : Bool → ContractTable → Result ContractError (List AllowedContract)
list_contracts fails t = if fails then err store_failed else ok t.rows

-- No field is given.
unfoldable pub is_blank : ContractChange → Bool
is_blank req = not (is_given req.symbol || is_given req.decimals || is_given req.enabled)

-- Update: a request without fields does nothing.
unfoldable pub update_contract :
    Bool → ℕ → ContractChange → ContractTable → Result ContractError Bool × ContractTable
unfolding update changed is_blank
update_contract fails id req t =
    if is_blank req
    then (ok true, t)
    else if fails
    then (err store_failed, t)
    else (ok true, update id (changed req) t)

unfoldable pub delete_contract :
    Bool → ℕ → ContractTable → Result ContractError Bool × ContractTable
unfolding delete
delete_contract fails id t = if fails then (err store_failed, t) else (ok true, delete id t)
