-- ===== src/Store/Contracts.antt =====
-- internal/store/allowed_contract.go: the table allowed_contracts.
use address_monitor.Prelude.{
  ℕ, ◌+◌, List, [], ◌∷◌, ◌++◌, Text, to_upper, ◌==◌, select, update_if, not,
}
use address_monitor.AddrCodec.{Base58, codec_of, normalize}

pub record AllowedContract : Type 0 where
  pub id : ℕ
  pub chain : Text
  pub contract_address : Text
  pub symbol : Text
  pub decimals : ℕ
  pub enabled : ℕ

pub record ContractTable : Type 0 where
  pub rows : List AllowedContract
  pub next_id : ℕ

unfoldable pub list_enabled : ContractTable → List AllowedContract
list_enabled t = select (λ c. c.enabled == 1) t.rows

-- Create upper-cases the chain and normalizes the address by the chain's codec.
unfoldable pub create : Base58 → AllowedContract → ContractTable → AllowedContract × ContractTable
create base c t =
    let chain = to_upper c.chain in
    let row = record c {
      id = t.next_id;
      chain = chain;
      contract_address = normalize base (codec_of chain) c.contract_address;
    } in
    (row, record { rows = t.rows ++ row ∷ []; next_id = t.next_id + 1 })

unfoldable pub set_enabled : ℕ → ℕ → ContractTable → ContractTable
set_enabled id enabled t = record t {
  rows = update_if (λ c. c.id == id) (λ c. record c { enabled = enabled }) t.rows;
}

unfoldable pub delete : ℕ → ContractTable → ContractTable
delete id t = record t { rows = select (λ c. not (c.id == id)) t.rows }

-- Update sets the columns that the call names.
unfoldable pub update : ℕ → (AllowedContract → AllowedContract) → ContractTable → ContractTable
update id f t = record t { rows = update_if (λ c. c.id == id) f t.rows }
