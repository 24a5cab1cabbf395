-- ===== src/Chain/TronFetcher.antt =====
-- internal/chain/tron/fetcher.go: which transactions of a block the fetcher passes on.
pub mod Laws
use address_monitor.Prelude.{
  Bool, true, false, not, ◌&&◌, ◌||◌, List, [], ◌∷◌, Text, bytes, text_eq, if◌then◌else◌, is_empty,
}
use address_monitor.Parser.Tron.{TronContract, TronTx, has_succeeded}

-- contractType: that of the first contract, or no text.
unfoldable pub contract_type : List TronContract → Text
contract_type [] = []
contract_type (c ∷ cs) = c.type

-- The guards of the loop over the transactions of FetchBlock.
unfoldable pub is_passed_on : TronTx → Bool
unfolding contract_type has_succeeded
is_passed_on tx =
    let type = contract_type tx.contracts in
    let triggers = text_eq type (bytes "TriggerSmartContract") in
    if is_empty tx.ret
    then false
    else if triggers && not (has_succeeded tx.ret)
    then false
    else triggers || text_eq type (bytes "TransferContract")
