-- ===== src/Parser/Sol/Balances.antt =====
-- The arithmetic of the SOL parser on 64-bit integers against that on numbers.
use address_monitor.Prelude.{ℕ, ◌+◌, ◌-◌, ◌^◌, ◌≡◌, ◌<◌, if◌then◌else◌, ◌==◌, ltb, arith}
use address_monitor.Parser.Sol.{net_change, is_positive64, negate64}

-- The fee that account i has paid.
abbrev pub fee_of : ℕ → ℕ → ℕ
fee_of i fee = if i == 0 then fee else 0

-- For balances and a fee below 2^62, the sign that the parser sees is that of the change of the
-- balance without the fee, its amount is the size of this change, and no change is seen exactly if
-- there is none.
pub net_change_lem :
    (i pre post fee : ℕ)
    → pre < 2 ^ 62
    → post < 2 ^ 62
    → fee < 2 ^ 62
    → (is_positive64 (net_change i pre post fee) ≡ ltb pre (post + fee_of i fee))
      × ((net_change i pre post fee == 0) ≡ (pre == post + fee_of i fee))
      × ((if is_positive64 (net_change i pre post fee)
            then net_change i pre post fee
            else negate64 (net_change i pre post fee))
          ≡ (if ltb pre (post + fee_of i fee)
              then post + fee_of i fee - pre
              else pre - (post + fee_of i fee)))
unfolding net_change is_positive64 negate64
net_change_lem i pre post fee a b c = (ground arith, ground arith, ground arith)
