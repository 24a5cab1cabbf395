-- ===== src/Api/Result.antt =====
-- The pair of a value and an error that a service of internal/api/service returns.
use address_monitor.Prelude.{◌≡◌, ◌⊎◌, refl, inl, inr}

pub data Result (E A : Type 0) : Type 0 where
  ok : A → Result E A
  err : E → Result E A

pub Result-cases :
    {E A : Type 0} (r : Result E A) → ((a : A) × (r ≡ ok a)) ⊎ ((e : E) × (r ≡ err e))
Result-cases (ok a) = inl (a, refl)
Result-cases (err e) = inr (e, refl)
