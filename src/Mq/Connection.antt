-- ===== src/Mq/Connection.antt =====
-- internal/mq/connection.go: the waiting of reconnectLoop after a connection is lost. Times are in
-- seconds, and the errors of the dials are a function of their number.
use address_monitor.Prelude.{
  ℕ, zero, suc, ◌+◌, ◌-◌, ◌*◌, ◌^◌, ◌≡◌, ◌≤◌, ◌<◌, min, refl, ap, ◌∙◌, Bool, true, false, Option,
  none, some, if◌then◌else◌, ltb, arith,
}

-- if delay < 30*time.Second { delay *= 2 }
unfoldable pub next_delay : ℕ → ℕ
next_delay delay = if ltb delay 30 then delay * 2 else delay

abbrev slept : ℕ → Option (ℕ × ℕ) → Option (ℕ × ℕ)
slept delay none = none
slept delay (some (n, t)) = some (n, delay + t)

-- The inner loop, from dial n on: the number of the dial that works and the time slept before it.
unfoldable pub reconnect : (ℕ → Bool) → ℕ → ℕ → ℕ → Option (ℕ × ℕ)
unfolding next_delay
reconnect fails zero n delay = none
reconnect fails (suc fuel) n delay =
    let rest = reconnect fails fuel (n + 1) (next_delay delay) in
    if fails n then slept delay rest else some (n, 0)

-- The delay before dial n + 1.
abbrev pub delay_after : ℕ → ℕ
delay_after n = 2 ^ min n 5

capped : (n : ℕ) → 5 ≤ n → min n 5 ≡ 5
capped n h = omega arith

next_delay_after : (n : ℕ) → next_delay (delay_after n) ≡ delay_after (n + 1)
unfolding next_delay
next_delay_after zero = refl
next_delay_after (suc zero) = refl
next_delay_after (suc (suc zero)) = refl
next_delay_after (suc (suc (suc zero))) = refl
next_delay_after (suc (suc (suc (suc zero)))) = refl
next_delay_after (suc (suc (suc (suc (suc n))))) =
    rw
      (
        capped (suc (suc (suc (suc (suc n))))) (omega arith),
        capped (suc (suc (suc (suc (suc n)))) + 1) (omega arith),
      )
      refl

-- The time slept over k failures from dial n on.
abbrev pub total : ℕ → ℕ → ℕ
total n zero = 0
total n (suc k) = delay_after n + total (n + 1) k

reconnect_total :
    (fails : ℕ → Bool) (stop k fuel n : ℕ)
    → ((m : ℕ) → m < stop → fails m ≡ true)
    → fails stop ≡ false
    → n + k ≡ stop
    → k < fuel
    → reconnect fails fuel n (delay_after n) ≡ some (stop, total n k)
unfolding reconnect
reconnect_total fails stop k zero n before works at lt = absurd (omega arith)
reconnect_total fails stop zero (suc fuel) n before works at lt =
    let e : n ≡ stop = omega arith in rw e (rw works refl)
reconnect_total fails stop (suc k) (suc fuel) n before works at lt = rw (before n (omega arith)) (
    rw (next_delay_after n) (
      rw (reconnect_total fails stop k fuel (n + 1) before works (omega arith) (omega arith)) refl))

-- 2^min(n, 5) - 1 + 32 (n - 5), for the sum of the delays before dial n.
abbrev pub waits : ℕ → ℕ
waits n = (2 ^ min n 5 - 1) + 32 * (n - 5)

waits-suc : (n : ℕ) → waits (n + 1) ≡ waits n + delay_after n
waits-suc zero = refl
waits-suc (suc zero) = refl
waits-suc (suc (suc zero)) = refl
waits-suc (suc (suc (suc zero))) = refl
waits-suc (suc (suc (suc (suc zero)))) = refl
waits-suc (suc (suc (suc (suc (suc n))))) =
    rw
      (
        capped (suc (suc (suc (suc (suc n))))) (omega arith),
        capped (suc (suc (suc (suc (suc n)))) + 1) (omega arith),
      )
      (omega arith)

total_closed : (k n : ℕ) → waits n + total n k ≡ waits (n + k)
total_closed zero n =
    let e : n + 0 ≡ n = omega arith in
    let h : waits (n + 0) ≡ waits n = ap waits e in omega (arith, h)
total_closed (suc k) n =
    let e : n + 1 + k ≡ n + suc k = omega arith in
    let h : waits (n + 1) + total (n + 1) k ≡ waits (n + suc k) =
      total_closed k (n + 1) ∙ ap waits e in
    omega (arith, h, waits-suc n)

delay_after_le : (n : ℕ) → delay_after n ≤ 32
delay_after_le zero = omega arith
delay_after_le (suc zero) = omega arith
delay_after_le (suc (suc zero)) = omega arith
delay_after_le (suc (suc (suc zero))) = omega arith
delay_after_le (suc (suc (suc (suc zero)))) = omega arith
delay_after_le (suc (suc (suc (suc (suc n))))) =
    rw (capped (suc (suc (suc (suc (suc n))))) (omega arith)) (omega arith)

waits_le : (k : ℕ) → waits k ≤ 32 * k
waits_le zero = omega arith
waits_le (suc k) =
    let e : suc k ≡ k + 1 = omega arith in
    let h : waits (suc k) ≡ waits (k + 1) = ap waits e in
    omega (arith, h, waits-suc k, delay_after_le k, waits_le k)

total_waits : (k : ℕ) → total 0 k ≡ waits k
total_waits k =
    let e : 0 + k ≡ k = omega arith in
    let h : waits (0 + k) ≡ waits k = ap waits e in omega (arith, h, total_closed k 0)

-- A lost connection whose first k dials fail and whose next one works is open again after k delays,
-- which grow from 1 s by doubling and stay at 32 s from the sixth on: 2^min(k, 5) - 1 + 32 (k - 5)
-- seconds in all, at most 32 k; fuel for k + 1 dials is enough.
pub reconnect_waits :
    (fails : ℕ → Bool) (k fuel : ℕ)
    → ((m : ℕ) → m < k → fails m ≡ true)
    → fails k ≡ false
    → k < fuel
    → (reconnect fails fuel 0 1 ≡ some (k, (2 ^ min k 5 - 1) + 32 * (k - 5)))
      × ((2 ^ min k 5 - 1) + 32 * (k - 5) ≤ 32 * k)
reconnect_waits fails k fuel before works lt = (
  reconnect_total fails k k fuel 0 before works (omega arith) lt
      ∙ ap (λ t. some (k, t)) (total_waits k),
  waits_le k,
)
