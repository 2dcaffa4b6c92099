-- ===== src/Pulse/Boundary.antt =====
-- Where an interval ends.
use toa.Prelude.{ℕ, suc, ◌+◌, ◌-◌, ◌*◌, ◌/◌, ◌≤◌, ◌<◌, ◌≡◌, arith}
use native.Mathlib.Nat.{mul-le-mul_right, div-lt_iff_lt-mul, div-eq_of_lt-le}
use toa.Pulse.{Pulse, ordinal, boundary}

ceil_covers : (u n : ℕ) → 0 < n → u ≤ (u + n - 1) / n * n
ceil_covers u n h = grind (arith)

ceil_tight : (u n : ℕ) → 0 < n → (u + n - 1) / n * n < u + n
ceil_tight u n h = grind (arith)

ceil_below : (u n t : ℕ) → 0 < n → t < (u + n - 1) / n → t * n < u
ceil_below u n t h lt =
    let scaled : suc t * n ≤ (u + n - 1) / n * n = mul-le-mul_right n lt in
    let tight = ceil_tight u n h in grind (arith)

-- The boundary of the interval that a moment falls in is in the next interval, where the intervals
-- of a cycle are no shorter than a millisecond.
pub ordinal-boundary :
    (p : Pulse) (now : ℕ) → 0 < p.n → p.n ≤ p.cycle → ordinal p (boundary p now) ≡ ordinal p now + 1
unfolding boundary ordinal
ordinal-boundary p now pos fine =
    let u = (now * p.n / p.cycle + 1) * p.cycle in
    let covers = ceil_covers u p.n pos in
    let tight = ceil_tight u p.n pos in div-eq_of_lt-le p.cycle covers (omega arith)

-- A moment before the boundary is in no later interval.
pub ordinal_before :
    (p : Pulse) (now t : ℕ)
    → 0 < p.n
    → 0 < p.cycle
    → t < boundary p now
    → ordinal p t ≤ ordinal p now
unfolding boundary ordinal
ordinal_before p now t pos whole lt =
    let below = ceil_below ((now * p.n / p.cycle + 1) * p.cycle) p.n t pos lt in
    let under = (div-lt_iff_lt-mul {x = t * p.n} {y = now * p.n / p.cycle + 1} whole).1 below in
    omega arith
