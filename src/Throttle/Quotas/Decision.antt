-- ===== src/Throttle/Quotas/Decision.antt =====
-- When a request is admitted, and what a refused one is told to wait for.
use Prim.Native.String.{String}
use toa.Prelude.{
  ℕ, zero, suc, ◌+◌, ◌-◌, ◌*◌, ◌/◌, ◌≤◌, ◌<◌, max, ◌≡◌, ◌↔◌, Option, none, some, List, arith,
}
use native.Mathlib.Nat.{mul-le-mul_right}
use toa.Prelude.Maps.{lookup, insert}
use toa.Throttle.Keys.{Context, Parameter, get}
use toa.Throttle.Quotas.{Quotas, Entry, emission, capacity, at, arrival, seconds, decide, check}

-- Rounding up a quotient.
ceil_least :
    (u m : ℕ)
    → 0 < m
    → 0 < u
    → (0 < (u + m - 1) / m) × (u ≤ (u + m - 1) / m * m) × (((u + m - 1) / m - 1) * m < u)
ceil_least u m hm hu = grind (arith)

-- The least whole number of seconds that covers a debt.
seconds_least :
    (requests units : ℕ)
    → 0 < requests
    → 0 < units
    → (0 < seconds requests units)
      × (units ≤ seconds requests units * (1000 * requests))
      × ((seconds requests units - 1) * (1000 * requests) < units)
unfolding seconds
seconds_least requests units r u = ceil_least units (1000 * requests) (omega arith) u

-- A key is admitted exactly when one more emission keeps its arrival time within the capacity.
pub decide-eq-zero :
    (q : Quotas) (key now : ℕ)
    → 0 < q.requests
    → ((decide q key now).1 ≡ 0)
      ↔ (arrival (lookup key q.entries) (at q now) + emission q ≤ at q now + capacity q)
unfolding decide
decide-eq-zero q key now r =
    let units = arrival (lookup key q.entries) (at q now) + emission q - capacity q - at q now in
    (λ h. ground (arith, seconds_least q.requests units), λ h. ground arith)

pub decide-pos :
    (q : Quotas) (key now : ℕ)
    → 0 < q.requests
    → at q now + capacity q < arrival (lookup key q.entries) (at q now) + emission q
    → 0 < (decide q key now).1
unfolding decide
decide-pos q key now r h =
    let units = arrival (lookup key q.entries) (at q now) + emission q - capacity q - at q now in
    ground (arith, seconds_least q.requests units)

-- A request refused by its key, whatever `keyed` holds: the quota is left alone.
check_refused :
    (digest : String → ℕ) (q : Quotas) (c : Context) (ps : List Parameter) (key now : ℕ)
    → get digest q.keys c ps ≡ some key
    → 0 < (check digest q c ps now).1
    → ((check digest q c ps now).0 ≡ record q { keyed = insert c.id key q.keyed })
      × ((check digest q c ps now).1
          ≡ seconds q.requests
              (arrival (lookup key q.entries) (at q now) + emission q - capacity q - at q now))
      × (at q now + capacity q < arrival (lookup key q.entries) (at q now) + emission q)
unfolding check decide
check_refused digest q c ps key now keyed h = ground arith

check-decide :
    (digest : String → ℕ) (q : Quotas) (c : Context) (ps : List Parameter) (key now : ℕ)
    → get digest q.keys c ps ≡ some key
    → (check digest q c ps now).1 ≡ (decide q key now).1
unfolding check decide
check-decide digest q c ps key now keyed = ground arith

later_arrival :
    (o : Option Entry) (t t' e cap : ℕ)
    → e ≤ cap
    → t + cap < arrival o t + e
    → t ≤ t'
    → arrival o t' ≡ max (arrival o t) t'
unfolding arrival
later_arrival none t t' e cap h r le = omega arith
later_arrival (some x) t t' e cap h r le = omega arith

interval-le-capacity : (q : Quotas) → 0 < q.requests → q.interval ≤ capacity q
interval-le-capacity q r = grind arith

wait_enough :
    (a e cap r now later s : ℕ)
    → a + e - cap - now * r ≤ s * (1000 * r)
    → e ≤ cap
    → now + 1000 * s ≤ later
    → max a (later * r) + e ≤ later * r + cap
wait_enough a e size r now later s covers fits h =
    let scaled : (now + 1000 * s) * r ≤ later * r = mul-le-mul_right r h in omega arith

pred_mul : (s m : ℕ) → 0 < s → (s - 1) * m + m ≡ s * m
pred_mul zero m h = absurd (omega arith)
pred_mul (suc s) m h = let e : suc s - 1 ≡ s = omega arith in rw e (omega arith)

wait_needed :
    (a e cap r now later s : ℕ)
    → (s - 1) * (1000 * r) < a + e - cap - now * r
    → 0 < s
    → later + 1000 ≤ now + 1000 * s
    → later * r + cap < max a (later * r) + e
wait_needed a e size r now later s least pos h =
    let scaled : (later + 1000) * r ≤ (now + 1000 * s) * r = mul-le-mul_right r h in
    let split : (s - 1) * (1000 * r) + 1000 * r ≡ s * (1000 * r) = pred_mul s (1000 * r) pos in
    omega arith

exact_retry :
    (digest : String → ℕ) (q : Quotas) (c : Context) (ps : List Parameter) (key now later : ℕ)
    → 0 < q.requests
    → get digest q.keys c ps ≡ some key
    → 0 < (check digest q c ps now).1
    → now ≤ later
    → let (q', s) = check digest q c ps now in
      (now + 1000 * s ≤ later → (check digest q' c ps later).1 ≡ 0)
      × (later + 1000 ≤ now + 1000 * s → 0 < (check digest q' c ps later).1)
exact_retry digest q c ps key now later r keyed h le =
    let (same, told, over) = check_refused digest q c ps key now keyed h in
    let o = lookup key q.entries in
    let units = arrival o (at q now) + emission q - capacity q - at q now in
    let (pos, covers, least) = seconds_least q.requests units r (omega arith) in
    let fits = interval-le-capacity q r in
    let q' = record q { keyed = insert c.id key q.keyed } in
    let met = decide-eq-zero q' key later r in
    let reached =
      later_arrival o (at q now) (at q later) q.interval (capacity q) fits over
        (mul-le-mul_right q.requests le) in
    let answer : (check digest q' c ps later).1 ≡ (decide q' key later).1 =
      check-decide digest q' c ps key later keyed in
    rw (same, told, answer)
      (
        λ h. met.1 (rw reached (wait_enough _ _ _ _ now later _ covers fits h)),
        λ h. decide-pos q' key later r (rw reached (wait_needed _ _ _ _ now later _ least pos h)),
      )

-- A refused request that is told to wait so many seconds is admitted once they have passed, with
-- nothing else under its key in between.
pub check_waited :
    (digest : String → ℕ) (q : Quotas) (c : Context) (ps : List Parameter) (key now later : ℕ)
    → 0 < q.requests
    → get digest q.keys c ps ≡ some key
    → 0 < (check digest q c ps now).1
    → now + 1000 * (check digest q c ps now).1 ≤ later
    → (check digest (check digest q c ps now).0 c ps later).1 ≡ 0
check_waited digest q c ps key now later r keyed h waited =
    (exact_retry digest q c ps key now later r keyed h (omega arith)).0 waited

-- A refused request is not told to wait a second too long: while a second or more of the wait is
-- left, the same request is refused again.
pub check_early :
    (digest : String → ℕ) (q : Quotas) (c : Context) (ps : List Parameter) (key now later : ℕ)
    → 0 < q.requests
    → get digest q.keys c ps ≡ some key
    → 0 < (check digest q c ps now).1
    → now ≤ later
    → later + 1000 ≤ now + 1000 * (check digest q c ps now).1
    → 0 < (check digest (check digest q c ps now).0 c ps later).1
check_early digest q c ps key now later r keyed h le early =
    (exact_retry digest q c ps key now later r keyed h le).1 early
