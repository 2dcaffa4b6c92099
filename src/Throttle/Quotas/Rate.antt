-- ===== src/Throttle/Quotas/Rate.antt =====
-- How many requests a key is let through over a run of events.
use Prim.Native.String.{String}
use native.Mathlib.Nat.{mul-le-mul_right}
use mathlib.Core.Path.{ap₂, subst}
use toa.Prelude.{
  ℕ, ◌+◌, ◌-◌, ◌*◌, ◌≤◌, ◌<◌, max, ◌≡◌, refl, Bool, true, false, ◌&&◌, Option, none, some, List, [],
  ◌∷◌, arith, ltb, ◌==◌, if◌then◌else◌, Bool-cases, ltb→lt, ltb→le, ==_iff, ap, ◌∙◌, inl, inr,
}
use toa.Prelude.Maps.{lookup, insert, lookup-insert}
use toa.Throttle.Keys.{Context, Parameter, Output, get}
use toa.Throttle.Quotas.Decision.{decide-pos}
use toa.Throttle.Quotas.{
  Quotas, Entry, emission, capacity, at, arrival, charge, decide, check_keyed, check, use_quota,
  flush_entries, flush, settle_entry, settled,
}

-- What happens to a quota, in any order: requests are checked, responses are matched, ticks flush
-- it, and what other gateways have spent comes in.
pub data Event : Type 0 where
  checked : Context → List Parameter → Event
  responded : Context → Output → Event
  flushed : Event
  reconciled : ℕ → ℕ → ℕ → Event

keyed_as : ℕ → Option ℕ → Bool
keyed_as key none = false
keyed_as key (some k) = k == key

module _ (digest : String → ℕ) where
  pub step : Quotas → ℕ → Event → Quotas
  step q now (checked c ps) = (check digest q c ps now).0
  step q now (responded c output) = use_quota digest q c output now
  step q now flushed = (flush q now).0
  step q now (reconciled key delta debt) = settled q key delta debt now

  -- Whether an event lets a request of this key through.
  pub lets : ℕ → Quotas → ℕ → Event → Bool
  unfolding keyed_as
  lets key q now (checked c ps) =
      keyed_as key (get digest q.keys c ps) && (check digest q c ps now).1 == 0
  lets key q now _ = false

  -- How many requests of a key a run of events lets through.
  pub admitted : ℕ → Quotas → List (ℕ × Event) → ℕ
  admitted key q [] = 0
  admitted key q ((now, e) ∷ es) =
      (if lets key q now e then 1 else 0) + admitted key (step q now e) es

-- The events come at a clock that does not go back, from `start` up to `end`.
abbrev pub IsOrdered : ℕ → ℕ → List (ℕ × Event) → Type 0
IsOrdered start end [] = start ≤ end
IsOrdered start end ((now, e) ∷ es) = (start ≤ now) × IsOrdered now end es

-- What a quota is built with is never changed.
abbrev SameBudget : Quotas → Quotas → Type 0
SameBudget q p =
    (p.keys ≡ q.keys)
    × (p.requests ≡ q.requests)
    × (p.interval ≡ q.interval)
    × (p.conditional ≡ q.conditional)

&&-false : (b : Bool) → (b && false) ≡ false
&&-false true = refl
&&-false false = refl

flush_arrival :
    (q : Quotas) (key now later : ℕ) (es : List (ℕ × Entry))
    → at q now ≤ later
    → arrival (lookup key es) later ≤ arrival (lookup key (flush_entries q now es).0) later
unfolding flush_entries arrival
flush_arrival q key now later [] h = omega arith
flush_arrival q key now later ((k, e) ∷ es) h = ground (arith, flush_arrival q key now later es h)

-- Of an unconditional quota no event lowers the arrival time of a key, and one that lets a request
-- of it through raises it by an emission, to within the capacity.
abbrev Moves : Quotas → ℕ → ℕ → Bool → Quotas → Type 0
Moves q key now admits p =
    SameBudget q p
    × (arrival (lookup key q.entries) (at q now) + (if admits then emission q else 0)
        ≤ arrival (lookup key p.entries) (at q now))
    × (admits ≡ true
        → arrival (lookup key q.entries) (at q now) + emission q ≤ at q now + capacity q)

arrival-insert :
    (key k : ℕ) (x : Entry) (es : List (ℕ × Entry)) (t : ℕ)
    → arrival (lookup key (insert k x es)) t
      ≡ (if key == k then max x.tat t else arrival (lookup key es) t)
unfolding arrival
arrival-insert key k x es t = rw (lookup-insert key k x es) (ground arith)

-- A write under a key that lowers nothing, and under the key that is charged raises it enough.
insert-Moves :
    (q : Quotas) (k key now : ℕ) (x : Entry) (admits : Bool)
    → arrival (lookup k q.entries) (at q now) + (if admits then emission q else 0)
      ≤ max x.tat (at q now)
    → (admits ≡ true → arrival (lookup k q.entries) (at q now) + emission q ≤ at q now + capacity q)
    → Moves q key now (k == key && admits) (record q { entries = insert k x q.entries })
insert-Moves q k key now x admits raised fits = elim (Bool-cases (k == key)) [
  | inl same ↦
      let e : k ≡ key = (==_iff k key).0 same in
      let o = ap (λ j. arrival (lookup j q.entries) (at q now)) e in
      ground (arith, arrival-insert key k x q.entries (at q now))
  | inr other ↦ ground (arith, arrival-insert key k x q.entries (at q now))
]

charge-Moves :
    (q : Quotas) (k key now : ℕ) (o : Option Entry)
    → o ≡ lookup k q.entries
    → arrival o (at q now) + emission q ≤ at q now + capacity q
    → Moves q key now (k == key && true) (charge q k o (arrival o (at q now)))
unfolding charge
charge-Moves q k key now none e fits =
    let o = ap (λ x. arrival x (at q now)) e in
    insert-Moves q k key now _ true (omega arith) (λ _. omega arith)
charge-Moves q k key now (some x) e fits =
    let o = ap (λ x. arrival x (at q now)) e in
    insert-Moves q k key now _ true (omega arith) (λ _. omega arith)

Moves-idle : (q : Quotas) (key now : ℕ) → Moves q key now false q
Moves-idle q key now = ground arith

decide-charge :
    (q : Quotas) (k now : ℕ)
    → q.conditional ≡ false
    → arrival (lookup k q.entries) (at q now) + emission q ≤ at q now + capacity q
    → decide q k now
      ≡ (charge q k (lookup k q.entries) (arrival (lookup k q.entries) (at q now)), 0)
unfolding decide
decide-charge q k now u fits = ground arith

decide-Moves :
    (q : Quotas) (k key now : ℕ)
    → 0 < q.requests
    → q.conditional ≡ false
    → Moves q key now (k == key && (decide q k now).1 == 0) (decide q k now).0
unfolding decide
decide-Moves q k key now r u =
    elim (Bool-cases
      (ltb (at q now + capacity q) (arrival (lookup k q.entries) (at q now) + emission q))) [
        | inl over ↦
            let waits = decide-pos q k now r (ltb→lt _ _ over) in
            ground (arith, Moves-idle q key now)
        | inr fits ↦
            rw (decide-charge q k now u (ltb→le _ _ fits))
              (charge-Moves q k key now (lookup k q.entries) refl (ltb→le _ _ fits))
      ]

raise-Moves :
    (q : Quotas) (k key now : ℕ) (x : Entry)
    → arrival (lookup k q.entries) (at q now) ≤ max x.tat (at q now)
    → Moves q key now false (record q { entries = insert k x q.entries })
raise-Moves q k key now x raised =
    subst (λ b. Moves q key now b (record q { entries = insert k x q.entries }))
      (&&-false (k == key)) (insert-Moves q k key now x false (omega arith) (λ h. cc))

settle_entry-Moves :
    (q : Quotas) (k key delta debt now : ℕ) (o : Option Entry)
    → o ≡ lookup k q.entries
    → Moves q key now false (settle_entry q k delta debt now o)
unfolding settle_entry arrival
settle_entry-Moves q k key delta debt now none e =
    let o = ap (λ x. arrival x (at q now)) e in
    elim (Bool-cases (ltb 0 debt)) [
      | inl some_debt ↦ rw some_debt (raise-Moves q k key now _ (grind arith))
      | inr no_debt ↦ rw no_debt (Moves-idle q key now)
    ]
settle_entry-Moves q k key delta debt now (some x) e =
    let o = ap (λ x. arrival x (at q now)) e in raise-Moves q k key now _ (omega arith)

flush-Moves : (q : Quotas) (key now : ℕ) → Moves q key now false (flush q now).0
unfolding flush
flush-Moves q key now = ground (arith, flush_arrival q key now (at q now) q.entries)

check_keyed-Moves :
    (q : Quotas) (key now : ℕ) (c : Context) (o : Option ℕ)
    → 0 < q.requests
    → q.conditional ≡ false
    → Moves q key now (keyed_as key o && (check_keyed q c now o).1 == 0) (check_keyed q c now o).0
unfolding check_keyed keyed_as
check_keyed-Moves q key now c none r u = Moves-idle q key now
check_keyed-Moves q key now c (some k) r u =
    decide-Moves (record q { keyed = insert c.id k q.keyed }) k key now r u

use_quota_idle :
    (digest : String → ℕ) (q : Quotas) (c : Context) (output : Output) (now : ℕ)
    → q.conditional ≡ false
    → use_quota digest q c output now ≡ q
unfolding use_quota
use_quota_idle digest q c output now u = ground arith

step-Moves :
    (digest : String → ℕ) (q : Quotas) (key now : ℕ) (e : Event)
    → 0 < q.requests
    → q.conditional ≡ false
    → Moves q key now (lets digest key q now e) (step digest q now e)
unfolding step lets
step-Moves digest q key now (checked c ps) r u =
    unfold check in check_keyed-Moves q key now c (get digest q.keys c ps) r u
step-Moves digest q key now (responded c output) r u =
    rw (use_quota_idle digest q c output now u) (Moves-idle q key now)
step-Moves digest q key now flushed r u = flush-Moves q key now
step-Moves digest q key now (reconciled k delta debt) r u =
    unfold settled in settle_entry-Moves q k key delta debt now (lookup k q.entries) refl

arrival_mono : (o : Option Entry) (t t' : ℕ) → t ≤ t' → arrival o t ≤ arrival o t'
unfolding arrival
arrival_mono none t t' h = h
arrival_mono (some e) t t' h = omega arith

one_more :
    (b : Bool) (n i base : ℕ)
    → base + ((if b then 1 else 0) + n) * i ≡ base + (if b then i else 0) + n * i
one_more true n i base = omega arith
one_more false n i base = omega arith

-- A step of the bound, over the budget that no step changes.
advance :
    (digest : String → ℕ) (key base t now r i : ℕ) (q : Quotas) (e : Event)
    → 0 < r
    → q.conditional ≡ false
    → q.requests ≡ r
    → q.interval ≡ i
    → t ≤ now
    → base ≤ arrival (lookup key q.entries) (t * r)
    → base ≤ t * r + i * r
    → let p = step digest q now e in
      let base' = base + (if lets digest key q now e then i else 0) in
      (p.conditional ≡ false)
      × (p.requests ≡ r)
      × (p.interval ≡ i)
      × (base' ≤ arrival (lookup key p.entries) (now * r))
      × (base' ≤ now * r + i * r)
advance digest key base t now r i q e pos u er ei le low high =
    let (same, raised, fits) = step-Moves digest q key now e (omega arith) u in
    let p = step digest q now e in
    let later = mul-le-mul_right r le in
    let mono = arrival_mono (lookup key q.entries) (t * r) (now * r) later in
    let at_q = ap (λ x. arrival (lookup key q.entries) (now * x)) er in
    let at_p = ap (λ x. arrival (lookup key p.entries) (now * x)) er in
    let clock = ap (λ x. now * x) er in
    let cap_q = ap₂ (λ x y. x * y) ei er in
    (same.3 ∙ u, same.1 ∙ er, same.2 ∙ ei, ground arith, ground arith)

-- What a run lets through, on top of what is already accounted for in a key's arrival time.
admitted_above :
    (digest : String → ℕ) (key base t end r i : ℕ) (q : Quotas) (es : List (ℕ × Event))
    → 0 < r
    → q.conditional ≡ false
    → q.requests ≡ r
    → q.interval ≡ i
    → IsOrdered t end es
    → base ≤ arrival (lookup key q.entries) (t * r)
    → base ≤ t * r + i * r
    → base + admitted digest key q es * i ≤ end * r + i * r
unfolding admitted
admitted_above digest key base t end r i q [] pos u er ei o low high =
    let later = mul-le-mul_right r o in omega arith
admitted_above digest key base t end r i q ((now, e) ∷ es) pos u er ei (le, o) low high =
    let (pu, pr, pi, plow, phigh) = advance digest key base t now r i q e pos u er ei le low high in
    let p = step digest q now e in
    let b = lets digest key q now e in
    rw (one_more b (admitted digest key p es) i base) (
      admitted_above digest key (base + (if b then i else 0)) now end r i p es pos pu pr pi o plow
        phigh)

arrival-le : (o : Option Entry) (t : ℕ) → t ≤ arrival o t
unfolding arrival
arrival-le none t = omega arith
arrival-le (some e) t = omega arith

IsOrdered-le : (start end : ℕ) (es : List (ℕ × Event)) → IsOrdered start end es → start ≤ end
IsOrdered-le start end [] o = o
IsOrdered-le start end ((now, e) ∷ es) (le, o) = omega (arith, IsOrdered-le now end es o)

sub_mul : (a b r x cap' : ℕ) → a ≤ b → a * r + x ≤ b * r + cap' → x ≤ cap' + (b - a) * r
sub_mul a b r x c le h =
    let d : b ≡ a + (b - a) = omega arith in
    let m : b * r ≡ (a + (b - a)) * r = ap (λ y. y * r) d in omega arith

-- However requests, responses, ticks and reports of other gateways are interleaved between two
-- moments, an unconditional quota lets a key through at most `requests` times, and once more for
-- each `interval / requests` that passes; both sides are multiplied by `interval`.
pub admitted_bounded :
    (digest : String → ℕ) (q : Quotas) (key start end : ℕ) (es : List (ℕ × Event))
    → 0 < q.requests
    → q.conditional ≡ false
    → IsOrdered start end es
    → admitted digest key q es * q.interval ≤ q.interval * q.requests + (end - start) * q.requests
admitted_bounded digest q key start end es r u o =
    sub_mul start end q.requests _ _ (IsOrdered-le start end es o) (
      admitted_above digest key (start * q.requests) start end q.requests q.interval q es r u refl
        refl o (arrival-le (lookup key q.entries) (start * q.requests)) (omega arith))
