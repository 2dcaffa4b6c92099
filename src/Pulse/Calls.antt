-- ===== src/Pulse/Calls.antt =====
-- Which intervals a pulse calls its operation for.
use toa.Prelude.{
  ℕ, ◌*◌, ◌/◌, ◌%◌, ◌≤◌, ◌<◌, ◌≡◌, ◌≢◌, refl, true, false, Option, none, some, List, [], ◌∷◌, ◌==◌,
  arith, any, ap, sym, ◌∙◌,
}
use mathlib.Core.Bool.{true≢false}
use native.Mathlib.Nat.{mul-le-mul_right}
use toa.Pulse.{
  Pulse, ordinal, arm, fire, tick, Event, woken, answered, resumed, paused, closed, step, called,
  owns, returned, unpause, pause, close,
}

div_mono : (x y c : ℕ) → x ≤ y → x / c ≤ y / c
div_mono x y c h = grind (arith)

ordinal_mono : (p : Pulse) (t t' : ℕ) → t ≤ t' → ordinal p t ≤ ordinal p t'
unfolding ordinal
ordinal_mono p t t' h = div_mono (t * p.n) (t' * p.n) p.cycle (mul-le-mul_right p.n h)

abbrev time : ℕ → Event → ℕ
time t (woken now armed owned) = now
time t (resumed now armed) = now
time t answered = t
time t paused = t
time t closed = t

-- The clock does not go back.
unfoldable pub IsOrdered : ℕ → List Event → Type 0
IsOrdered t [] = t ≤ t
IsOrdered t (e ∷ es) = (t ≤ time t e) × IsOrdered (time t e) es

-- Each ordinal is greater than the one before, the first than a bound.
pub IsIncreasing : ℕ → List ℕ → Type 0
IsIncreasing b [] = b ≤ b
IsIncreasing b (x ∷ xs) = (b < x) × IsIncreasing x xs

weaken : (b b' : ℕ) (xs : List ℕ) → b ≤ b' → IsIncreasing b' xs → IsIncreasing b xs
unfolding IsIncreasing
weaken b b' [] le h = omega arith
weaken b b' (x ∷ xs) le (h, hs) = (omega arith, hs)

Called : Pulse → Option ℕ → Pulse → Type 0
Called p none p' = p.fired ≤ p'.fired
Called p (some i) p' = (p.fired < i) × (p'.fired ≡ i)

Moves : Pulse → ℕ → Pulse × Option ℕ → Type 0
Moves p now (p', o) =
    (p'.n ≡ p.n) × (p'.cycle ≡ p.cycle) × (p'.fired ≤ ordinal p now) × Called p o p'

tick-Moves :
    (p : Pulse) (now armed : ℕ) (owned : Option (List ℕ))
    → p.fired ≤ ordinal p now
    → Moves p now (tick p now armed owned)
unfolding Moves Called tick arm fire
tick-Moves p now armed owned h = ground arith

step-Moves :
    (p : Pulse) (t : ℕ) (e : Event) → p.fired ≤ ordinal p (time t e) → Moves p (time t e) (step p e)
unfolding Moves Called step returned unpause pause close
step-Moves p t (woken now armed owned) h = tick-Moves p now armed owned h
step-Moves p t answered h = (refl, refl, h, omega arith)
step-Moves p t (resumed now armed) h = (refl, refl, omega arith, h)
step-Moves p t paused h = (refl, refl, h, omega arith)
step-Moves p t closed h = (refl, refl, h, omega arith)

same_ordinal : (p p' : Pulse) (t : ℕ) → p'.n ≡ p.n → p'.cycle ≡ p.cycle → ordinal p' t ≡ ordinal p t
unfolding ordinal
same_ordinal p p' t n c = rw (n, c) refl

called_step :
    (p : Pulse) (es : List Event) (r : Pulse × Option ℕ)
    → Called p r.1 r.0
    → IsIncreasing r.0.fired (called r.0 es)
    → IsIncreasing p.fired
        (elim r.1 as (λ _. List ℕ) [ none ↦ called r.0 es | some i ↦ i ∷ called r.0 es ])
unfolding Called IsIncreasing
called_step p es (p', none) h hs = weaken p.fired p'.fired (called p' es) h hs
called_step p es (p', some i) (h, same) hs = (h, weaken i p'.fired (called p' es) (omega arith) hs)

-- Over any run of wake-ups, early or late, of pauses and of calls that return, a pulse whose clock
-- does not go back calls its operation for each ordinal at most once, in their order, and for none
-- that it had handled before.
pub called-IsIncreasing :
    (p : Pulse) (t : ℕ) (es : List Event)
    → p.fired ≤ ordinal p t
    → IsOrdered t es
    → IsIncreasing p.fired (called p es)
unfolding called IsOrdered IsIncreasing Moves
called-IsIncreasing p t [] h o = omega arith
called-IsIncreasing p t (e ∷ es) h (le, o) =
    let r = step p e in
    let mono = ordinal_mono p t (time t e) le in
    let (n, c, fired, call) = step-Moves p t e (omega arith) in
    let same = same_ordinal p r.0 (time t e) n c in
    called_step p es r call (called-IsIncreasing r.0 (time t e) es (omega arith) o)

-- What a pulse that is divided calls for is in an interval of its replica.
tick_owned :
    (p : Pulse) (now armed i : ℕ) (slots : List ℕ)
    → p.divided ≡ true
    → (tick p now armed (some slots)).1 ≡ some i
    → any (λ x. x == i % p.n) slots ≡ true
unfolding tick fire owns
tick_owned p now armed i slots d h = ground arith

-- Two replicas that own no interval together never both call for the same ordinal.
pub tick_disjoint :
    (p p' : Pulse) (now now' armed armed' i : ℕ) (slots slots' : List ℕ)
    → p.divided ≡ true
    → p'.divided ≡ true
    → p'.n ≡ p.n
    → ((k : ℕ) → any (λ x. x == k) slots ≡ true → any (λ x. x == k) slots' ≡ false)
    → (tick p now armed (some slots)).1 ≡ some i
    → (tick p' now' armed' (some slots')).1 ≢ some i
tick_disjoint p p' now now' armed armed' i slots slots' d d' n apart h h' =
    let mine = tick_owned p now armed i slots d h in
    let theirs = tick_owned p' now' armed' i slots' d' h' in
    let no = apart (i % p.n) mine in
    let same = ap (λ k. any (λ x. x == i % k) slots') n in true≢false (sym theirs ∙ same ∙ no)
