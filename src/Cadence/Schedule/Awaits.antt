-- ===== src/Cadence/Schedule/Awaits.antt =====
-- What a calendar stores, and what it waits for: extensions/cadence/source/Schedule.ts.
use toa.Prelude.{
  ℕ, ◌+◌, ◌-◌, ◌≤◌, ◌<◌, min, ◌≡◌, refl, sym, ◌∙◌, ◌⊎◌, inl, inr, false, ◌||◌, Option, none, some,
  List, [], ◌∷◌, arith, leb, if◌then◌else◌, Bool-cases,
}
use toa.Cadence.Row.{row-expires}
use toa.Cadence.Schedule.{
  Definition, Schedule, new, max_delay, came, wait, hand_over, wait_on, tick, close, pause, unpause,
  late, handed, stored, retry, Event, woken, retried, paused, resumed, closed, step, stores,
}

-- `this.next` answers the first moment after the one it is given.
abbrev pub IsFirst : (ℕ → Option ℕ) → Type 0
IsFirst next =
    (after at t : ℕ) → next after ≡ some at → (after < at) × (after ≤ t → t < at → next t ≡ some at)

-- What is waited for came, or is what comes next.
IsCurrent : (ℕ → Option ℕ) → ℕ → Option ℕ → Type 0
IsCurrent next t none = Unit
IsCurrent next t (some at) = (at ≤ t) ⊎ (next t ≡ some at)

later-IsCurrent :
    (next : ℕ → Option ℕ) (t t' : ℕ) (o : Option ℕ)
    → IsFirst next
    → t ≤ t'
    → IsCurrent next t o
    → IsCurrent next t' o
unfolding IsCurrent
later-IsCurrent next t t' none first le h = tt
later-IsCurrent next t t' (some at) first le (inl past) = inl (omega arith)
later-IsCurrent next t t' (some at) first le (inr ahead) = elim (Bool-cases (leb at t')) [
  | inl past ↦ inl (ground arith)
  | inr before ↦ inr ((first t at t' ahead).1 le (ground arith))
]

waits-next :
    (next : ℕ → Option ℕ) (now at : ℕ) (s : Schedule) (o : Option ℕ)
    → IsFirst next
    → IsCurrent next now o
    → next now ≡ some at
    → (if came o now then hand_over s now (next now) else (wait_on s now o, none)).0 ≡ wait s now at
unfolding IsCurrent hand_over wait_on
waits-next next now at s none first current e = rw e refl
waits-next next now at s (some a) first (inl past) e = grind arith
waits-next next now at s (some a) first (inr ahead) e =
    let (lt, _) = first now at now e in let same : a ≡ at = ground arith in grind arith

-- A wake-up of a schedule that works waits for what comes next from now, whatever it waited for.
tick-wait :
    (next : ℕ → Option ℕ) (now at : ℕ) (s : Schedule)
    → IsFirst next
    → IsCurrent next now s.at
    → (s.closing || s.quiesced) ≡ false
    → next now ≡ some at
    → (tick next now s).0 ≡ wait s now at
unfolding tick
tick-wait next now at s first current works e =
    rw works (waits-next next now at s s.at first current e)

-- The time of an event, after an earlier one.
abbrev pub time : ℕ → Event → ℕ
time t (woken now) = now
time t (resumed now) = now
time t _ = t

-- A clock that does not go back.
abbrev pub IsOrdered : ℕ → List Event → Type 0
IsOrdered t [] = Unit
IsOrdered t (e ∷ es) = (t ≤ time t e) × IsOrdered (time t e) es

-- A moment is not before the last one, if there was one.
abbrev Follows : Option ℕ → ℕ → Type 0
Follows none at = Unit
Follows (some last) at = last ≤ at

abbrev pub IsAscending : Option ℕ → List ℕ → Type 0
IsAscending last [] = Unit
IsAscending last (at ∷ ats) = Follows last at × IsAscending (some at) ats

-- Nothing is waited for, or what was stored last, which came or comes next.
Keeps : (ℕ → Option ℕ) → ℕ → Option ℕ → Schedule → Type 0
Keeps next t last s = ((s.at ≡ none) ⊎ (s.at ≡ last)) × IsCurrent next t last

Stores : (ℕ → Option ℕ) → ℕ → Option ℕ → Schedule × Option ℕ → Type 0
Stores next t last (s, none) = Keeps next t last s
Stores next t last (s, some at) = Follows last at × Keeps next t (some at) s

following_last :
    (next : ℕ → Option ℕ) (now at : ℕ) (last : Option ℕ)
    → IsFirst next
    → IsCurrent next now last
    → next now ≡ some at
    → Follows last at
unfolding IsCurrent
following_last next now at none first h e = tt
following_last next now at (some b) first (inl past) e =
    let (lt, _) = first now at now e in omega arith
following_last next now at (some b) first (inr ahead) e = ground arith

hand_over-Stores :
    (next : ℕ → Option ℕ) (now : ℕ) (last : Option ℕ) (s : Schedule) (o : Option ℕ)
    → IsFirst next
    → Keeps next now last s
    → next now ≡ o
    → Stores next now last (hand_over s now o)
unfolding Keeps Stores hand_over wait IsCurrent
hand_over-Stores next now last s none first h e = h
hand_over-Stores next now last s (some at) first h e =
    (following_last next now at last first h.1 e, (inr refl, inr e))

wait_on-Keeps :
    (next : ℕ → Option ℕ) (now : ℕ) (last : Option ℕ) (s : Schedule) (o : Option ℕ)
    → s.at ≡ o
    → Keeps next now last s
    → Keeps next now last (wait_on s now o)
unfolding Keeps wait_on wait
wait_on-Keeps next now last s none e h = h
wait_on-Keeps next now last s (some at) e (inl idle, h) = cc
wait_on-Keeps next now last s (some at) e (inr same, h) = (inr (sym e ∙ same), h)

tick-Stores :
    (next : ℕ → Option ℕ) (now : ℕ) (last : Option ℕ) (s : Schedule)
    → IsFirst next
    → Keeps next now last s
    → Stores next now last (tick next now s)
unfolding tick Stores
tick-Stores next now last s first h = elim (Bool-cases (s.closing || s.quiesced)) [
  | inl idle ↦ rw idle h
  | inr works ↦ elim (Bool-cases (came s.at now)) [
    | inl over ↦ rw (works, over) (hand_over-Stores next now last s (next now) first h refl)
    | inr waits ↦ rw (works, waits) (wait_on-Keeps next now last s s.at refl h)
  ]
]

kept-Stores :
    (next : ℕ → Option ℕ) (t : ℕ) (last : Option ℕ) (s : Schedule) (o : Option ℕ)
    → Keeps next t last s
    → ((at : ℕ) → o ≡ some at → s.at ≡ some at)
    → Stores next t last (s, o)
unfolding Keeps Stores
kept-Stores next t last s none h waited = h
kept-Stores next t last s (some at) (inl idle, current) waited =
    let gone = sym idle ∙ waited at refl in cc
kept-Stores next t last s (some at) (inr same, current) waited =
    let e = sym (waited at refl) ∙ same in
    rw (sym e) (omega arith, (inr (waited at refl), rw e current))

retry-Stores :
    (next : ℕ → Option ℕ) (t at : ℕ) (last : Option ℕ) (s : Schedule)
    → Keeps next t last s
    → Stores next t last (s, retry at s)
unfolding retry
retry-Stores next t at last s h = kept-Stores next t last s (retry at s) h (λ a e. ground arith)

step-Stores :
    (next : ℕ → Option ℕ) (t : ℕ) (last : Option ℕ) (s : Schedule) (e : Event)
    → IsFirst next
    → t ≤ time t e
    → Keeps next t last s
    → Stores next (time t e) last (step next s e)
unfolding step Stores unpause pause close Keeps
step-Stores next t last s (woken now) first le (waits, current) =
    tick-Stores next now last s first (waits, later-IsCurrent next t now last first le current)
step-Stores next t last s (resumed now) first le (waits, current) =
    tick-Stores next now last (record s { quiesced = false; at = none }) first
      (inl refl, later-IsCurrent next t now last first le current)
step-Stores next t last s (retried at) first le h = retry-Stores next t at last s h
step-Stores next t last s paused first le h = h
step-Stores next t last s closed first le h = h

ascend :
    (next : ℕ → Option ℕ) (t : ℕ) (last : Option ℕ) (s : Schedule) (o : Option ℕ) (ats : List ℕ)
    → Stores next t last (s, o)
    → ((l : Option ℕ) → Keeps next t l s → IsAscending l ats)
    → IsAscending last (elim o as (λ _. List ℕ) [ none ↦ ats | some at ↦ at ∷ ats ])
unfolding Stores
ascend next t last s none ats h rest = rest last h
ascend next t last s (some at) ats (le, h) rest = (le, rest (some at) h)

stores_ascend :
    (next : ℕ → Option ℕ) (t : ℕ) (last : Option ℕ) (s : Schedule) (es : List Event)
    → IsFirst next
    → Keeps next t last s
    → IsOrdered t es
    → IsAscending last (stores next s es)
unfolding stores
stores_ascend next t last s [] first h o = tt
stores_ascend next t last s (e ∷ es) first h (le, o) =
    let r = step next s e in
    ascend next (time t e) last r.0 r.1 (stores next r.0 es)
      (step-Stores next t last s e first le h)
      (λ l h'. stores_ascend next (time t e) l r.0 es first h' o)

-- Whatever wake-ups, retries and pauses there are, a schedule whose clock does not go back stores
-- the moments of its calendar in their order: none after one that is later.
pub stores-IsAscending :
    (next : ℕ → Option ℕ) (d : Definition) (rank t : ℕ) (es : List Event)
    → IsFirst next
    → IsOrdered t es
    → IsAscending none (stores next (new d rank) es)
unfolding new
stores-IsAscending next d rank t es first o =
    stores_ascend next t none (new d rank) es first (unfold Keeps IsCurrent in (inl refl, tt)) o

-- The schedule after a run.
unfoldable pub after : (ℕ → Option ℕ) → Schedule → List Event → Schedule
after next s [] = s
after next s (e ∷ es) = after next (step next s e).0 es

-- The time of the last event of a run.
abbrev pub last_time : ℕ → List Event → ℕ
last_time t [] = t
last_time t (e ∷ es) = last_time (time t e) es

IsCurrent-of :
    (next : ℕ → Option ℕ) (t : ℕ) (last : Option ℕ) (r : Schedule × Option ℕ)
    → Stores next t last r
    → IsCurrent next t r.0.at
unfolding Stores Keeps IsCurrent
IsCurrent-of next t last (s, none) (inl idle, h) = rw idle tt
IsCurrent-of next t last (s, none) (inr same, h) = rw same h
IsCurrent-of next t last (s, some at) (le, (inl idle, h)) = rw idle tt
IsCurrent-of next t last (s, some at) (le, (inr same, h)) = rw same h

after-IsCurrent :
    (next : ℕ → Option ℕ) (t : ℕ) (s : Schedule) (es : List Event)
    → IsFirst next
    → IsOrdered t es
    → IsCurrent next t s.at
    → IsCurrent next (last_time t es) (after next s es).at
unfolding after
after-IsCurrent next t s [] first o h = h
after-IsCurrent next t s (e ∷ es) first (le, o) h =
    let kept = step-Stores next t s.at s e first le (unfold Keeps in (inr refl, h)) in
    after-IsCurrent next (time t e) (step next s e).0 es first o
      (IsCurrent-of next (time t e) s.at (step next s e) kept)

-- After any run of wake-ups, retries and pauses on a clock that does not go back, a schedule that
-- works and wakes waits for the first moment of its calendar from now: none is passed over, and it
-- does not wait for one that is past.
pub after-tick :
    (next : ℕ → Option ℕ) (d : Definition) (rank t now at : ℕ) (es : List Event)
    → IsFirst next
    → IsOrdered t es
    → last_time t es ≤ now
    → ((after next (new d rank) es).closing || (after next (new d rank) es).quiesced) ≡ false
    → next now ≡ some at
    → (tick next now (after next (new d rank) es)).0 ≡ wait (after next (new d rank) es) now at
unfolding new
after-tick next d rank t now at es first o le works e =
    let s = after next (new d rank) es in
    let current = after-IsCurrent next t (new d rank) es first o (unfold IsCurrent in tt) in
    tick-wait next now at s first (later-IsCurrent next (last_time t es) now s.at first le current)
      works e

-- A timer for a moment ahead wakes after now, no later than the moment, and within what one timer
-- can wait.
pub wait_bounds :
    (s : Schedule) (now at : ℕ)
    → now < at
    → (wakes : ℕ) × ((wait s now at).timer ≡ some wakes)
      × (now < wakes)
      × (wakes ≤ at)
      × (wakes ≤ now + max_delay)
unfolding wait
wait_bounds s now at lt =
    (now + min (at - now) max_delay, refl, omega arith, omega arith, omega arith)

-- A call that is stored without a bound of its own is owed until the next one is due, and no longer.
pub stored-expires :
    (next : ℕ → Option ℕ) (ask : ℕ → ℕ) (lane : ℕ) (s : Schedule) (at after_at : ℕ)
    → IsFirst next
    → s.overdue ≡ none
    → next at ≡ some after_at
    → (stored next ask lane s at).expires ≡ after_at
unfolding stored handed late
stored-expires next ask lane s at after_at first e h =
    let (lt, _) = first at after_at at h in
    let bounded = row-expires lane (after_at - at) (handed next ask s at) (grind arith) in
    omega (arith, bounded)
