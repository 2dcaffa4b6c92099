-- ===== src/Pulse.antt =====
-- A call that recurs on a cadence: extensions/cadence/source/Pulse.ts.
--
-- The source's integers are exact here (`BigInt`), so they are natural numbers. A timer's wake-up
-- is an event that may come early. The time that `tick` reads and the one that `arm` reads are
-- apart. Spans, measurements and the 10 seconds that closing waits for a call are left out.
pub mod Boundary
pub mod Calls
mod Tests
use toa.Prelude.{
  ℕ, ◌+◌, ◌-◌, ◌*◌, ◌/◌, ◌%◌, ◌^◌, min, Bool, true, false, not, ◌||◌, Option, none, some, List, [],
  ◌∷◌, ◌==◌, any, if◌then◌else◌,
}

pub record Definition : Type 0 where
  -- seconds
  pub cycle : ℕ
  pub intervals : ℕ

pub record Pulse : Type 0 where
  -- milliseconds
  pub cycle : ℕ
  pub n : ℕ
  -- whether there is an `atom`
  pub divided : Bool
  pub fired : ℕ
  -- when the timer wakes
  pub timer : Option ℕ
  -- whether a call is in flight
  pub firing : Bool
  pub closing : Bool
  pub quiesced : Bool

-- `constructor`
pub new : Definition → Bool → Pulse
new d divided = record {
  cycle = d.cycle * 1000;
  n = d.intervals;
  divided = divided;
  fired = 0;
  timer = none;
  firing = false;
  closing = false;
  quiesced = false;
}

unfoldable pub ordinal : Pulse → ℕ → ℕ
ordinal p now = now * p.n / p.cycle

pub index : Pulse → ℕ → ℕ
unfolding ordinal
index p now = ordinal p now % p.n

pub boundary : Pulse → ℕ → ℕ
unfolding ordinal
boundary p now = ((ordinal p now + 1) * p.cycle + p.n - 1) / p.n

abbrev pub max_delay : ℕ
max_delay = 2 ^ 31 - 1

pub arm : Pulse → ℕ → Pulse
unfolding boundary
arm p now = record p { timer = some (now + min (boundary p now - now) max_delay) }

pub open_pulse : Pulse → ℕ → ℕ → Pulse
unfolding arm
open_pulse p now armed = arm (record p { fired = ordinal p now }) armed

-- what `close` and `pause` do before they wait for the call in flight
pub close : Pulse → Pulse
close p = record p { closing = true; timer = none }

pub pause : Pulse → Pulse
pause p = record p { quiesced = true; timer = none }

pub unpause : Pulse → ℕ → ℕ → Pulse
unfolding arm
unpause p now armed = arm (record p { quiesced = false; fired = ordinal p now }) armed

-- `atom.slots(n)`: what of the intervals is this replica's
owns : Pulse → Option (List ℕ) → ℕ → Bool
owns p owned i =
    if not p.divided
    then true
    else elim owned [ none ↦ false | some slots ↦ any (λ x. x == i) slots ]

-- Whether the operation is called, and the pulse that follows.
pub fire : Pulse → Option (List ℕ) → ℕ → Pulse × Bool
unfolding owns
fire p owned i =
    if p.firing
    then (p, false)
    else if owns p owned i
    then (record p { firing = true }, true)
    else (p, false)

-- The ordinal of the interval that the operation is called for, if it is.
pub tick : Pulse → ℕ → ℕ → Option (List ℕ) → Pulse × Option ℕ
unfolding fire arm
tick p now armed owned =
    if p.closing || p.quiesced
    then (p, none)
    else if ordinal p now == p.fired
    then (arm p armed, none)
    else let (p', called) = fire (record p { fired = ordinal p now }) owned (ordinal p now % p.n) in
      (arm p' armed, if called then some (ordinal p now) else none)

-- `.finally` of a call
pub returned : Pulse → Pulse
returned p = record p { firing = false }

-- What befalls a pulse that was opened.
pub data Event : Type 0 where
  woken : ℕ → ℕ → Option (List ℕ) → Event
  answered : Event
  resumed : ℕ → ℕ → Event
  paused closed : Event

-- The pulse after an event, and the ordinal that was called for.
pub step : Pulse → Event → Pulse × Option ℕ
unfolding tick
step p (woken now armed owned) = tick p now armed owned
step p answered = (returned p, none)
step p (resumed now armed) = (unpause p now armed, none)
step p paused = (pause p, none)
step p closed = (close p, none)

-- The ordinals that are called for over a run, in order.
pub called : Pulse → List Event → List ℕ
unfolding step
called p [] = []
called p (e ∷ es) =
    let (p', o) = step p e in elim o [ none ↦ called p' es | some i ↦ i ∷ called p' es ]
