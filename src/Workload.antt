-- ===== src/Workload.antt =====
-- A process that is stopped for a time and comes back: `Workload` of runtime/boot/src/workload.js,
-- over what `down`, `up`, `holding` and `remaining` of runtime/core/source/gate.ts do.
--
-- What a workload awaits is an event, and its phase says what it awaits. Events come in any order;
-- one that is not awaited does nothing. What a gate builds, and whether it connects, is what the
-- event says of it.
pub mod Cycle
mod Due
mod Held
pub mod Return
mod Tests
use toa.Prelude.{
  ℕ, zero, suc, ◌+◌, ◌-◌, ◌*◌, ◌^◌, ◌/◌, Bool, true, false, not, ◌&&◌, ◌||◌, Option, none, some,
  List, [], ◌∷◌, ◌==◌, leb, length, map, if◌then◌else◌,
}

pub record Gate : Type 0 where
  -- whether what it holds is up, and when that comes back where it is halted, or 0
  pub live : Bool
  pub resumes_at : ℕ

-- `remaining`
pub remaining : Gate → ℕ → ℕ
remaining g now = if g.resumes_at == 0 then 0 else (g.resumes_at - now + 999) / 1000

-- `down`, up to where it awaits
down : ℕ → ℕ → Gate → Gate
down seconds now g =
    if g.live
    then record { live = false; resumes_at = if seconds == 0 then 0 else now + seconds * 1000 }
    else g

-- `up`, up to where it awaits, and what it ends with
rise : Gate → Gate
rise g = record g { resumes_at = 0 }

hold : Gate → Gate
hold g = record g { live = true }

pub data Phase : Type 0 where
  idle : Phase
  -- told to stop for so many seconds, before the next tick
  called : ℕ → Phase
  -- `await this.halt()`, with when it comes back
  pausing : ℕ → ℕ → Phase
  -- the gate of this index is coming down
  lowering : ℕ → ℕ → ℕ → Phase
  -- for the timer
  waiting : Phase
  -- the gate of this index is being built
  raising : ℕ → Phase
  -- `await this.restore()`
  restoring : Phase
  -- the resume failed
  ended : Phase

pub record Workload : Type 0 where
  pub connected : Bool
  pub halting : Bool
  pub quiesced : Bool
  -- of halting.ts
  pub underway : Bool
  -- when the timer fires
  pub timer : Option ℕ
  pub gates : List Gate
  pub phase : Phase

-- `this.#gates.every((gate) => gate.holding())`
pub all_holding : List Gate → Bool
all_holding [] = true
all_holding (g ∷ gs) = g.live && all_holding gs

pub running : Workload → Bool
unfolding all_holding
running w = not w.halting && all_holding w.gates

quiesce : Workload → Workload
quiesce w = if w.halting || w.quiesced || not w.connected then w else record w { quiesced = true }

cancel : Workload → Workload
cancel w = if w.halting || not w.quiesced then w else record w { quiesced = false }

pub stop : ℕ → Workload → Workload
stop seconds w =
    if w.halting || not w.connected then w else record w { halting = true; phase = called seconds }

change : (Gate → Gate) → ℕ → List Gate → List Gate
change f i [] = []
change f zero (g ∷ gs) = f g ∷ gs
change f (suc i) (g ∷ gs) = g ∷ change f i gs

-- The loop of `#resume`, which comes to a gate.
pub raise_from : ℕ → Workload → Workload
unfolding change rise
raise_from i w =
    if leb (length w.gates) i
    then record w { phase = restoring }
    else record w { gates = change rise i w.gates; phase = raising i }

resume : Workload → Workload
unfolding raise_from
resume w = raise_from 0 (record w { timer = none })

-- The longest that a timer waits: one that is set for longer fires after a millisecond.
abbrev pub max_delay : ℕ
max_delay = 2 ^ 31 - 1

-- When a timer fires that is set for a moment.
woken : ℕ → ℕ → ℕ
woken at now = if leb (at - now) max_delay then at else now + 1

-- The end of `#cycle`.
halted : ℕ → ℕ → Workload → Workload
unfolding resume woken
halted at now w =
    if leb at now then resume w else record w { timer = some (woken at now); phase = waiting }

-- The loop of `#down`, with as many gates left.
lower : ℕ → ℕ → ℕ → ℕ → Workload → Workload
unfolding change down halted
lower seconds at now zero w = halted at now w
lower seconds at now (suc i) w = record w {
  gates = change (down seconds now) i w.gates;
  phase = lowering seconds at i;
}

pub data Event : Type 0 where
  quiesces : Event
  cancels : Event
  stops : ℕ → Event
  -- a disconnection, which closes the workload and all that it depends on
  closes : Event
  -- what is awaited has come to its end, at a time
  resolves : ℕ → Event
  -- what is awaited has failed
  rejects : Event

-- The timer, which does not fire before the time that it was set to fire.
fires : ℕ → Workload → Option ℕ → Workload
unfolding resume
fires now w none = w
fires now w (some at) = if leb at now then resume w else w

-- `#cycle` and `#resume`, from what they await on.
pub onward : ℕ → Workload → Phase → Workload
unfolding lower fires raise_from change hold
onward now w idle = w
onward now w (called seconds) = record w {
  underway = true;
  quiesced = true;
  phase = pausing seconds (now + seconds * 1000);
}
onward now w (pausing seconds at) = lower seconds at now (length w.gates) w
onward now w (lowering seconds at i) = lower seconds at now i w
onward now w waiting = fires now w w.timer
onward now w (raising i) = raise_from (suc i) (record w { gates = change hold i w.gates })
onward now w restoring = record w {
  quiesced = false;
  halting = false;
  underway = false;
  phase = idle;
}
onward now w ended = w

-- `disconnect`: `close` of the workload, and of each gate
disconnected : Workload → Workload
unfolding down
disconnected w = record w { connected = false; timer = none; gates = map (down 0 0) w.gates }

-- What failed is not gone on with; a build that fails ends the process.
failing : Workload → Phase → Workload
unfolding disconnected
failing w (raising i) = record (disconnected w) { phase = ended }
failing w (pausing seconds at) = record w { phase = ended }
failing w (lowering seconds at i) = record w { phase = ended }
failing w restoring = record w { phase = ended }
failing w idle = w
failing w (called seconds) = w
failing w waiting = w
failing w ended = w

step : Event → Workload → Workload
unfolding quiesce cancel stop onward failing disconnected
step quiesces w = quiesce w
step cancels w = cancel w
step (stops seconds) w = stop seconds w
step closes w = disconnected w
step (resolves now) w = onward now w w.phase
step rejects w = failing w w.phase

pub run : List Event → Workload → Workload
unfolding step
run [] w = w
run (e ∷ es) w = run es (step e w)
