-- ===== src/Cadence/Schedule.antt =====
-- A calendar's next call, kept stored: extensions/cadence/source/Schedule.ts.
--
-- The clock and the metronome's answers are events. A timer wakes when it was set for, or earlier;
-- the row's id, which is derived of the region, the endpoint and the moment, is a parameter.
pub mod Awaits
use toa.Prelude.{
  ℕ, ◌+◌, ◌-◌, ◌*◌, ◌^◌, min, Bool, true, false, not, ◌||◌, ◌&&◌, Option, none, some, List, [], ◌∷◌,
  leb, ◌==◌, if◌then◌else◌,
}
use toa.Cadence.Row.{Call, Stored, row}

-- `overdue` is in seconds.
pub record Definition : Type 0 where
  pub endpoint : ℕ
  pub overdue : Option ℕ
  pub region : Option ℕ

pub record Schedule : Type 0 where
  pub endpoint : ℕ
  -- milliseconds
  pub overdue : Option ℕ
  pub region : ℕ
  pub at : Option ℕ
  -- when the timer wakes
  pub timer : Option ℕ
  pub closing : Bool
  pub quiesced : Bool

-- `constructor`, by the rank of the deployment
unfoldable pub new : Definition → ℕ → Schedule
new d rank = record {
  endpoint = d.endpoint;
  overdue = elim d.overdue [ none ↦ none | some seconds ↦ some (seconds * 1000) ];
  region = elim d.region [ none ↦ rank | some region ↦ region ];
  at = none;
  timer = none;
  closing = false;
  quiesced = false;
}

abbrev pub max_delay : ℕ
max_delay = 2 ^ 31 - 1

-- whether the next occurrence is asked for
abbrev pub came : Option ℕ → ℕ → Bool
came none now = true
came (some at) now = leb at now

pub wait : Schedule → ℕ → ℕ → Schedule
wait s now at = record s { at = some at; timer = some (now + min (at - now) max_delay) }

-- the next occurrence, if there is one, is stored
pub hand_over : Schedule → ℕ → Option ℕ → Schedule × Option ℕ
unfolding wait
hand_over s now none = (s, none)
hand_over s now (some at) = (wait s now at, some at)

wait_on : Schedule → ℕ → Option ℕ → Schedule
unfolding wait
wait_on s now none = s
wait_on s now (some at) = wait s now at

-- `tick`, with the moment that is stored, by what comes next (`this.next`)
unfoldable pub tick : (ℕ → Option ℕ) → ℕ → Schedule → Schedule × Option ℕ
unfolding hand_over wait_on
tick next now s =
    if s.closing || s.quiesced
    then (s, none)
    else if came s.at now
    then hand_over s now (next now)
    else (wait_on s now s.at, none)

-- `close`, with `disarm`
pub close : Schedule → Schedule
close s = record s { closing = true; timer = none }

pub pause : Schedule → Schedule
pause s = record s { quiesced = true; timer = none }

pub unpause : (ℕ → Option ℕ) → ℕ → Schedule → Schedule × Option ℕ
unfolding tick
unpause next now s = tick next now (record s { quiesced = false; at = none })

pub late : (ℕ → Option ℕ) → Schedule → ℕ → Option ℕ
late next s at = elim s.overdue [
  | some overdue ↦ some overdue
  | none ↦ elim (next at) [ none ↦ none | some after ↦ some (after - at) ]
]

-- What `store` hands over: the request of a moment is `ask at`.
pub handed : (ℕ → Option ℕ) → (ℕ → ℕ) → Schedule → ℕ → Call
unfolding late
handed next ask s at = record {
  endpoint = s.endpoint;
  due = at;
  overdue = late next s at;
  request = some (ask at);
  trail = none;
}

pub stored : (ℕ → Option ℕ) → (ℕ → ℕ) → ℕ → Schedule → ℕ → Stored
unfolding handed
stored next ask lane s at = row lane (handed next ask s at)

-- A moment that could not be stored is tried again while it is waited for.
pub retry : ℕ → Schedule → Option ℕ
retry at s =
    if s.closing || s.quiesced
    then none
    else elim s.at [ none ↦ none | some waited ↦ if waited == at then some at else none ]

-- The timer wakes or the schedule opens; a retry is due; the process is quiet, works or closes.
pub data Event : Type 0 where
  woken : ℕ → Event
  retried : ℕ → Event
  paused : Event
  resumed : ℕ → Event
  closed : Event

-- The schedule after an event, and the moment that is stored.
unfoldable pub step : (ℕ → Option ℕ) → Schedule → Event → Schedule × Option ℕ
unfolding tick unpause retry
step next s (woken now) = tick next now s
step next s (retried at) = (s, retry at s)
step next s paused = (pause s, none)
step next s (resumed now) = unpause next now s
step next s closed = (close s, none)

-- The moments that are stored over a run, in order.
pub stores : (ℕ → Option ℕ) → Schedule → List Event → List ℕ
unfolding step
stores next s [] = []
stores next s (e ∷ es) =
    let rest = stores next (step next s e).0 es in
    elim (step next s e).1 [ none ↦ rest | some at ↦ at ∷ rest ]
