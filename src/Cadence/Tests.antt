-- ===== src/Cadence/Tests.antt =====
-- Calls due on the hour of a small clock, and rows of two lanes.
use toa.Prelude.{ℕ, ◌+◌, ◌*◌, ◌/◌, ◌≤◌, ◌≡◌, refl, ap, Option, none, some, List, [], ◌∷◌, arith}
use toa.Cadence.Row.{Occurrences, IsAhead, Stored, bound}
use toa.Cadence.Metronome.{Entry}
use toa.Cadence.Dispatcher.{Row, Dispatcher, new}
use toa.Cadence.Dispatcher.Run.{
  Event, fetched, wakes, accepted, paused, closed, written, live, calls, times, releases,
}
use toa.Cadence.Dispatcher.Counts.{calls-releases}
use toa.Cadence.Dispatcher.Quiet.{calls-closed, calls-paused}
use toa.Cadence.Schedule
use toa.Cadence.Schedule.Awaits.{IsOrdered, IsFirst, after, after-tick}

-- Every tenth moment.
abbrev tenth : ℕ → Option ℕ
tenth now = some ((now / 10 + 1) * 10)

abbrev occur : Occurrences
occur c now = tenth now

occur-IsAhead : IsAhead occur
occur-IsAhead c now at e = let next : (now / 10 + 1) * 10 ≡ at = cc e in omega arith

tenth-IsFirst : IsFirst tenth
tenth-IsFirst now at t e =
    let next : (now / 10 + 1) * 10 ≡ at = cc e in (omega arith, λ le lt. ap some (omega arith))

abbrev hourly : Stored
hourly = record {
  lane = 1;
  due = 100;
  expires = 1000;
  endpoint = 7;
  request = none;
  trail = none;
  schedule = some (3, 4);
  overdue = none;
}

abbrev entry : Entry
entry = record { id = 5; deleted = none; stored = hourly }

abbrev once : Row
once = record { id = 6; stored = record hourly { schedule = none } }

abbrev recurs : Row
recurs = record { id = 5; stored = hourly }

abbrev fresh : Dispatcher
fresh = new 60000 (0 ∷ [])

-- Scanned twice, called, settled and scanned once more.
abbrev run : List Event
run =
    fetched ((90, once) ∷ (91, recurs) ∷ [])
    ∷ fetched ((95, once) ∷ (95, recurs) ∷ [])
    ∷ wakes 1
    ∷ accepted recurs
    ∷ written ((5, 100) ∷ []) []
    ∷ fetched ((105, recurs) ∷ [])
    ∷ []

calls-releases_example : times 5 (calls occur fresh run) ≤ 1 + releases occur 5 fresh run
unfolding new live
calls-releases_example = calls-releases occur 5 fresh run refl

calls-closed_example : calls occur fresh (closed ∷ run) ≡ []
calls-closed_example = calls-closed occur fresh run

calls-paused_example :
    calls occur fresh (paused ∷ fetched ((90, recurs) ∷ []) ∷ wakes fresh.serial ∷ []) ≡ recurs ∷ []
unfolding new bound
calls-paused_example =
    calls-paused occur 90 recurs fresh (omega arith, λ c e. omega arith) refl refl

abbrev page : List (ℕ × Row)
page = (90, once) ∷ []

abbrev armed : Dispatcher
armed = record fresh {
  armed = (5, record { timer = 0; lane = 1 }) ∷ [];
  timers = (0, record { row = recurs; wakes = 100 }) ∷ [];
  serial = 1;
}

abbrev calendar : Schedule.Definition
calendar = record { endpoint = 7; overdue = none; region = none }

-- Woken early and in time, paused and resumed.
abbrev wakings : List Schedule.Event
wakings =
    Schedule.woken 3
    ∷ Schedule.woken 9
    ∷ Schedule.woken 10
    ∷ Schedule.paused
    ∷ Schedule.resumed 12
    ∷ []

wakings-IsOrdered : IsOrdered 0 wakings
wakings-IsOrdered = (omega arith, (omega arith, (omega arith, (omega arith, (omega arith, tt)))))

abbrev wakes_early : List Schedule.Event
wakes_early = Schedule.woken 3 ∷ Schedule.woken 9 ∷ []

after-tick_example :
    (Schedule.tick tenth 23 (after tenth (Schedule.new calendar 0) wakes_early)).0
    ≡ Schedule.wait (after tenth (Schedule.new calendar 0) wakes_early) 23 30
unfolding after Schedule.new Schedule.step Schedule.tick
after-tick_example =
    after-tick tenth calendar 0 0 23 30 wakes_early tenth-IsFirst (omega arith, (omega arith, tt))
      (omega arith) refl refl
