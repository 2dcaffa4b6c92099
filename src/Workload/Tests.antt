-- ===== src/Workload/Tests.antt =====
-- A process with two gates that is told to stop for two seconds.
use toa.Prelude.{ℕ, ◌≡◌, ◌⊎◌, refl, true, false, not, none, List, [], ◌∷◌, map, arith}
use toa.Workload.{
  Gate, remaining, idle, Workload, running, Event, quiesces, stops, resolves, rejects, closes, step,
  disconnected, down, run, all_holding,
}
use toa.Workload.Cycle.{IsSound, run-IsSound}
use toa.Workload.Return.{told, stop-returns}

abbrev up : Gate
up = record { live = true; resumes_at = 0 }

abbrev working : Workload
working = record {
  connected = true;
  halting = false;
  quiesced = false;
  underway = false;
  timer = none;
  gates = up ∷ up ∷ [];
  phase = idle;
}

-- A gate that comes down after 1.9 seconds of the two says that it is back in two more.
told_too_long : remaining (record { live = false; resumes_at = 4000 }) 2000 ≡ 2
unfolding remaining
told_too_long = refl

working-IsSound : IsSound working
unfolding all_holding
working-IsSound = (refl, (refl, (refl, refl)))

abbrev events : List Event
events = quiesces ∷ stops 2 ∷ resolves 100 ∷ resolves 500 ∷ stops 3 ∷ rejects ∷ resolves 900 ∷ []

run-IsSound_example :
    ((run events working).connected ≡ false)
    ⊎ (IsSound (run events working)
        × (running (run events working) ≡ not (run events working).halting))
run-IsSound_example = run-IsSound events working working-IsSound

-- A disconnection takes the gates down.
closed : running (run (closes ∷ []) working) ≡ false
unfolding run step disconnected down running all_holding
closed = refl

abbrev early : List ℕ
early = 500 ∷ 900 ∷ 1200 ∷ 1500 ∷ []

abbrev late : List ℕ
late = 2100 ∷ 2200 ∷ 2300 ∷ 2400 ∷ 2500 ∷ 2600 ∷ 2700 ∷ 2800 ∷ []

abbrev halted_at : Workload
halted_at = run (map resolves early) (told 2 100 working)

abbrev back : Workload
back = run (map resolves late) halted_at

stop-returns_example :
    (running halted_at ≡ false)
    × ((running back ≡ true) × ((back.halting ≡ false) × (back.underway ≡ false)))
stop-returns_example =
    stop-returns 2 100 working early late (refl, (refl, working-IsSound)) (omega arith)
      (omega arith, (omega arith, (omega arith, (omega arith, tt))))
      (
        omega arith,
        (
          omega arith,
          (
            omega arith,
            (omega arith, (omega arith, (omega arith, (omega arith, (omega arith, tt))))),
          ),
        ),
      )
      (omega arith)
