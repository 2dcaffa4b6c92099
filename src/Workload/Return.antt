-- ===== src/Workload/Return.antt =====
-- That a workload that is told to stop for a time is down for it and comes back.
use toa.Prelude.{
  ℕ, ◌+◌, ◌*◌, ◌≤◌, ◌<◌, ◌≡◌, refl, ap, sym, ◌∙◌, true, false, not, List, [], ◌∷◌, map, All,
  All-map, length, arith,
}
use mathlib.Core.Path.{subst}
use toa.Workload.{
  max_delay, idle, pausing, Workload, running, stop, stops, resolves, onward, step, run,
}
use toa.Workload.Cycle.{IsAt, IsSound, resolved-IsSound, stop-IsSound, onward-IsSound}
use toa.Workload.Due.{left, Comes, stays-Comes, any-Comes, late-Comes, done}
use toa.Workload.Held.{IsHeld, early-IsHeld, IsHeld-halting}

-- A workload that has been told to stop, when the next tick comes at a moment.
abbrev pub told : ℕ → ℕ → Workload → Workload
told seconds t w = run (stops seconds ∷ resolves t ∷ []) w

abbrev pub IsReady : Workload → Type 0
IsReady w = (w.phase ≡ idle) × ((w.connected ≡ true) × IsSound w)

told-IsSound : (seconds t : ℕ) (w : Workload) → IsSound w → IsSound (told seconds t w)
unfolding run step
told-IsSound seconds t w a =
    let v = stop seconds w in onward-IsSound t v v.phase refl (stop-IsSound seconds w a)

told-pausing :
    (seconds t : ℕ) (w : Workload)
    → IsReady w
    → ((told seconds t w).phase ≡ pausing seconds (t + seconds * 1000))
      × ((told seconds t w).gates ≡ w.gates)
unfolding run step stop onward
told-pausing seconds t w r =
    let at_rest : IsAt idle w = subst (λ p. IsAt p w) r.0 r.1.1 in
    simp (at_rest.0, r.1.0) (refl, refl)

halted-waits :
    (at : ℕ) (w : Workload) (ts : List ℕ)
    → IsSound w
    → IsHeld at w.phase w
    → All (λ now. (now < at) × (at ≤ now + max_delay)) ts
    → running (run (map resolves ts) w) ≡ false
halted-waits at w ts s h a =
    let v = run (map resolves ts) w in
    let (sound, says) = resolved-IsSound ts w s in
    let held = early-IsHeld at ts w a h in says ∙ ap not (IsHeld-halting at v v.phase held sound)

idle-works :
    (w : Workload)
    → w.phase ≡ idle
    → IsSound w
    → (running w ≡ true) × ((w.halting ≡ false) × (w.underway ≡ false))
unfolding run
idle-works w p s =
    let at_rest : IsAt idle w = subst (λ x. IsAt x w) p s in
    ((resolved-IsSound [] w s).1 ∙ ap not at_rest.0, (at_rest.0, at_rest.1.0))

returned :
    (late k : ℕ) (w : Workload) (before after : List ℕ)
    → IsSound w
    → Comes late (length w.gates) k w
    → All (λ now. late ≤ now) after
    → k ≤ length after
    → (run (map resolves after) (run (map resolves before) w)).phase ≡ idle
returned late k w before after s c b le =
    let halted_at = run (map resolves before) w in
    let v = run (map resolves after) halted_at in
    let c' =
      late-Comes late (length w.gates) after k halted_at b le
        (any-Comes late (length w.gates) before k w c) in
    done late (length w.gates) v v.phase c'.due c'.within

-- A workload that works and is told to stop for so many seconds, of no more than 2147483647
-- milliseconds, and is told nothing else, is not running while so many seconds have not passed
-- since the next tick, of a clock that does not go back, however much of what it awaits has ended
-- by then. If nothing that it awaits fails, it is running again, and no halt is under way, when
-- after that it has awaited four ends and two more for each gate, or more.
pub stop-returns :
    (seconds t : ℕ) (w : Workload) (before after : List ℕ)
    → IsReady w
    → seconds * 1000 ≤ max_delay
    → All (λ now. (t ≤ now) × (now < t + seconds * 1000)) before
    → All (λ now. t + seconds * 1000 ≤ now) after
    → length w.gates + length w.gates + 4 ≤ length after
    → let halted_at = run (map resolves before) (told seconds t w) in
      let back = run (map resolves after) halted_at in
      (running halted_at ≡ false)
      × ((running back ≡ true) × ((back.halting ≡ false) × (back.underway ≡ false)))
unfolding left
stop-returns seconds t w before after r short a b le =
    let start = told seconds t w in
    let at = t + seconds * 1000 in
    let (p, same) = told-pausing seconds t w r in
    let sound = told-IsSound seconds t w r.1.1 in
    let held : IsHeld at start.phase start = subst (λ x. IsHeld at x start) (sym p) refl in
    let comes =
      stays-Comes at (length start.gates) (length w.gates + length w.gates + 4) start
        (pausing seconds at) p (omega arith) refl (omega (arith, ap length same)) in
    let halted_at = run (map resolves before) start in
    let sound' = (resolved-IsSound before start sound).0 in
    let back = run (map resolves after) halted_at in
    (
      halted-waits at start before sound held (
          All-map {P = λ now. (t ≤ now) × (now < at)}
            {Q = λ now. (now < at) × (at ≤ now + max_delay)}
            (λ now h. (h.1, omega (arith, short, h.0))) before a),
      idle-works back
          (returned at (length w.gates + length w.gates + 4) start before after sound comes b le)
          (resolved-IsSound after halted_at sound').0,
    )
