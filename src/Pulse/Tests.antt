-- ===== src/Pulse/Tests.antt =====
-- A pulse of four intervals in a cycle of ten seconds, and a replica that owns half of them.
use toa.Prelude.{ℕ, ◌≡◌, ◌≢◌, refl, true, false, none, some, List, [], ◌∷◌, ◌==◌, any, arith}
use toa.Pulse.{
  Pulse, new, open_pulse, ordinal, boundary, tick, fire, owns, arm, Event, woken, answered, resumed,
  paused, called, step, returned, pause, unpause,
}
use toa.Pulse.Calls.{IsOrdered, IsIncreasing, called-IsIncreasing, tick_disjoint}

abbrev pulse : Pulse
pulse = new (record { cycle = 10; intervals = 4 }) true

abbrev running : Pulse
running = open_pulse pulse 1000 1000

abbrev run : List Event
run =
    woken 2499 2500 (some (1 ∷ 3 ∷ []))
    ∷ woken 2500 2501 (some (1 ∷ 3 ∷ []))
    ∷ answered
    ∷ woken 5000 5000 none
    ∷ paused
    ∷ resumed 7600 7600
    ∷ woken 10000 10000 (some (0 ∷ 1 ∷ []))
    ∷ []

called-run : called running run ≡ 1 ∷ 4 ∷ []
unfolding called step tick fire owns arm ordinal boundary new open_pulse returned pause unpause
called-run = refl

called-IsIncreasing_example : IsIncreasing running.fired (called running run)
unfolding new open_pulse arm ordinal IsOrdered
called-IsIncreasing_example = called-IsIncreasing running 1000 run (omega arith) (omega arith)

apart : (k : ℕ) → any (λ x. x == k) (1 ∷ 3 ∷ []) ≡ true → any (λ x. x == k) (0 ∷ 2 ∷ []) ≡ false
apart k h = ground arith

tick_disjoint_example : (tick running 2500 2500 (some (0 ∷ 2 ∷ []))).1 ≢ some 1
unfolding new open_pulse arm ordinal tick fire owns
tick_disjoint_example =
    tick_disjoint running running 2500 2500 2500 2500 1 (1 ∷ 3 ∷ []) (0 ∷ 2 ∷ []) refl refl refl
      apart refl
