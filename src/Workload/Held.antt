-- ===== src/Workload/Held.antt =====
-- That a halt lasts until the moment it was told for: `#cycle`.
use toa.Prelude.{
  ◌≤◌, ◌+◌, ◌-◌, ℕ, zero, suc, ◌<◌, ◌≡◌, refl, ap, sym, ◌∙◌, true, false, some, List, [], ◌∷◌, map,
  All, length, leb, arith,
}
use mathlib.Core.Path.{subst}
use toa.Workload.{
  Phase, idle, called, pausing, lowering, waiting, raising, restoring, ended, Workload, halted,
  woken, max_delay, lower, resolves, onward, fires, step, run,
}
use toa.Workload.Cycle.{IsAt}

-- A workload that is held down until a moment, in a phase.
abbrev pub IsHeld : ℕ → Phase → Workload → Type 0
IsHeld at idle w = ⊥
IsHeld at (called seconds) w = ⊥
IsHeld at (pausing seconds a) w = a ≡ at
IsHeld at (lowering seconds a i) w = a ≡ at
IsHeld at waiting w = w.timer ≡ some at
IsHeld at (raising i) w = ⊥
IsHeld at restoring w = ⊥
IsHeld at ended w = ⊥

module _ (at now : ℕ) (early : now < at) (near : at ≤ now + max_delay) where
  lower-IsHeld :
      (seconds a i : ℕ) (w : Workload)
      → a ≡ at
      → IsHeld at (lower seconds a now i w).phase (lower seconds a now i w)
  unfolding lower halted
  lower-IsHeld seconds a zero w e =
      let soon : leb a now ≡ false = ground arith in
      let set : leb (a - now) max_delay ≡ true = ground arith in
      let to : woken a now ≡ at = unfold woken in simp set e in simp soon (ap some to)
  lower-IsHeld seconds a (suc i) w e = e

  onward-IsHeld :
      (w : Workload) (p : Phase)
      → w.phase ≡ p
      → IsHeld at p w
      → IsHeld at (onward now w p).phase (onward now w p)
  unfolding onward fires
  onward-IsHeld w idle p h = elim h [ ]
  onward-IsHeld w (called seconds) p h = elim h [ ]
  onward-IsHeld w (pausing seconds a) p h = lower-IsHeld seconds a (length w.gates) w h
  onward-IsHeld w (lowering seconds a i) p h = lower-IsHeld seconds a i w h
  onward-IsHeld w waiting p h =
      let soon : leb at now ≡ false = ground arith in
      let stays : fires now w w.timer ≡ w = ap (fires now w) h ∙ simp soon refl in
      subst (λ v. IsHeld at v.phase v) (sym stays) (subst (λ x. IsHeld at x w) (sym p) h)
  onward-IsHeld w (raising i) p h = elim h [ ]
  onward-IsHeld w restoring p h = elim h [ ]
  onward-IsHeld w ended p h = elim h [ ]

pub early-IsHeld :
    (at : ℕ) (ts : List ℕ) (w : Workload)
    → All (λ t. (t < at) × (at ≤ t + max_delay)) ts
    → IsHeld at w.phase w
    → IsHeld at (run (map resolves ts) w).phase (run (map resolves ts) w)
unfolding run step
early-IsHeld at [] w a h = h
early-IsHeld at (t ∷ ts) w a h =
    early-IsHeld at ts (onward t w w.phase) a.1 (onward-IsHeld at t a.0.0 a.0.1 w w.phase refl h)

pub IsHeld-halting :
    (at : ℕ) (w : Workload) (p : Phase) → IsHeld at p w → IsAt p w → w.halting ≡ true
IsHeld-halting at w idle h a = elim h [ ]
IsHeld-halting at w (called seconds) h a = elim h [ ]
IsHeld-halting at w (pausing seconds b) h a = a.0
IsHeld-halting at w (lowering seconds b i) h a = a.0
IsHeld-halting at w waiting h a = a.0
IsHeld-halting at w (raising i) h a = elim h [ ]
IsHeld-halting at w restoring h a = elim h [ ]
IsHeld-halting at w ended h a = elim h [ ]
