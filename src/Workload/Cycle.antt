-- ===== src/Workload/Cycle.antt =====
-- What holds of a workload whatever comes, and that one that is told to stop comes back.
use toa.Prelude.{
  ℕ, zero, suc, ◌≤◌, ◌≡◌, ◌⊎◌, refl, sym, Bool, true, false, not, ◌||◌, Option, none, some, List,
  [], ◌∷◌, map, length, leb, if◌then◌else◌, arith, Bool-cases, inl, inr,
}
use mathlib.Core.Path.{subst}
use toa.Workload.{
  Gate, down, rise, hold, Phase, idle, called, pausing, lowering, waiting, raising, restoring,
  ended, Workload, all_holding, running, quiesce, cancel, stop, change, raise_from, resume, halted,
  lower, Event, quiesces, cancels, stops, closes, resolves, rejects, onward, fires, failing,
  disconnected, step, run,
}

-- The gates from an index on are down.
abbrev pub IsDown : ℕ → List Gate → Type 0
IsDown i [] = Unit
IsDown zero (g ∷ gs) = (g.live ≡ false) × IsDown zero gs
IsDown (suc i) (g ∷ gs) = IsDown i gs

-- The gates before an index are up.
abbrev pub IsUp : ℕ → List Gate → Type 0
IsUp i [] = Unit
IsUp zero (g ∷ gs) = Unit
IsUp (suc i) (g ∷ gs) = (g.live ≡ true) × IsUp i gs

IsUp-none : (gs : List Gate) → IsUp zero gs
IsUp-none [] = tt
IsUp-none (g ∷ gs) = tt

down-dead : (seconds now : ℕ) (g : Gate) → (down seconds now g).live ≡ false
unfolding down
down-dead seconds now g = ground arith

IsDown-change :
    (seconds now i : ℕ) (gs : List Gate)
    → IsDown (suc i) gs
    → IsDown i (change (down seconds now) i gs)
unfolding change
IsDown-change seconds now i [] h = tt
IsDown-change seconds now zero (g ∷ gs) h = (down-dead seconds now g, h)
IsDown-change seconds now (suc i) (g ∷ gs) h = IsDown-change seconds now i gs h

IsDown-length : (gs : List Gate) → IsDown (length gs) gs
IsDown-length [] = tt
IsDown-length (g ∷ gs) = IsDown-length gs

IsUp-rise : (i j : ℕ) (gs : List Gate) → IsUp i gs → IsUp i (change rise j gs)
unfolding change rise
IsUp-rise i j [] h = tt
IsUp-rise zero zero (g ∷ gs) h = tt
IsUp-rise zero (suc j) (g ∷ gs) h = tt
IsUp-rise (suc i) zero (g ∷ gs) h = h
IsUp-rise (suc i) (suc j) (g ∷ gs) h = (h.0, IsUp-rise i j gs h.1)

IsUp-hold : (i : ℕ) (gs : List Gate) → IsUp i gs → IsUp (suc i) (change hold i gs)
unfolding change hold
IsUp-hold i [] h = tt
IsUp-hold zero (g ∷ gs) h = (refl, IsUp-none gs)
IsUp-hold (suc i) (g ∷ gs) h = (h.0, IsUp-hold i gs h.1)

IsUp-all : (i : ℕ) (gs : List Gate) → length gs ≤ i → IsUp i gs → all_holding gs ≡ true
unfolding all_holding
IsUp-all i [] l h = refl
IsUp-all zero (g ∷ gs) l h = let no : ⊥ = omega arith in absurd no
IsUp-all (suc i) (g ∷ gs) l h = ground (arith, h.0, IsUp-all i gs (omega arith) h.1)

-- What holds of a workload in a phase.
abbrev pub IsAt : Phase → Workload → Type 0
IsAt idle w =
    (w.halting ≡ false) × ((w.underway ≡ false) × ((w.timer ≡ none) × (all_holding w.gates ≡ true)))
IsAt (called seconds) w = (w.halting ≡ true) × (w.timer ≡ none)
IsAt (pausing seconds at) w = (w.halting ≡ true) × ((w.quiesced ≡ true) × (w.timer ≡ none))
IsAt (lowering seconds at i) w =
    (w.halting ≡ true) × ((w.quiesced ≡ true) × ((w.timer ≡ none) × IsDown i w.gates))
IsAt waiting w = (w.halting ≡ true) × ((w.quiesced ≡ true) × IsDown zero w.gates)
IsAt (raising i) w =
    (w.halting ≡ true) × ((w.quiesced ≡ true) × ((w.timer ≡ none) × IsUp i w.gates))
IsAt restoring w =
    (w.halting ≡ true) × ((w.quiesced ≡ true) × ((w.timer ≡ none) × (all_holding w.gates ≡ true)))
IsAt ended w = (w.halting ≡ true) × (w.timer ≡ none)

abbrev pub IsSound : Workload → Type 0
IsSound w = IsAt w.phase w

raise_from-IsSound :
    (i : ℕ) (w : Workload)
    → w.halting ≡ true
    → w.quiesced ≡ true
    → w.timer ≡ none
    → IsUp i w.gates
    → IsSound (raise_from i w)
unfolding raise_from
raise_from-IsSound i w h q t up = elim (Bool-cases (leb (length w.gates) i)) [
  | inl past ↦ simp past (h, (q, (t, IsUp-all i w.gates (ground arith) up)))
  | inr more ↦ simp more (h, (q, (t, IsUp-rise i i w.gates up)))
]

lower-IsSound :
    (seconds at now i : ℕ) (w : Workload)
    → w.halting ≡ true
    → w.quiesced ≡ true
    → w.timer ≡ none
    → IsDown i w.gates
    → IsSound (lower seconds at now i w)
unfolding lower halted resume
lower-IsSound seconds at now zero w h q t d = elim (Bool-cases (leb at now)) [
  | inl late ↦
      simp late (raise_from-IsSound 0 (record w { timer = none }) h q refl (IsUp-none w.gates))
  | inr early ↦ simp early (h, (q, d))
]
lower-IsSound seconds at now (suc i) w h q t d =
    (h, (q, (t, IsDown-change seconds now i w.gates d)))

stays : (w : Workload) (p : Phase) → w.phase ≡ p → IsAt p w → IsSound w
stays w p same h = subst (λ x. IsAt x w) (sym same) h

fires-IsSound :
    (now : ℕ) (w : Workload) (o : Option ℕ)
    → w.phase ≡ waiting
    → IsAt waiting w
    → IsSound (fires now w o)
unfolding fires resume
fires-IsSound now w none p a = stays w waiting p a
fires-IsSound now w (some at) p a = elim (Bool-cases (leb at now)) [
  | inl due ↦
      simp due (raise_from-IsSound 0 (record w { timer = none }) a.0 a.1.0 refl (IsUp-none w.gates))
  | inr early ↦ simp early (stays w waiting p a)
]

pub onward-IsSound :
    (now : ℕ) (w : Workload) (p : Phase) → w.phase ≡ p → IsAt p w → IsSound (onward now w p)
unfolding onward
onward-IsSound now w idle p a = stays w idle p a
onward-IsSound now w (called seconds) p a = (a.0, (refl, a.1))
onward-IsSound now w (pausing seconds at) p a =
    lower-IsSound seconds at now (length w.gates) w a.0 a.1.0 a.1.1 (IsDown-length w.gates)
onward-IsSound now w (lowering seconds at i) p a =
    lower-IsSound seconds at now i w a.0 a.1.0 a.1.1.0 a.1.1.1
onward-IsSound now w waiting p a = fires-IsSound now w w.timer p a
onward-IsSound now w (raising i) p a =
    raise_from-IsSound (suc i) (record w { gates = change hold i w.gates }) a.0 a.1.0 a.1.1.0
      (IsUp-hold i w.gates a.1.1.1)
onward-IsSound now w restoring p a = (refl, (refl, (a.1.1.0, a.1.1.1)))
onward-IsSound now w ended p a = stays w ended p a

-- What is not halting is idle.
at_work : (w : Workload) (p : Phase) → w.halting ≡ false → IsAt p w → p ≡ idle
at_work w idle h a = refl
at_work w (called seconds) h a = cc
at_work w (pausing seconds at) h a = cc
at_work w (lowering seconds at i) h a = cc
at_work w waiting h a = cc
at_work w (raising i) h a = cc
at_work w restoring h a = cc
at_work w ended h a = cc

rests : (w : Workload) → w.halting ≡ false → IsSound w → IsAt idle w
rests w h a = subst (λ p. IsAt p w) (at_work w w.phase h a) a

if-IsSound :
    (b : Bool) (w v : Workload) → IsSound w → (b ≡ false → IsSound v) → IsSound (if b then w else v)
if-IsSound true w v a c = a
if-IsSound false w v a c = c refl

quiesce-IsSound : (w : Workload) → IsSound w → IsSound (quiesce w)
unfolding quiesce
quiesce-IsSound w a =
    if-IsSound (w.halting || w.quiesced || not w.connected) w (record w { quiesced = true }) a
      (λ b.
        let off : w.halting ≡ false = ground (arith, b) in
        stays (record w { quiesced = true }) idle (at_work w w.phase off a) (rests w off a))

cancel-IsSound : (w : Workload) → IsSound w → IsSound (cancel w)
unfolding cancel
cancel-IsSound w a =
    if-IsSound (w.halting || not w.quiesced) w (record w { quiesced = false }) a
      (λ b.
        let off : w.halting ≡ false = ground (arith, b) in
        stays (record w { quiesced = false }) idle (at_work w w.phase off a) (rests w off a))

pub stop-IsSound : (seconds : ℕ) (w : Workload) → IsSound w → IsSound (stop seconds w)
unfolding stop
stop-IsSound seconds w a =
    if-IsSound (w.halting || not w.connected) w
      (record w { halting = true; phase = called seconds }) a
      (λ b. let off : w.halting ≡ false = ground (arith, b) in (refl, (rests w off a).1.1.0))

-- A workload that was disconnected.
abbrev IsGone : Workload → Type 0
IsGone w = w.connected ≡ false

abbrev IsWhole : Workload → Type 0
IsWhole w = IsGone w ⊎ IsSound w

if-IsGone : (b : Bool) (w v : Workload) → IsGone w → IsGone v → IsGone (if b then w else v)
if-IsGone true w v g h = g
if-IsGone false w v g h = h

raise_from-IsGone : (i : ℕ) (w : Workload) → IsGone w → IsGone (raise_from i w)
unfolding raise_from
raise_from-IsGone i w g = if-IsGone (leb (length w.gates) i) _ _ g g

lower-IsGone : (seconds at now i : ℕ) (w : Workload) → IsGone w → IsGone (lower seconds at now i w)
unfolding lower halted resume
lower-IsGone seconds at now zero w g =
    if-IsGone (leb at now) _ _ (raise_from-IsGone 0 (record w { timer = none }) g) g
lower-IsGone seconds at now (suc i) w g = g

fires-IsGone : (now : ℕ) (w : Workload) (o : Option ℕ) → IsGone w → IsGone (fires now w o)
unfolding fires resume
fires-IsGone now w none g = g
fires-IsGone now w (some at) g =
    if-IsGone (leb at now) _ _ (raise_from-IsGone 0 (record w { timer = none }) g) g

onward-IsGone : (now : ℕ) (w : Workload) (p : Phase) → IsGone w → IsGone (onward now w p)
unfolding onward
onward-IsGone now w idle g = g
onward-IsGone now w (called seconds) g = g
onward-IsGone now w (pausing seconds at) g = lower-IsGone seconds at now (length w.gates) w g
onward-IsGone now w (lowering seconds at i) g = lower-IsGone seconds at now i w g
onward-IsGone now w waiting g = fires-IsGone now w w.timer g
onward-IsGone now w (raising i) g =
    raise_from-IsGone (suc i) (record w { gates = change hold i w.gates }) g
onward-IsGone now w restoring g = g
onward-IsGone now w ended g = g

failing-IsGone : (w : Workload) (p : Phase) → IsGone w → IsGone (failing w p)
unfolding failing disconnected
failing-IsGone w idle g = g
failing-IsGone w (called seconds) g = g
failing-IsGone w (pausing seconds at) g = g
failing-IsGone w (lowering seconds at i) g = g
failing-IsGone w waiting g = g
failing-IsGone w (raising i) g = refl
failing-IsGone w restoring g = g
failing-IsGone w ended g = g

failing-IsWhole : (w : Workload) (p : Phase) → w.phase ≡ p → IsAt p w → IsWhole (failing w p)
unfolding failing disconnected
failing-IsWhole w idle p a = inr (stays w idle p a)
failing-IsWhole w (called seconds) p a = inr (stays w (called seconds) p a)
failing-IsWhole w (pausing seconds at) p a = inr (a.0, a.1.1)
failing-IsWhole w (lowering seconds at i) p a = inr (a.0, a.1.1.0)
failing-IsWhole w waiting p a = inr (stays w waiting p a)
failing-IsWhole w (raising i) p a = inl refl
failing-IsWhole w restoring p a = inr (a.0, a.1.1.0)
failing-IsWhole w ended p a = inr (stays w ended p a)

step-IsGone : (e : Event) (w : Workload) → IsGone w → IsGone (step e w)
unfolding step quiesce cancel stop disconnected
step-IsGone quiesces w g = if-IsGone (w.halting || w.quiesced || not w.connected) _ _ g g
step-IsGone cancels w g = if-IsGone (w.halting || not w.quiesced) _ _ g g
step-IsGone (stops seconds) w g = if-IsGone (w.halting || not w.connected) _ _ g g
step-IsGone closes w g = refl
step-IsGone (resolves now) w g = onward-IsGone now w w.phase g
step-IsGone rejects w g = failing-IsGone w w.phase g

step-IsWhole : (e : Event) (w : Workload) → IsSound w → IsWhole (step e w)
unfolding step disconnected
step-IsWhole quiesces w a = inr (quiesce-IsSound w a)
step-IsWhole cancels w a = inr (cancel-IsSound w a)
step-IsWhole (stops seconds) w a = inr (stop-IsSound seconds w a)
step-IsWhole closes w a = inl refl
step-IsWhole (resolves now) w a = inr (onward-IsSound now w w.phase refl a)
step-IsWhole rejects w a = failing-IsWhole w w.phase refl a

running-halting : (w : Workload) (p : Phase) → IsAt p w → running w ≡ not w.halting
unfolding running
running-halting w idle a = ground (arith, a.0, a.1.1.1)
running-halting w (called seconds) a = ground (arith, a.0)
running-halting w (pausing seconds at) a = ground (arith, a.0)
running-halting w (lowering seconds at i) a = ground (arith, a.0)
running-halting w waiting a = ground (arith, a.0)
running-halting w (raising i) a = ground (arith, a.0)
running-halting w restoring a = ground (arith, a.0)
running-halting w ended a = ground (arith, a.0)

all-IsWhole : (es : List Event) (w : Workload) → IsWhole w → IsWhole (run es w)
unfolding run
all-IsWhole [] w a = a
all-IsWhole (e ∷ es) w (inl g) = all-IsWhole es (step e w) (inl (step-IsGone e w g))
all-IsWhole (e ∷ es) w (inr a) = all-IsWhole es (step e w) (step-IsWhole e w a)

-- What is awaited coming to its end, any number of times.
pub resolved-IsSound :
    (ts : List ℕ) (w : Workload)
    → IsSound w
    → IsSound (run (map resolves ts) w)
      × (running (run (map resolves ts) w) ≡ not (run (map resolves ts) w).halting)
unfolding run step
resolved-IsSound [] w a = (a, running-halting w w.phase a)
resolved-IsSound (t ∷ ts) w a =
    resolved-IsSound ts (onward t w w.phase) (onward-IsSound t w w.phase refl a)

-- A workload that works with all gates up, whatever it is told to, whatever ends or fails and
-- whenever that is, and as long as it is not disconnected, has the flags and the timer of the
-- phase that it is in: in a teardown the gates from the one that comes down on are down, while
-- the timer is set all are, in a resume those before the one that is built are up, and where
-- nothing is under way all are. It says that it runs exactly when it is not halting.
pub run-IsSound :
    (es : List Event) (w : Workload)
    → IsSound w
    → ((run es w).connected ≡ false)
      ⊎ (IsSound (run es w) × (running (run es w) ≡ not (run es w).halting))
run-IsSound es w a = elim (all-IsWhole es w (inr a)) [
  | inl gone ↦ inl gone
  | inr sound ↦ inr (sound, running-halting (run es w) (run es w).phase sound)
]
