-- ===== src/Cadence/Dispatcher/Quiet.antt =====
-- What a dispatcher calls that closes, that is quiet, and of whom a call is on its way:
-- extensions/cadence/source/Dispatcher.ts.
use toa.Prelude.{
  ℕ, ◌<◌, ◌≡◌, refl, ◌∙◌, inl, inr, Bool, true, false, ◌||◌, none, some, List, [], ◌∷◌, arith,
  Option-cases,
}
use toa.Prelude.Maps.{lookup, erase, contains}
use toa.Cadence.Row.{Occurrences, Calendar, bound}
use toa.Cadence.Dispatcher.{
  Row, Armed, Dispatcher, has, holds, disposed, over, timed, arm_once, arm_free, arm, arms, ids,
  give_up, disarm, forget, scanned, tick, finished, slots, adopt, clear, close, pause, unpause,
  dispatch, woken, made, refused, failed, settled,
}
use toa.Cadence.Dispatcher.Run.{
  Event, fetched, ticked, adopted, done, wakes, accepted, raised, written, paused, resumed, closed,
  step, then_calls, calls,
}

arm-closing :
    (occur : Occurrences) (now : ℕ) (r : Row) (d : Dispatcher)
    → (arm occur now r d).closing ≡ d.closing
unfolding arm arm_free arm_once disposed over timed
arm-closing occur now r d = grind arith

arms-closing :
    (occur : Occurrences) (page : List (ℕ × Row)) (d : Dispatcher)
    → (arms occur page d).closing ≡ d.closing
unfolding arms
arms-closing occur [] d = refl
arms-closing occur ((now, r) ∷ page) d =
    arms-closing occur page (arm occur now r d) ∙ arm-closing occur now r d

give_up-closing :
    (keeps : ℕ → Armed → Bool) (m : List (ℕ × Armed)) (d : Dispatcher)
    → (give_up keeps m d).closing ≡ d.closing
unfolding give_up
give_up-closing keeps [] d = refl
give_up-closing keeps ((id, a) ∷ m) d =
    let d' = record d { timers = erase a.timer d.timers; armed = erase id d.armed } in
    ground (arith, give_up-closing keeps m d, give_up-closing keeps m d')

disarm-closing : (lanes : List ℕ) (d : Dispatcher) → (disarm lanes d).closing ≡ d.closing
unfolding disarm
disarm-closing lanes d = give_up-closing _ d.armed d

forget-closing : (read : List ℕ) (d : Dispatcher) → (forget read d).closing ≡ d.closing
unfolding forget
forget-closing read d = give_up-closing _ d.armed d

step-closing :
    (occur : Occurrences) (d : Dispatcher) (e : Event)
    → d.closing ≡ true
    → ((step occur d e).0.closing ≡ true) × ((step occur d e).1 ≡ none)
unfolding step finished made settled pause unpause close
step-closing occur d (fetched page) h =
    unfold scanned in
    ground (arith, arms-closing occur page d, forget-closing (ids page) (arms occur page d))
step-closing occur d (wakes timer) h =
    unfold woken dispatch in
    elim (Option-cases (lookup timer d.timers)) [ inl e ↦ ground arith | inr (t, e) ↦ ground arith ]
step-closing occur d (ticked now) h = unfold tick in ground arith
step-closing occur d (adopted now lanes) h =
    unfold adopt tick in ground (arith, disarm-closing (slots lanes) d)
step-closing occur d done h = (h, refl)
step-closing occur d (accepted r) h = (h, refl)
step-closing occur d (raised permanent r) h = unfold failed refused disposed over in ground arith
step-closing occur d (written m s) h = (h, refl)
step-closing occur d paused h = (h, refl)
step-closing occur d resumed h = (h, refl)
step-closing occur d closed h = (refl, refl)

calls_closing :
    (occur : Occurrences) (d : Dispatcher) (es : List Event)
    → d.closing ≡ true
    → calls occur d es ≡ []
unfolding calls then_calls
calls_closing occur d [] h = refl
calls_closing occur d (e ∷ es) h =
    let (shut, quiet) = step-closing occur d e h in
    rw quiet (calls_closing occur (step occur d e).0 es shut)

-- A dispatcher that was closed makes no call any more, whatever befalls it: neither by a timer that
-- a scan sets which arrives late, nor once it is resumed.
pub calls-closed :
    (occur : Occurrences) (d : Dispatcher) (es : List Event) → calls occur d (closed ∷ es) ≡ []
unfolding calls step then_calls
calls-closed occur d es = calls_closing occur (close d) es (unfold close in refl)

-- Whether an arm of a row sets a timer: its call is not past its bounds.
abbrev pub IsTimely : Occurrences → ℕ → Row → Type 0
IsTimely occur now r =
    (now < r.stored.expires)
    × ((c : Calendar) → r.stored.schedule ≡ some c → now < bound occur c r.stored)

arm-timed :
    (occur : Occurrences) (now : ℕ) (r : Row) (d : Dispatcher)
    → IsTimely occur now r
    → holds r.id d ≡ false
    → arm occur now r d ≡ timed now r d
unfolding arm arm_free arm_once
arm-timed occur now r d (fresh, owed) free = elim (Option-cases r.stored.schedule) [
  | inl e ↦ ground arith
  | inr (c, e) ↦ let due = owed c e in ground arith
]

-- A dispatcher that is quiet: an answer to a scan that was sent before it was paused arms what it
-- read, and a timer's wake-up does not ask whether it is. So it calls, though `pause` says that a
-- call whose time falls while the process is quiet waits until it works again.
pub calls-paused :
    (occur : Occurrences) (now : ℕ) (r : Row) (d : Dispatcher)
    → IsTimely occur now r
    → d.closing ≡ false
    → (has r.id d.called || contains r.id d.ended) ≡ false
    → calls occur d (paused ∷ fetched ((now, r) ∷ []) ∷ wakes d.serial ∷ []) ≡ r ∷ []
unfolding calls step then_calls pause scanned arms clear forget give_up timed woken dispatch
calls-paused occur now r d timely works free =
    let e = arm-timed occur now r (pause d) timely (unfold holds in ground arith) in
    rw e (ground arith)
