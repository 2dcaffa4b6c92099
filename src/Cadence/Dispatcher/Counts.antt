-- ===== src/Cadence/Dispatcher/Counts.antt =====
-- How often a dispatcher calls a row: extensions/cadence/source/Dispatcher.ts.
use toa.Prelude.{
  ℕ, ◌+◌, ◌≤◌, ◌≡◌, refl, ap, sym, ◌∙◌, inl, inr, Bool, true, false, not, ◌||◌, Option, none, some,
  List, [], ◌∷◌, arith, count_if, ◌==◌, ==_iff, if◌then◌else◌, Bool-cases, Option-cases,
}
use toa.Prelude.Maps.{lookup, insert, erase, contains, lookup-insert, lookup-erase, contains-add}
use toa.Cadence.Row.{Occurrences}
use toa.Cadence.Dispatcher.{
  Row, Timer, Armed, Dispatcher, has, holds, disposed, over, timed, arm_once, arm_free, arm, arms,
  ids, give_up, disarm, forget, scanned, tick, finished, slots, adopt, clear, close, pause, unpause,
  dispatch, woken, made, refused, failed, settled,
}
use toa.Cadence.Dispatcher.Run.{
  Event, fetched, ticked, adopted, done, wakes, accepted, raised, written, paused, resumed, closed,
  step, then_calls, calls, live, lets_go, releases, times,
}

pub has-insert {ℓ} :
    {V : Type ℓ} (j k : ℕ) (v : V) (m : List (ℕ × V)) → has j (insert k v m) ≡ (j == k || has j m)
has-insert j k v m = ground (arith, lookup-insert j k v m)

pub has-erase {ℓ} :
    {V : Type ℓ} (j k : ℕ) (m : List (ℕ × V))
    → has j (erase k m) ≡ (if j == k then false else has j m)
has-erase j k m = ground (arith, lookup-erase j k m)

-- What becomes of one row's timers and of its being held.
abbrev pub Takes : ℕ → ℕ → Dispatcher → Dispatcher → Type 0
Takes id id' d d' =
    (holds id d' ≡ (id == id' || holds id d))
    × (live id d' ≤ live id d + (if id' == id then 1 else 0))

disposed-Takes : (id : ℕ) (r : Row) (d : Dispatcher) → Takes id r.id d (disposed r d)
unfolding disposed holds live
disposed-Takes id r d = (ground (arith, has-insert id r.id r.stored.due d.called), omega arith)

over-Takes : (id : ℕ) (r : Row) (d : Dispatcher) → Takes id r.id d (over r d)
unfolding over holds live
over-Takes id r d = (ground (arith, contains-add id r.id d.ended), omega arith)

timed-Takes : (id now : ℕ) (r : Row) (d : Dispatcher) → Takes id r.id d (timed now r d)
unfolding timed holds live
timed-Takes id now r d = (
  ground (arith, has-insert id r.id (record { timer = d.serial; lane = r.stored.lane }) d.armed),
  omega arith,
)

-- A row that `arm` does not leave alone is held, with a timer more at most.
pub arm_free-Takes :
    (occur : Occurrences) (id now : ℕ) (r : Row) (d : Dispatcher)
    → Takes id r.id d (arm_free occur now r d)
unfolding arm_free arm_once
arm_free-Takes occur id now r d =
    grind (arith, timed-Takes id now r d, over-Takes id r d, disposed-Takes id r d)

abbrev bit : Bool → ℕ
bit b = if b then 1 else 0

-- A row's timers, and one more while it may be armed.
unfoldable potential : ℕ → Dispatcher → ℕ
potential id d = live id d + bit (not (holds id d))

arm-potential :
    (occur : Occurrences) (id now : ℕ) (r : Row) (d : Dispatcher)
    → potential id (arm occur now r d) ≤ potential id d
unfolding arm potential
arm-potential occur id now r d = elim (Bool-cases (r.id == id)) [
  | inl same ↦
      let e = (==_iff r.id id).0 same in
      let e' = ap (λ k. holds k d) e in ground (arith, arm_free-Takes occur id now r d)
  | inr other ↦ ground (arith, arm_free-Takes occur id now r d)
]

-- A row that is held stays so when another is armed, and gets no timer.
arm_kept :
    (occur : Occurrences) (id now : ℕ) (r : Row) (d : Dispatcher)
    → holds id d ≡ true
    → (holds id (arm occur now r d) ≡ true) × (live id (arm occur now r d) ≤ live id d)
unfolding arm
arm_kept occur id now r d h = elim (Bool-cases (r.id == id)) [
  | inl same ↦ let e = ap (λ k. holds k d) ((==_iff r.id id).0 same) in ground arith
  | inr other ↦ ground (arith, arm_free-Takes occur id now r d)
]

-- What `arm` holds was held, or is the row.
arm_held :
    (occur : Occurrences) (id now : ℕ) (r : Row) (d : Dispatcher)
    → holds id (arm occur now r d) ≡ true
    → (id == r.id || holds id d) ≡ true
unfolding arm
arm_held occur id now r d h = ground (arith, arm_free-Takes occur id now r d)

arms-potential :
    (occur : Occurrences) (id : ℕ) (page : List (ℕ × Row)) (d : Dispatcher)
    → potential id (arms occur page d) ≤ potential id d
unfolding arms
arms-potential occur id [] d = omega arith
arms-potential occur id ((now, r) ∷ page) d =
    omega (arith, arms-potential occur id page (arm occur now r d), arm-potential occur id now r d)

pub arms_kept :
    (occur : Occurrences) (id : ℕ) (page : List (ℕ × Row)) (d : Dispatcher)
    → holds id d ≡ true
    → (holds id (arms occur page d) ≡ true) × (live id (arms occur page d) ≤ live id d)
unfolding arms
arms_kept occur id [] d h = (h, omega arith)
arms_kept occur id ((now, r) ∷ page) d h =
    let (h', le) = arm_kept occur id now r d h in
    let (h'', le') = arms_kept occur id page (arm occur now r d) h' in (h'', omega arith)

arms_held :
    (occur : Occurrences) (id : ℕ) (page : List (ℕ × Row)) (d : Dispatcher)
    → holds id (arms occur page d) ≡ true
    → (contains id (ids page) || holds id d) ≡ true
unfolding arms
arms_held occur id [] d h = h
arms_held occur id ((now, r) ∷ page) d h =
    let rest = arms_held occur id page (arm occur now r d) h in
    ground (arith, arm_held occur id now r d)

module _ (id : ℕ) where
  erase-live :
      (k : ℕ) (m : List (ℕ × Timer))
      → count_if (λ e. e.1.row.id == id) (erase k m) ≤ count_if (λ e. e.1.row.id == id) m
  erase-live k [] = omega arith
  erase-live k (e ∷ m) = ground (arith, erase-live k m)

  erase-lookup-live :
      (k : ℕ) (t : Timer) (m : List (ℕ × Timer))
      → lookup k m ≡ some t
      → count_if (λ e. e.1.row.id == id) (erase k m) + bit (t.row.id == id)
        ≤ count_if (λ e. e.1.row.id == id) m
  erase-lookup-live k t [] h = cc
  erase-lookup-live k t (e ∷ m) h = ground (arith, erase-live k m, erase-lookup-live k t m)

  give_up-live :
      (keeps : ℕ → Armed → Bool) (m : List (ℕ × Armed)) (d : Dispatcher)
      → live id (give_up keeps m d) ≤ live id d
  unfolding give_up live
  give_up-live keeps [] d = omega arith
  give_up-live keeps ((i, a) ∷ m) d =
      let d' = record d { timers = erase a.timer d.timers; armed = erase i d.armed } in
      let rest = give_up-live keeps m in
      ground (arith, rest d, rest d', erase-live a.timer d.timers)

  clear-live :
      (m : List (ℕ × Armed)) (ts : List (ℕ × Timer))
      → count_if (λ e. e.1.row.id == id) (clear m ts) ≤ count_if (λ e. e.1.row.id == id) ts
  unfolding clear
  clear-live [] ts = omega arith
  clear-live ((i, a) ∷ m) ts = omega (arith, clear-live m (erase a.timer ts), erase-live a.timer ts)

-- What is kept is still held.
holds-give_up :
    (keeps : ℕ → Armed → Bool) (id : ℕ) (m : List (ℕ × Armed)) (d : Dispatcher)
    → ((a : Armed) → keeps id a ≡ true)
    → holds id (give_up keeps m d) ≡ holds id d
unfolding give_up holds
holds-give_up keeps id [] d k = refl
holds-give_up keeps id ((i, a) ∷ m) d k =
    let d' = record d { timers = erase a.timer d.timers; armed = erase i d.armed } in
    elim (Bool-cases (id == i)) [
      | inl same ↦
          let kept = ap (λ j. keeps j a) (sym ((==_iff id i).0 same)) ∙ k a in
          ground (arith, holds-give_up keeps id m d k)
      | inr other ↦ ground (
        arith,
        has-erase id i d.armed,
        holds-give_up keeps id m d k,
        holds-give_up keeps id m d' k,
      )
    ]

forget-live : (id : ℕ) (read : List ℕ) (d : Dispatcher) → live id (forget read d) ≤ live id d
unfolding forget
forget-live id read d = give_up-live id _ d.armed d

disarm-live : (id : ℕ) (lanes : List ℕ) (d : Dispatcher) → live id (disarm lanes d) ≤ live id d
unfolding disarm
disarm-live id lanes d = give_up-live id _ d.armed d

pub forget_kept :
    (id : ℕ) (read : List ℕ) (d : Dispatcher)
    → contains id read ≡ true
    → holds id (forget read d) ≡ holds id d
unfolding forget
forget_kept id read d h =
    holds-give_up (λ i a. contains i read || has i d.called) id d.armed d (λ a. ground arith)

-- An event that sets no timer of a row leaves it what it had, unless the row is let go.
bounded :
    (occur : Occurrences) (id : ℕ) (d : Dispatcher) (e : Event)
    → live id (step occur d e).0 ≤ live id d
    → potential id (step occur d e).0 ≤ potential id d + bit (lets_go occur id d e)
unfolding potential lets_go
bounded occur id d e le = ground arith

scanned-potential :
    (occur : Occurrences) (id : ℕ) (page : List (ℕ × Row)) (d : Dispatcher)
    → potential id (scanned occur page d) ≤ potential id d + bit (lets_go occur id d (fetched page))
unfolding potential scanned step
scanned-potential occur id page d =
    let d' = arms occur page d in
    elim (Bool-cases (holds id d)) [
      | inl held ↦
          let kept = arms_kept occur id page d held in
          bounded occur id d (fetched page) (ground (arith, forget-live id (ids page) d'))
      | inr free ↦ ground (
        arith,
        arms-potential occur id page d,
        arms_held occur id page d,
        forget-live id (ids page) d',
        forget_kept id (ids page) d',
      )
    ]

woken-potential :
    (id timer : ℕ) (d : Dispatcher)
    → d.closing ≡ false
    → times id (then_calls (woken timer d).1 []) + potential id (woken timer d).0 ≤ potential id d
unfolding potential woken dispatch then_calls times live holds
woken-potential id timer d works = elim (Option-cases (lookup timer d.timers)) [
  | inl e ↦ ground arith
  | inr (t, e) ↦ ground (arith, erase-lookup-live id timer t d.timers e)
]

closing-live :
    (id timer : ℕ) (d : Dispatcher)
    → d.closing ≡ true
    → (live id (woken timer d).0 ≤ live id d) × ((woken timer d).1 ≡ none)
unfolding woken dispatch live
closing-live id timer d shut = elim (Option-cases (lookup timer d.timers)) [
  | inl e ↦ ground arith
  | inr (t, e) ↦ ground (arith, erase-live id timer d.timers)
]

-- What an event calls of a row is paid for by a timer, or by letting the row go.
abbrev Paid : Occurrences → ℕ → Dispatcher → Event → Type 0
Paid occur id d e =
    times id (then_calls (step occur d e).1 []) + potential id (step occur d e).0
    ≤ potential id d + bit (lets_go occur id d e)

uncalled :
    (occur : Occurrences) (id : ℕ) (d : Dispatcher) (e : Event)
    → (step occur d e).1 ≡ none
    → live id (step occur d e).0 ≤ live id d
    → Paid occur id d e
unfolding then_calls times
uncalled occur id d e quiet le = ground (arith, bounded occur id d e le)

step-Paid : (occur : Occurrences) (id : ℕ) (d : Dispatcher) (e : Event) → Paid occur id d e
unfolding step
step-Paid occur id d (fetched page) =
    unfold then_calls times in omega (arith, scanned-potential occur id page d)
step-Paid occur id d (wakes timer) = elim (Bool-cases d.closing) [
  | inl shut ↦
      let (le, quiet) = closing-live id timer d shut in uncalled occur id d (wakes timer) quiet le
  | inr works ↦ omega (arith, woken-potential id timer d works)
]
step-Paid occur id d (ticked now) =
    uncalled occur id d (ticked now) refl (unfold tick live in ground arith)
step-Paid occur id d (adopted now lanes) =
    uncalled occur id d (adopted now lanes) refl
      (unfold adopt tick live in ground (arith, disarm-live id (slots lanes) d))
step-Paid occur id d done = uncalled occur id d done refl (unfold finished live in omega arith)
step-Paid occur id d (accepted r) =
    uncalled occur id d (accepted r) refl (unfold made disposed live in omega arith)
step-Paid occur id d (raised permanent r) =
    uncalled occur id d (raised permanent r) refl
      (unfold failed refused disposed over live in ground arith)
step-Paid occur id d (written m s) =
    uncalled occur id d (written m s) refl (unfold settled live in omega arith)
step-Paid occur id d paused =
    uncalled occur id d paused refl (unfold pause live in clear-live id d.armed d.timers)
step-Paid occur id d resumed = uncalled occur id d resumed refl (unfold unpause live in omega arith)
step-Paid occur id d closed =
    uncalled occur id d closed refl (unfold close live in clear-live id d.armed d.timers)

times-then_calls :
    (id : ℕ) (o : Option Row) (rs : List Row)
    → times id (then_calls o rs) ≡ times id (then_calls o []) + times id rs
unfolding times then_calls
times-then_calls id none rs = omega arith
times-then_calls id (some r) rs = omega arith

calls-potential :
    (occur : Occurrences) (id : ℕ) (d : Dispatcher) (es : List Event)
    → times id (calls occur d es) ≤ potential id d + releases occur id d es
unfolding calls releases
calls-potential occur id d [] = unfold times in omega arith
calls-potential occur id d (e ∷ es) =
    let d' = (step occur d e).0 in
    let rest = calls-potential occur id d' es in
    let split = times-then_calls id (step occur d e).1 (calls occur d' es) in
    omega (arith, step-Paid occur id d e)

-- However ticks, scans, changes of lanes, wake-ups, answers, settlements, pauses and closings follow
-- each other, a dispatcher without timers calls a row at most once more often than it let the row go:
-- than the row ceased to be armed, called and ended at once, with no timer of it cleared.
pub calls-releases :
    (occur : Occurrences) (id : ℕ) (d : Dispatcher) (es : List Event)
    → live id d ≡ 0
    → times id (calls occur d es) ≤ 1 + releases occur id d es
unfolding potential
calls-releases occur id d es none_live = ground (arith, calls-potential occur id d es)
