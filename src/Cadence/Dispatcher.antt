-- ===== src/Cadence/Dispatcher.antt =====
-- What makes delayed calls: extensions/cadence/source/Dispatcher.ts.
--
-- A timer is a number, `timers` are those that were set and neither woke nor were cleared. The
-- interval and the claim on lanes call `tick` and `adopt`, which are events here, as are the answers
-- of the metronome and of the operations that are called. Measurements, the log and the connectors
-- that calls go through are left out.
pub mod Run
pub mod Counts
pub mod Scans
pub mod Quiet
use toa.Prelude.{
  ℕ, suc, ◌+◌, ◌-◌, ◌*◌, Bool, true, false, not, ◌||◌, ◌&&◌, Option, none, some, List, [], ◌∷◌, map,
  ltb, leb, ◌==◌, length, if◌then◌else◌,
}
use toa.Prelude.Maps.{lookup, insert, erase, contains, add, remove}
use toa.Cadence.Row.{Occurrences, Stored, bound}

-- The other fields of a row are those that are stored.
pub record Row : Type 0 where
  pub id : ℕ
  pub stored : Stored

pub record Armed : Type 0 where
  pub timer : ℕ
  pub lane : ℕ

-- what a timer dispatches, and when it wakes
pub record Timer : Type 0 where
  pub row : Row
  pub wakes : ℕ

pub record Dispatcher : Type 0 where
  pub discreteness : ℕ
  pub regions : List ℕ
  pub armed : List (ℕ × Armed)
  pub called : List (ℕ × ℕ)
  pub ended : List ℕ
  pub timers : List (ℕ × Timer)
  -- the number of the timer that is set next
  pub serial : ℕ
  pub scanning : Bool
  pub started : ℕ
  pub closing : Bool
  pub quiesced : Bool

-- `constructor`
unfoldable pub new : ℕ → List ℕ → Dispatcher
new discreteness regions = record {
  discreteness = discreteness;
  regions = regions;
  armed = [];
  called = [];
  ended = [];
  timers = [];
  serial = 0;
  scanning = false;
  started = 0;
  closing = false;
  quiesced = false;
}

-- `map.has(key)`
abbrev pub has {ℓ} : {V : Type ℓ} → ℕ → List (ℕ × V) → Bool
has k m = elim (lookup k m) [ none ↦ false | some v ↦ true ]

-- Whether a row is left alone by `arm`.
unfoldable pub holds : ℕ → Dispatcher → Bool
holds id d = has id d.armed || has id d.called || contains id d.ended

-- The row is settled without the call, or after it.
pub disposed : Row → Dispatcher → Dispatcher
disposed r d = record d { called = insert r.id r.stored.due d.called }

pub over : Row → Dispatcher → Dispatcher
over r d = record d { ended = add r.id d.ended }

pub timed : ℕ → Row → Dispatcher → Dispatcher
timed now r d = record d {
  timers = (d.serial, record { row = r; wakes = now + (r.stored.due - now) }) ∷ d.timers;
  armed = insert r.id (record { timer = d.serial; lane = r.stored.lane }) d.armed;
  serial = suc d.serial;
}

pub arm_once : ℕ → Row → Dispatcher → Dispatcher
unfolding disposed timed
arm_once now r d = if leb r.stored.expires now then disposed r d else timed now r d

pub arm_free : Occurrences → ℕ → Row → Dispatcher → Dispatcher
unfolding arm_once over
arm_free occur now r d = elim r.stored.schedule [
  | none ↦ arm_once now r d
  | some c ↦
      if leb r.stored.expires now
      then over r d
      else if leb (bound occur c r.stored) now
      then disposed r d
      else arm_once now r d
]

pub arm : Occurrences → ℕ → Row → Dispatcher → Dispatcher
unfolding arm_free
arm occur now r d = if holds r.id d then d else arm_free occur now r d

-- `clearTimeout` and `armed.delete`, of the entries that are not kept
pub give_up : (ℕ → Armed → Bool) → List (ℕ × Armed) → Dispatcher → Dispatcher
give_up keeps [] d = d
give_up keeps ((id, a) ∷ m) d =
    let d' = record d { timers = erase a.timer d.timers; armed = erase id d.armed } in
    give_up keeps m (if keeps id a then d else d')

pub disarm : List ℕ → Dispatcher → Dispatcher
unfolding give_up
disarm lanes d = give_up (λ id a. contains a.lane lanes) d.armed d

pub forget : List ℕ → Dispatcher → Dispatcher
unfolding give_up
forget read d = give_up (λ id a. contains id read || has id d.called) d.armed d

-- Each row that was read, with the moment at which it is armed.
pub arms : Occurrences → List (ℕ × Row) → Dispatcher → Dispatcher
unfolding arm
arms occur [] d = d
arms occur ((now, r) ∷ page) d = arms occur page (arm occur now r d)

abbrev pub ids : List (ℕ × Row) → List ℕ
ids page = map (λ e. e.1.id) page

-- `BATCH`, `STALLED`
abbrev pub batch : ℕ
batch = 200

abbrev pub stalled : ℕ
stalled = 5

-- `scan`, once the rows were read
pub scanned : Occurrences → List (ℕ × Row) → Dispatcher → Dispatcher
unfolding arms forget
scanned occur page d =
    let d' = arms occur page d in if length page == batch then d' else forget (ids page) d'

pub record Query : Type 0 where
  pub lanes : List ℕ
  pub regions : List ℕ
  pub until : ℕ
  pub limit : ℕ

-- what `scan` reads, if it holds lanes
pub asks : Dispatcher → ℕ → Option (List ℕ) → Option Query
asks d now none = none
asks d now (some []) = none
asks d now (some (lane ∷ lanes)) = some (record {
  lanes = lane ∷ lanes;
  regions = d.regions;
  until = now + 2 * d.discreteness;
  limit = batch;
})

-- Nothing, a scan that is skipped, with whether it is one of a stuck pass, or a scan.
pub data Pass : Type 0 where
  idle : Pass
  skipped : Bool → Pass
  scan : Pass

pub tick : ℕ → Dispatcher → Dispatcher × Pass
tick now d =
    if d.closing || d.quiesced
    then (d, idle)
    else if d.scanning
    then (d, skipped (ltb (stalled * d.discreteness) (now - d.started)))
    else (record d { scanning = true; started = now }, scan)

-- `.finally` of a scan
pub finished : Dispatcher → Dispatcher
finished d = record d { scanning = false }

abbrev slots : Option (List ℕ) → List ℕ
slots none = []
slots (some lanes) = lanes

pub adopt : ℕ → Option (List ℕ) → Dispatcher → Dispatcher × Pass
unfolding disarm tick
adopt now lanes d = tick now (disarm (slots lanes) d)

-- What `clearTimeout` leaves of the timers, of each that is armed.
pub clear : List (ℕ × Armed) → List (ℕ × Timer) → List (ℕ × Timer)
clear [] timers = timers
clear ((id, a) ∷ m) timers = clear m (erase a.timer timers)

-- `close` and `pause`, before they settle
pub close : Dispatcher → Dispatcher
unfolding clear
close d = record d { closing = true; timers = clear d.armed d.timers; armed = [] }

pub pause : Dispatcher → Dispatcher
unfolding clear
pause d = record d { quiesced = true; timers = clear d.armed d.timers; armed = [] }

pub unpause : Dispatcher → Dispatcher
unpause d = record d { quiesced = false }

-- A call's `id`: the row's, or what is derived of the row's and an occurrence.
pub data Identity : Type 0 where
  own : ℕ → Identity
  derived : ℕ → ℕ → Identity

pub record Request : Type 0 where
  pub endpoint : ℕ
  pub request : Option ℕ
  -- of the input
  pub at : Option ℕ
  pub trail : Option (List ℕ)
  pub id : Identity
  pub task : Bool

pub requested : Row → Request
requested r = record {
  endpoint = r.stored.endpoint;
  request = r.stored.request;
  at = elim r.stored.schedule [ none ↦ none | some c ↦ some r.stored.due ];
  trail = r.stored.trail;
  id = elim r.stored.schedule [ none ↦ own r.id | some c ↦ derived r.id r.stored.due ];
  task = true;
}

-- `dispatch`, to where it calls
pub dispatch : Row → Dispatcher → Dispatcher × Option Row
dispatch r d = if d.closing then (record d { armed = erase r.id d.armed }, none) else (d, some r)

-- A timer wakes.
pub woken : ℕ → Dispatcher → Dispatcher × Option Row
unfolding dispatch
woken timer d = elim (lookup timer d.timers) [
  | none ↦ (d, none)
  | some t ↦ dispatch t.row (record d { timers = erase timer d.timers })
]

-- `.then` of a call, with `.finally`
pub made : Row → Dispatcher → Dispatcher
unfolding disposed
made r d = let d' = disposed r d in record d' { armed = erase r.id d.armed }

refused : Row → Dispatcher → Dispatcher
unfolding disposed over
refused r d = elim r.stored.schedule [ none ↦ disposed r d | some c ↦ over r d ]

-- `.catch` of a call, with `.finally`
pub failed : Bool → Row → Dispatcher → Dispatcher
unfolding refused
failed permanent r d =
    let d' = if permanent then refused r d else d in record d' { armed = erase r.id d'.armed }

-- What `settle` writes, if anything: what was made, with its occurrence, and what is over.
pub settling : Dispatcher → Option (List (ℕ × ℕ) × List ℕ)
settling d = if length d.called == 0 && length d.ended == 0 then none else some (d.called, d.ended)

erase_all : List (ℕ × ℕ) → List (ℕ × ℕ) → List (ℕ × ℕ)
erase_all [] m = m
erase_all ((id, due) ∷ made) m = erase_all made (erase id m)

remove_all : List ℕ → List ℕ → List ℕ
remove_all [] s = s
remove_all (id ∷ ended) s = remove_all ended (remove id s)

-- `settle`, once it was written
pub settled : List (ℕ × ℕ) → List ℕ → Dispatcher → Dispatcher
unfolding erase_all remove_all
settled made ended d = record d {
  called = erase_all made d.called;
  ended = remove_all ended d.ended;
}
