-- ===== src/Cadence/Dispatcher/Run.antt =====
-- What befalls a dispatcher, and the calls that it makes: extensions/cadence/source/Dispatcher.ts.
use toa.Prelude.{
  ℕ, ◌+◌, Bool, not, ◌&&◌, Option, none, some, List, [], ◌∷◌, count_if, ◌==◌, if◌then◌else◌,
}
use toa.Cadence.Row.{Occurrences}
use toa.Cadence.Dispatcher.{
  Row, Dispatcher, holds, scanned, tick, finished, adopt, close, pause, unpause, woken, made,
  failed, settled,
}

-- The interval ticks, the claim on lanes changes, a scan's rows arrive and it ends, a timer wakes, a
-- call is accepted or raises, a settlement is written, and the process is quiet, works or closes.
pub data Event : Type 0 where
  ticked : ℕ → Event
  adopted : ℕ → Option (List ℕ) → Event
  fetched : List (ℕ × Row) → Event
  done : Event
  wakes : ℕ → Event
  accepted : Row → Event
  raised : Bool → Row → Event
  written : List (ℕ × ℕ) → List ℕ → Event
  paused resumed closed : Event

-- The dispatcher after an event, and the row that is called.
unfoldable pub step : Occurrences → Dispatcher → Event → Dispatcher × Option Row
step occur d (ticked now) = ((tick now d).0, none)
step occur d (adopted now lanes) = ((adopt now lanes d).0, none)
step occur d (fetched page) = (scanned occur page d, none)
step occur d done = (finished d, none)
step occur d (wakes timer) = woken timer d
step occur d (accepted r) = (made r d, none)
step occur d (raised permanent r) = (failed permanent r d, none)
step occur d (written m s) = (settled m s d, none)
step occur d paused = (pause d, none)
step occur d resumed = (unpause d, none)
step occur d closed = (close d, none)

unfoldable pub then_calls : Option Row → List Row → List Row
then_calls none rs = rs
then_calls (some r) rs = r ∷ rs

-- The rows whose calls are made over a run, in order.
unfoldable pub calls : Occurrences → Dispatcher → List Event → List Row
calls occur d [] = []
calls occur d (e ∷ es) = then_calls (step occur d e).1 (calls occur (step occur d e).0 es)

-- How many of the timers are a row's.
unfoldable pub live : ℕ → Dispatcher → ℕ
live id d = count_if (λ e. e.1.row.id == id) d.timers

-- Whether a row ceases to be held by an event, and no timer of it with it.
unfoldable pub lets_go : Occurrences → ℕ → Dispatcher → Event → Bool
lets_go occur id d e =
    let d' = (step occur d e).0 in holds id d && not (holds id d') && live id d' == live id d

-- How often a row ceases to be held over a run.
unfoldable pub releases : Occurrences → ℕ → Dispatcher → List Event → ℕ
releases occur id d [] = 0
releases occur id d (e ∷ es) =
    (if lets_go occur id d e then 1 else 0) + releases occur id (step occur d e).0 es

-- How often a row is called.
unfoldable pub times : ℕ → List Row → ℕ
times id = count_if (λ r. r.id == id)
