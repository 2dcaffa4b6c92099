-- ===== src/Connector/Tests.antt =====
-- A composition, 0, of two components, 1 and 2, that share a storage, 3; what 2 has of it is
-- behind a gate, 4.
use toa.Prelude.{
  ◌+◌, ◌≤◌, ℕ, suc, ◌<◌, ◌≡◌, refl, true, false, none, some, List, [], ◌∷◌, ◌==◌, if◌then◌else◌,
  arith, length,
}
use toa.Prelude.Maps.{contains}
use toa.Connector.{Tree, Walk, unwalked, below_halt, halt, restore, walk_all, stop, held}
use toa.Connector.Link.{Event, new, run, connects, disconnects, lands, fails}
use toa.Connector.Link.Closed.{in_use}
use toa.Connector.Link.Cuts.{failures, run-closes}
use toa.Connector.Halt.{Child, Under, IsFaithful}
use toa.Connector.Ending.{halt_stops}
use toa.Connector.Restore.{Wakes}
use toa.Connector.Restore.Order.{restore-Wakes}

abbrev dependencies : ℕ → List ℕ
dependencies id =
    if id == 0 then 1 ∷ 2 ∷ [] else if id == 1 then 3 ∷ [] else if id == 2 then 4 ∷ [] else []

abbrev composition : Tree
composition = record { dependencies = dependencies; live = λ id. if id == 4 then some 3 else none }

abbrev connectors : List ℕ
connectors = 0 ∷ 1 ∷ 2 ∷ 3 ∷ 4 ∷ []

finite :
    (u v : ℕ) → contains u connectors ≡ true → Child composition u v → contains v connectors ≡ true
finite u v m c = ground arith

halt_stops_example :
    (w : Walk) × (halt composition (suc (length connectors)) 0 (unwalked []) ≡ some w)
    × ((v : ℕ) → Under composition 0 v → contains v w.halted ≡ true)
    × IsFaithful composition 0 [] w
halt_stops_example = halt_stops composition connectors finite 0 [] refl

-- The storage is paused before the second of its dependants.
halted_first :
    halt composition 6 0 (unwalked [])
    ≡ some (record {
      visited = 0 ∷ 1 ∷ 3 ∷ 2 ∷ 4 ∷ [];
      halted = 0 ∷ 1 ∷ 3 ∷ 2 ∷ 4 ∷ [];
      called = 0 ∷ 1 ∷ 3 ∷ 2 ∷ 4 ∷ [];
    })
unfolding halt below_halt held walk_all stop unwalked
halted_first = refl

abbrev rank : ℕ → ℕ
rank id = if id == 0 then 3 else if id == 2 then 2 else if id == 3 then 0 else 1

acyclic : (u v : ℕ) → Child composition u v → rank v < rank u
acyclic u v c = ground arith

restore-Wakes_example :
    (w : Walk) × (restore composition (suc (rank 0)) 0 (unwalked connectors) ≡ some w)
    × ((v : ℕ) → Under composition 0 v → contains v w.halted ≡ false)
    × Wakes composition connectors w.called w.halted
restore-Wakes_example = restore-Wakes composition rank acyclic connectors 0

-- A connection that was given up fails when the one after it is up.
abbrev given_up : List Event
given_up = connects ∷ disconnects false ∷ connects ∷ lands 1 false ∷ fails 0 ∷ []

run-closes_example :
    ((run given_up new).up
      ≡ (run given_up new).closes + (run given_up new).cuts + in_use (run given_up new))
    × ((run given_up new).cuts ≤ failures given_up)
run-closes_example = run-closes given_up

cut_once : (run given_up new).cuts ≡ 1
unfolding run new
cut_once = refl
