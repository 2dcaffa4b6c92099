-- ===== src/Connector.antt =====
-- Trees of connectors, and the walks that stop and restart what they do of their own accord:
-- `halt` and `restore` of runtime/core/source/connector.ts, and of gate.ts.
--
-- A connector is a number, and a tree is what each depends on and, if it is a gate, what it holds.
-- A walk answers `none` when it is out of fuel. `pause` and `unpause` may fail, which is reported
-- and changes nothing else: what is kept of them is that they were called. Nothing else happens to
-- the tree while it is walked.
mod Walking
pub mod Halt
pub mod Ending
pub mod Restore
pub mod Link
mod Tests
use toa.Prelude.{ℕ, zero, suc, Bool, Option, none, some, List, [], ◌∷◌, ◌++◌, if◌then◌else◌}
use toa.Prelude.Maps.{contains, add, remove}

pub record Tree : Type 0 where
  pub dependencies : ℕ → List ℕ
  -- `live`, which only a gate has
  pub live : ℕ → Option ℕ

pub record Walk : Type 0 where
  pub visited : List ℕ
  -- the connectors that are `#halted`
  pub halted : List ℕ
  -- of which connectors `pause` was called, or `unpause`, in that order
  pub called : List ℕ

-- What a walk starts with: `new Set()`.
pub unwalked : List ℕ → Walk
unwalked halted = record { visited = []; halted = halted; called = [] }

-- `this.live?.`
pub held : Option ℕ → List ℕ
held none = []
held (some id) = id ∷ []

abbrev pub bind {ℓ κ} : {A : Type ℓ} {B : Type κ} → Option A → (A → Option B) → Option B
bind none f = none
bind (some a) f = f a

-- `for (const dependency of …) await dependency.walk(visited)`
pub walk_all {ℓ} : {S : Type ℓ} → (ℕ → S → Option S) → List ℕ → S → Option S
walk_all walk [] s = some s
walk_all walk (id ∷ ids) s = bind (walk id s) (walk_all walk ids)

-- `visited.add(this)`, and `pause`, unless it is halted already
pub stop : ℕ → Walk → Walk
stop id w = if contains id w.halted then record w { visited = add id w.visited } else record {
  visited = add id w.visited;
  halted = add id w.halted;
  called = w.called ++ id ∷ [];
}

-- What a halt goes on to: the dependencies, and then what a gate holds.
pub below_halt : Tree → ℕ → List ℕ
unfolding held
below_halt t id = t.dependencies id ++ held (t.live id)

-- `halt`
pub halt : Tree → ℕ → ℕ → Walk → Option Walk
unfolding walk_all stop below_halt
halt t zero id w = none
halt t (suc fuel) id w =
    let below = walk_all (halt t fuel) (below_halt t id) (stop id w) in
    if contains id w.visited then some w else below

-- `unpause`, if it was halted
pub start : ℕ → Walk → Walk
start id w =
    if contains id w.halted
    then record w { halted = remove id w.halted; called = w.called ++ id ∷ [] }
    else w

-- `restore` of a connector, by the walk of its dependencies
restore_self : (ℕ → Walk → Option Walk) → Tree → ℕ → Walk → Option Walk
unfolding walk_all start
restore_self walk t id w =
    let below = walk_all walk (t.dependencies id) (record w { visited = add id w.visited }) in
    if contains id w.visited then some w else bind below (λ w'. some (start id w'))

-- `restore`: a gate first restores what it holds
pub restore : Tree → ℕ → ℕ → Walk → Option Walk
unfolding walk_all restore_self held
restore t zero id w = none
restore t (suc fuel) id w =
    let gate =
      bind (walk_all (restore t fuel) (held (t.live id)) w) (restore_self (restore t fuel) t id) in
    if contains id w.visited then some w else gate
