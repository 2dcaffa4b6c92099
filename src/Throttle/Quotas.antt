-- ===== src/Throttle/Quotas.antt =====
-- A quota per key, metered by GCRA: throttle/Quotas.ts.
--
-- The source divides `interval` by `requests` in floating point. Here every moment and every debt
-- is counted in units of 1/requests of a millisecond, in which `emission` is `interval` and
-- `capacity` is `interval * requests`: the arithmetic is exact, and rounding a double is not
-- modelled. `Date.now()` is an argument, in milliseconds, and is brought to the unit by `at`.
pub mod Decision
pub mod Rate
pub mod Flush
mod Tests
use Prim.Native.String.{String}
use toa.Prelude.{
  ℕ, ◌+◌, ◌-◌, ◌*◌, ◌/◌, max, min, Bool, true, false, not, ◌||◌, Option, none, some, List, [], ◌∷◌,
  ltb, leb, if◌then◌else◌,
}
use toa.Prelude.Maps.{lookup, insert}
use toa.Prelude.Int.{ℤ, pos, pos_part, ◌+ℤ◌, ◌-ℤ◌}
use toa.Throttle.Keys.{Keys, Context, Parameter, Output, get, matches}

pub record Entry : Type 0 where
  pub tat : ℕ
  pub debt : ℤ

-- What the keys of a quota are reported under: its name, or the budget that it carries.
pub data Prefix : Type 0 where
  named : String → Prefix
  budget : ℕ → ℕ → Prefix

pub record Quotas : Type 0 where
  pub keys : Keys
  pub requests : ℕ
  pub interval : ℕ
  pub conditional : Bool
  pub prefix : Prefix
  pub entries : List (ℕ × Entry)
  -- `keyed`, by the identity of the request
  pub keyed : List (ℕ × ℕ)

pub record Options : Type 0 where
  pub keys : Keys
  pub requests : ℕ
  pub interval : ℕ
  pub conditional : Bool
  pub name : Option String

prefixed : Option String → ℕ → ℕ → Prefix
prefixed none requests interval = budget requests interval
prefixed (some name) requests interval = named name

-- The constructor.
pub new : Options → Quotas
unfolding prefixed
new o = record {
  keys = o.keys;
  requests = o.requests;
  interval = o.interval;
  conditional = o.conditional;
  prefix = prefixed o.name o.requests o.interval;
  entries = [];
  keyed = [];
}

-- `period(interval)`, in tenths of a millisecond, in which it is a whole number.
pub period : ℕ → ℕ
period interval = min (max interval 2500) 20000

abbrev pub emission : Quotas → ℕ
emission q = q.interval

abbrev pub capacity : Quotas → ℕ
capacity q = q.interval * q.requests

abbrev pub at : Quotas → ℕ → ℕ
at q now = now * q.requests

-- `Math.max(entry?.tat ?? now, now)`
pub arrival : Option Entry → ℕ → ℕ
arrival none now = now
arrival (some e) now = max e.tat now

charge : Quotas → ℕ → Option Entry → ℕ → Quotas
charge q key none tat = record q {
  entries = insert key (record { tat = tat + emission q; debt = pos (emission q) }) q.entries;
}
charge q key (some e) tat = record q {
  entries =
      insert key (record { tat = tat + emission q; debt = e.debt +ℤ pos (emission q) }) q.entries;
}

-- `Math.ceil(units / 1000)` of a debt in units.
pub seconds : ℕ → ℕ → ℕ
seconds requests units = (units + 1000 * requests - 1) / (1000 * requests)

-- A keyed request: `admit > now` is written without the difference, which could be negative.
pub decide : Quotas → ℕ → ℕ → Quotas × ℕ
unfolding charge
decide q key now =
    let entry = lookup key q.entries in
    let tat = arrival entry (at q now) in
    if ltb (at q now + capacity q) (tat + emission q)
    then (q, seconds q.requests (tat + emission q - capacity q - at q now))
    else (if q.conditional then q else charge q key entry tat, 0)

check_keyed : Quotas → Context → ℕ → Option ℕ → Quotas × ℕ
check_keyed q c now none = (q, 0)
check_keyed q c now (some key) = decide (record q { keyed = insert c.id key q.keyed }) key now

pub check : (String → ℕ) → Quotas → Context → List Parameter → ℕ → Quotas × ℕ
unfolding check_keyed
check digest q c ps now = check_keyed q c now (get digest q.keys c ps)

keyed_or : Option ℕ → Option ℕ → Option ℕ
keyed_or none other = other
keyed_or (some key) other = some key

use_keyed : Quotas → ℕ → Option ℕ → Quotas
unfolding charge
use_keyed q now none = q
use_keyed q now (some key) =
    charge q key (lookup key q.entries) (arrival (lookup key q.entries) (at q now))

pub use_quota : (String → ℕ) → Quotas → Context → Output → ℕ → Quotas
unfolding use_keyed keyed_or
use_quota digest q c output now =
    if not q.conditional || not (matches q.keys output)
    then q
    else use_keyed q now (keyed_or (lookup c.id q.keyed) (get digest q.keys c []))

-- `Math.round` of a debt, in milliseconds. Of a negative one it is zero or less, which is asked of
-- it no further.
pub round : Quotas → ℤ → ℕ
round q debt = (2 * pos_part debt + q.requests) / (2 * q.requests)

-- What an entry has to report, and whether it stays.
flush_entries : Quotas → ℕ → List (ℕ × Entry) → List (ℕ × Entry) × List (ℕ × ℕ)
flush_entries q now [] = ([], [])
flush_entries q now ((key, e) ∷ es) =
    let (kept, batch) = flush_entries q now es in
    if ltb 0 (round q e.debt)
    then ((key, e) ∷ kept, (key, round q e.debt) ∷ batch)
    else if leb e.tat (at q now)
    then (kept, batch)
    else ((key, e) ∷ kept, batch)

pub flush : Quotas → ℕ → Quotas × List (ℕ × ℕ)
unfolding flush_entries
flush q now =
    let (kept, batch) = flush_entries q now q.entries in (record q { entries = kept }, batch)

-- `debt` is the group's, in milliseconds, and `delta` is what was reported of this process's.
settle_entry : Quotas → ℕ → ℕ → ℕ → ℕ → Option Entry → Quotas
settle_entry q key delta debt now none =
    if ltb 0 debt
    then record q {
      entries = insert key (record { tat = at q (now + debt); debt = pos 0 }) q.entries;
    }
    else q
settle_entry q key delta debt now (some e) = record q {
  entries =
      insert key (record { tat = max e.tat (at q (now + debt)); debt = e.debt -ℤ pos (at q delta) })
        q.entries;
}

pub settled : Quotas → ℕ → ℕ → ℕ → ℕ → Quotas
unfolding settle_entry
settled q key delta debt now = settle_entry q key delta debt now (lookup key q.entries)
