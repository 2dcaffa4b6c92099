-- ===== src/Outbox.antt =====
-- The outbox: runtime/core/source/outbox.ts, with the row of runtime/core/source/types/outbox.ts.
-- This file has what builds a row and what hands it to the destinations; `Groups` and `Pump` have
-- what the cycle does.
--
-- Ids and the names of destinations are only compared, so they are numbers. `#published`,
-- `#publishing` and `#inflight` have one key for each destination, and are one map to a `Desk`
-- here. A publication in flight is named by its row: `#send` is called only for a row that is not
-- being published to that destination. What awaits is split where it awaits: `send` is `#send` up
-- to `await sending`, `landed` and `failed` are what runs after it.
pub mod Groups
pub mod Pump
pub mod Invariant
pub mod Once
pub mod Marking
mod Tests
use Prim.Native.String.{String}
use toa.Prelude.{
  ℕ, zero, suc, ◌+◌, ◌*◌, Bool, true, false, not, ◌&&◌, ◌||◌, Option, none, some, List, [], ◌∷◌,
  ◌++◌, map, filter, length, leb, if◌then◌else◌,
}
use toa.Prelude.Maps.{lookup, insert, contains, add, remove}

abbrev pub lanes_total : ℕ
lanes_total = 128

abbrev pub inflight_cap : ℕ
inflight_cap = 1000

abbrev pub published_cap : ℕ
published_cap = 10000

pub record Row {ℓ} (E : Type ℓ) : Type ℓ where
  pub id : ℕ
  pub lane : ℕ
  pub published : Bool
  pub pending : ℕ
  pub outstanding : List ℕ
  pub trail : Option (List String)
  pub time : ℕ
  pub event : E

-- What a process holds for one destination.
pub record Desk : Type 0 where
  pub published : List ℕ
  pub publishing : List ℕ
  pub inflight : List ℕ

pub record Outbox : Type 0 where
  pub destinations : List ℕ
  pub durable : Bool
  pub defer : Bool
  pub gap : ℕ
  pub interval : ℕ
  pub batch : ℕ
  pub desks : List (ℕ × Desk)
  pub pumping : Bool
  pub closing : Bool
  pub unassigned : ℕ

-- What `Number(environment.get(…))` answers, as far as it is asked.
pub data Declared : Type 0 where
  nan : Declared
  natural : ℕ → Declared

pub number : Option ℕ → Declared → ℕ → ℕ
number (some n) value fallback = n
number none nan fallback = fallback
number none (natural zero) fallback = fallback
number none (natural (suc n)) fallback = suc n

pub record Options : Type 0 where
  pub interval : Option ℕ
  pub batch : Option ℕ
  pub gap : Option ℕ

-- What the environment declares of the outbox.
pub record Environment : Type 0 where
  pub interval : Declared
  pub batch : Declared
  pub defer : Bool

or_else : Option ℕ → ℕ → ℕ
or_else none fallback = fallback
or_else (some n) fallback = n

empty_desk : ℕ → ℕ × Desk
empty_desk d = (d, record { published = []; publishing = []; inflight = [] })

-- The constructor; `durable` is whether the storage has an outbox.
unfoldable pub new : List ℕ → Bool → Options → Environment → Outbox
unfolding number or_else empty_desk
new destinations durable o env =
    let interval = number o.interval env.interval 5000 in
    record {
      destinations = destinations;
      durable = durable;
      defer = env.defer;
      gap = or_else o.gap (interval * 3);
      interval = interval;
      batch = number o.batch env.batch 200;
      desks = map empty_desk destinations;
      pumping = false;
      closing = false;
      unassigned = 0;
    }

-- `owned[i]`; `i` is below the length.
nth : ℕ → List ℕ → ℕ
nth i [] = 0
nth zero (x ∷ xs) = x
nth (suc i) (x ∷ xs) = nth i xs

-- `pick n` is `Math.floor(Math.random() * n)`.
pub lane : (ℕ → ℕ) → Option (List ℕ) → ℕ
unfolding nth
lane pick none = pick lanes_total
lane pick (some []) = pick lanes_total
lane pick (some (x ∷ owned)) = nth (pick (length (x ∷ owned))) (x ∷ owned)

-- `id` is what `newid` answers, `hops` is the chain in scope.
pub row {ℓ} :
    {E : Type ℓ} → Outbox → ℕ → (ℕ → ℕ) → Option (List ℕ) → ℕ → Option (List String) → E → Row E
row o id pick owned now hops event = record {
  id = id;
  lane = lane pick owned;
  published = false;
  pending = now + o.gap;
  outstanding = o.destinations;
  trail = hops;
  time = now;
  event = event;
}

-- `!published.has(row.id) && !publishing.has(row.id)`
pub free : Option Desk → ℕ → Bool
free none id = false
free (some x) id = not (contains id x.published) && not (contains id x.publishing)

pub due : Outbox → ℕ → List ℕ → ℕ → Bool
unfolding free
due o id outstanding d = contains d outstanding && free (lookup d o.desks) id

-- What was given to a destination's `emit`, as the destination and the row.
abbrev pub Sent : Type 0
Sent = List (ℕ × ℕ)

-- `#send` up to its `await`, with the desk of the destination.
pub send_from : Outbox → ℕ → ℕ → Option Desk → Outbox × Sent
send_from o id d none = (o, [])
send_from o id d (some x) =
    if leb inflight_cap (length x.inflight) || leb published_cap (length x.published)
    then (o, [])
    else (
      record o {
        desks =
            insert d (record x { publishing = add id x.publishing; inflight = id ∷ x.inflight })
              o.desks;
      },
      (d, id) ∷ [],
    )

pub send : Outbox → ℕ → ℕ → Outbox × Sent
unfolding send_from
send o id d = send_from o id d (lookup d o.desks)

-- The rest of `#send`, by how the publication ended.
landed_desk : ℕ → Desk → Desk
landed_desk id x = record {
  published = add id x.published;
  publishing = remove id x.publishing;
  inflight = remove id x.inflight;
}

failed_desk : ℕ → Desk → Desk
failed_desk id x = record x { publishing = remove id x.publishing; inflight = remove id x.inflight }

-- Only a publication that is in flight ends.
pub ended_from : (Desk → Desk) → Outbox → ℕ → ℕ → Option Desk → Outbox
ended_from f o d id none = o
ended_from f o d id (some x) =
    if contains id x.inflight then record o { desks = insert d (f x) o.desks } else o

pub landed : Outbox → ℕ → ℕ → Outbox
unfolding landed_desk ended_from
landed o d id = ended_from (landed_desk id) o d id (lookup d o.desks)

pub failed : Outbox → ℕ → ℕ → Outbox
unfolding failed_desk ended_from
failed o d id = ended_from (failed_desk id) o d id (lookup d o.desks)

-- `#publish`: the destinations in their order.
pub publish_to : Outbox → ℕ → List ℕ → List ℕ → Outbox × Sent
publish_to o id outstanding [] = (o, [])
publish_to o id outstanding (d ∷ ds) =
    let (o', sent) = if due o id outstanding d then send o id d else (o, []) in
    let (o'', more) = publish_to o' id outstanding ds in (o'', sent ++ more)

pub publish_row {ℓ} : {E : Type ℓ} → Outbox → Row E → Outbox × Sent
unfolding publish_to
publish_row o r = publish_to o r.id r.outstanding o.destinations

-- `#inline`: every destination that the row names is attempted.
emissions : ℕ → List ℕ → Sent
emissions id [] = []
emissions id (d ∷ ds) = (d, id) ∷ emissions id ds

pub inline {ℓ} : {E : Type ℓ} → Outbox → Row E → Sent
unfolding emissions
inline o r = emissions r.id (filter (λ d. contains d r.outstanding) o.destinations)

-- `publish`, which the operation's path calls.
pub publish {ℓ} : {E : Type ℓ} → Outbox → Row E → Outbox × Sent
unfolding inline publish_row
publish o r =
    if not o.durable
    then (o, inline o r)
    else if o.closing || o.defer
    then (o, [])
    else publish_row o r
