-- ===== src/Connector/Link.antt =====
-- One connector among others: `connect`, `disconnect` and `#discard` of
-- runtime/core/source/connector.ts.
--
-- What it awaits, its dependencies, `open`, `close` and `dispose`, ends by an event, and events come
-- in any order. Of its dependants it reads whether one is connected, which an event says. A
-- connection has a number, by which the promise of `#connecting` is known. What `disconnect` awaits
-- of a connector that is connected has settled, and nothing comes between.
pub mod Closed
pub mod Cuts
use toa.Prelude.{
  ℕ, suc, ◌+◌, Bool, true, false, not, ◌&&◌, ◌||◌, ◌==◌, Option, none, some, List, [], ◌∷◌,
  if◌then◌else◌,
}
use toa.Prelude.Maps.{contains, add, remove}

pub record Link : Type 0 where
  pub connecting : Option ℕ
  pub connected : Bool
  pub disconnecting : Bool
  pub discarded : Bool
  pub disposed : Bool
  -- the connections whose work has not ended
  pub opening : List ℕ
  -- whether `close` has been called and has not ended
  pub closing : Bool
  -- how many connections were begun, how many of them came up, how often `close` was called, and how
  -- often what was up was taken down without it
  pub begun : ℕ
  pub up : ℕ
  pub closes : ℕ
  pub cuts : ℕ

-- The constructor.
unfoldable pub new : Link
new = record {
  connecting = none;
  connected = false;
  disconnecting = false;
  discarded = false;
  disposed = false;
  opening = [];
  closing = false;
  begun = 0;
  up = 0;
  closes = 0;
  cuts = 0;
}

pub given : Option ℕ → Bool
given none = false
given (some k) = true

pub is_current : ℕ → Option ℕ → Bool
is_current k none = false
is_current k (some j) = k == j

-- `connect`, up to where it waits
pub connect : Link → Link
unfolding given
connect l = if given l.connecting then l else record l {
  disconnecting = false;
  connecting = some l.begun;
  opening = add l.begun l.opening;
  begun = suc l.begun;
}

-- `disconnect`, where `linked` says whether a dependant is connected
pub disconnect : Bool → Bool → Link → Link
disconnect interrupt linked l =
    let pending = interrupt || not l.connected in
    if l.disconnecting
    then l
    else if linked && not interrupt
    then l
    else if pending
    then record l {
      disconnecting = true;
      connected = false;
      connecting = none;
      cuts = (if l.connected then 1 else 0) + l.cuts;
    }
    else record l { disconnecting = true; closing = true; closes = suc l.closes }

-- `#drop`
drop : Bool → Link → Link
unfolding disconnect
drop linked l = disconnect false linked (record l { discarded = false })

-- `#discard`
pub discard : Bool → Link → Link
unfolding drop given
discard linked l =
    let l' = record l { discarded = true } in if given l.connecting then drop linked l' else l'

-- `if (this.#connecting === connecting) this.connected = true`
report : ℕ → Link → Link
unfolding is_current
report k l =
    if is_current k l.connecting
    then record l { connected = true; up = suc l.up; opening = remove k l.opening }
    else record l { opening = remove k l.opening }

-- What `connect` does when the work of its connection has ended, and when it has failed.
pub land : ℕ → Bool → Link → Link
unfolding report drop
land k linked l =
    let l' = report k l in
    if not (contains k l.opening) then l else if l'.discarded then drop linked l' else l'

pub fail : ℕ → Link → Link
unfolding disconnect
fail k l =
    if contains k l.opening
    then disconnect true false (record l { opening = remove k l.opening })
    else l

-- What `disconnect` does when `close` has ended, and when all has.
pub closed : Link → Link
closed l =
    if l.closing then record l { closing = false; connected = false; connecting = none } else l

pub data Event : Type 0 where
  connects closes_down disposes : Event
  lands : ℕ → Bool → Event
  fails : ℕ → Event
  disconnects discards : Bool → Event

pub step : Event → Link → Link
unfolding connect land fail disconnect discard closed
step connects l = connect l
step closes_down l = closed l
step disposes l = record l { disposed = true }
step (lands k linked) l = land k linked l
step (fails k) l = fail k l
step (disconnects linked) l = disconnect false linked l
step (discards linked) l = discard linked l

unfoldable pub run : List Event → Link → Link
unfolding step
run [] l = l
run (e ∷ es) l = run es (step e l)
