-- ===== src/Call.antt =====
-- Calls between components: runtime/core/source/call.ts, with abandon.ts and the derived identities
-- of entities/newid.ts; in `Transmission` transmission.ts, in `Component` component.ts and in
-- `Receiver` receiver.ts.
--
-- Names of properties, of processes and of components are numbers. A stream is told from other
-- values. The digest of node:crypto, minted identities and the contract of what is called are
-- parameters.
pub mod Identity
pub mod Invoke
pub mod Admission
pub mod Distinct
pub mod Transmission
pub mod Component
pub mod Receiver
pub mod Event
pub mod Readonly
mod Tests
use Prim.Native.String.{String}
use toa.Prelude.{
  ℕ, ltb, Bool, true, false, not, ◌&&◌, ◌||◌, Option, none, some, List, if◌then◌else◌,
}
use toa.Prelude.Maps.{lookup}
use toa.Prelude.Texts.{Text}
use toa.Trail.{Inbound, Calls, LoopException}

-- `Invocation`: a flag that is absent is false.
pub record Invocation : Type 0 where
  pub hops : List String
  pub id : Option Text
  pub readonly : Bool
  pub retried : Bool
  pub calls : Option Calls

pub data Source : Type 0 where
  -- an operation or an event of a component
  component : ℕ → Source
  service : String → Source

-- What is held under a property: a `Readable`, an object by whether its `stream` is one, and the
-- rest.
pub data Carried : Type 0 where
  stream : Carried
  holding : Bool → Carried
  plain : Carried

pub data Input : Type 0 where
  null scalar : Input
  object : List (ℕ × Carried) → Input

-- A number of milliseconds: one that is finite and not negative, and the rest.
pub data Timeout : Type 0 where
  lasting : ℕ → Timeout
  improper : Timeout

pub record Request (R : Type 0) : Type 0 where
  pub input : Option Input
  pub task : Bool
  pub instance_of : Option ℕ
  pub id : Option Text
  pub source : Option Source
  pub trail : Option Inbound
  pub readonly : Bool
  -- the query, the entity, the output and what else is passed on as it is
  pub rest : R

-- A signal is known by whether it has aborted.
pub record Options : Type 0 where
  pub timeout : Option Timeout
  pub signal : Option Bool

pub record Envelope (R : Type 0) : Type 0 where
  pub input : Input
  pub task : Bool
  pub id : Text
  pub source : Option Source
  pub trail : Option Inbound
  pub readonly : Bool
  pub rest : R

-- What a `Call` is constructed with.
pub record Callee : Type 0 where
  pub target : String
  pub source : Option Source
  pub stateful : Bool
  pub safe : Bool
  pub streamed : Option ℕ
  pub once : Bool

-- The contradictions that `#refuse` tells apart.
pub data Contradiction : Type 0 where
  unnamed named stateful_task awaited_task awaited : Contradiction
  streamed_task streamless timeless : Contradiction

pub data Exception : Type 0 where
  unrepeatable safety unfit abandoned rejected disposed endpoint : Exception
  request_contract : Contradiction → Exception
  loop : LoopException → Exception
  raised : ℕ → Exception

pub data Result {ℓ} (A : Type ℓ) : Type ℓ where
  ok : A → Result A
  raise : Exception → Result A

carried : Option Carried → Bool
carried none = false
carried (some stream) = true
carried (some (holding streams)) = streams
carried (some plain) = false

pub carries : Option Input → ℕ → Bool
unfolding carried
carries none property = false
carries (some null) property = false
carries (some scalar) property = false
carries (some (object fields)) property = carried (lookup property fields)

-- `!== undefined`
abbrev pub given {ℓ} : {A : Type ℓ} → Option A → Bool
given none = false
given (some a) = true

-- `a ?? b`
abbrev pub either {ℓ} : {A : Type ℓ} → Option A → Option A → Option A
either none b = b
either (some a) b = some a

is_positive : Option Timeout → Bool
is_positive none = true
is_positive (some improper) = false
is_positive (some (lasting n)) = ltb 0 n

-- The last of the contradictions, and those of a stream before it.
refuse_timeout : Options → Option Exception
unfolding is_positive
refuse_timeout o = if is_positive o.timeout then none else some (request_contract timeless)

refuse_stream : {R : Type 0} → Option ℕ → Request R → Options → Option Exception
unfolding refuse_timeout carries
refuse_stream none q o = refuse_timeout o
refuse_stream (some property) q o =
    if q.task
    then some (request_contract streamed_task)
    else if not (carries q.input property)
    then some (request_contract streamless)
    else refuse_timeout o

-- `#refuse`
pub refuse : {R : Type 0} → Callee → Request R → Options → Bool → Option Exception
unfolding refuse_stream
refuse c q o readonly =
    let awaits = given o.timeout || given o.signal in
    if readonly && not c.safe
    then some safety
    else if c.stateful && not (given q.instance_of)
    then some (request_contract unnamed)
    else if not c.stateful && given q.instance_of
    then some (request_contract named)
    else if c.stateful && q.task
    then some (request_contract stateful_task)
    else if q.task && awaits
    then some (request_contract awaited_task)
    else if not c.stateful && awaits
    then some (request_contract awaited)
    else refuse_stream c.streamed q o
