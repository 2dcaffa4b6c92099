-- ===== src/Call/Component.antt =====
-- How a call enters a component: `invoke` of runtime/core/source/component.ts. Telemetry and
-- measurements are not modelled.
pub mod Scope
use Prim.Native.String.{String}
use Prim.Native.Char.{code}
use toa.Prelude.{
  ℕ, Bool, true, false, not, ◌&&◌, ◌||◌, ◌==◌, Option, none, some, List, if◌then◌else◌,
}
use toa.Prelude.Texts.{Text}
use toa.Trail.{Inbound, items, other, Limits, LoopException, extend}
use toa.Trail
use toa.Call.{Invocation, Exception, disposed, endpoint}

-- What a component knows of an operation before it invokes it.
pub record Operation : Type 0 where
  pub unchained : Bool
  pub retried : Bool
  pub safe : Bool

pub record Component : Type 0 where
  pub id : String
  pub operations : String → Option Operation
  pub disposed : Bool
  -- `kind`, which is `server` or `client`
  pub server : Bool
  pub limits : Limits

-- `${this.locator.id}.${endpoint}`
unfoldable pub joined : String → String → String
joined String.[] name = String.◌∷◌ "." name
joined (String.◌∷◌ c id) name = String.◌∷◌ c (joined id name)

-- `endpoint[0] !== '.'`
pub is_hop : String → Bool
is_hop String.[] = true
is_hop (String.◌∷◌ c name) = not (code c == b'.')

pub data Entry : Type 0 where
  -- thrown
  refused : Exception → Entry
  -- answered as an exception
  answered : LoopException → Entry
  -- the operation is invoked, in a scope of its own or in that of its caller
  follows : Invocation → Entry
  passes : Entry

-- `request?.trail`, which an unchained operation drops
unfoldable pub inbound_to : Operation → Option Inbound → Inbound
inbound_to op none = other
inbound_to op (some trail) = if op.unchained then other else trail

scoped : Operation → Option Text → Bool → Trail.Result → Entry
scoped op id readonly (Trail.Result.raise e) = answered e
scoped op id readonly (Trail.Result.ok hops) = follows (record {
  hops = hops;
  id = id;
  readonly = readonly || op.safe;
  retried = op.retried;
  calls = none;
})

entered : Component → String → Option Inbound → Option Text → Bool → Option Operation → Entry
unfolding is_hop joined inbound_to scoped
entered c name trail id readonly none = refused endpoint
entered c name trail id readonly (some op) =
    if c.server && is_hop name
    then scoped op id readonly (extend (inbound_to op trail) (joined c.id name) c.limits)
    else passes

-- `invoke`, up to where the operation is invoked, by what a request says of where it came from
unfoldable pub enter : Component → String → Option Inbound → Option Text → Bool → Entry
unfolding entered
enter c name trail id readonly =
    if c.disposed && c.server
    then refused disposed
    else entered c name trail id readonly (c.operations name)
