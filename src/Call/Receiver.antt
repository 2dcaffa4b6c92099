-- ===== src/Call/Receiver.antt =====
-- What an event becomes: `receive` of runtime/core/source/receiver.ts. Spans are not modelled.
use Prim.Native.String.{String}
use toa.Prelude.{
  ◌≤◌, ◌≡◌, ◌≢◌, refl, ap, sym, ◌∙◌, Bool, true, false, not, ◌&&◌, Option, none, some, List, [],
  ◌∷◌, ◌++◌, length, if◌then◌else◌, Bool-cases, inl, inr,
}
use toa.Prelude.Texts.{Text}
use toa.Trail.{Inbound, items, Item, string, received, event, other, extend}
use mathlib.Core.Path.{subst}
use toa.Trail
use toa.Trail.Bounds.{received-strings, extend-eq-ok}
use toa.Call.Invoke.Prepared.{some_of}
use toa.Call.{Invocation, Source, Request, Input}
use toa.Call.Invoke.{inbound_of}
use toa.Call.Component.{Component, Operation, joined, inbound_to, follows, enter}
use toa.Call.Component.Scope.{enter-IsScoped}

pub record Definition : Type 0 where
  pub conditioned : Bool
  pub adaptive : Bool
  pub operation : String
  pub label : Option String
  pub destination : Option String
  pub origin : Option Source

-- A message, whose payload and whose other fields are its sender's.
pub record Message (X : Type 0) : Type 0 where
  pub payload : Option Input
  pub id : Option Text
  pub trail : Option Inbound
  pub extensions : X

-- The algorithm of a receiver, by what it answers of a payload.
pub record Bridge (R : Type 0) : Type 0 where
  pub condition : Option Input → Bool
  pub request : Option Input → Request R

label_or : Option String → String → String
label_or none operation = operation
label_or (some label) operation = label

-- `definition.destination ?? this.#label`
unfoldable pub destination_of : Definition → String
unfolding label_or
destination_of d = label_or d.destination (label_or d.label d.operation)

-- `if (this.#origin !== undefined) request.source = this.#origin`
from_origin : {R : Type 0} → Option Source → Request R → Request R
from_origin none q = q
from_origin (some origin) q = record q { source = some origin }

-- `if (id !== undefined) request.id = id`
identified_by : {R : Type 0} → Option Text → Request R → Request R
identified_by none q = q
identified_by (some id) q = record q { id = some id }

passed_by : {R : Type 0} → Option (Bridge R) → Option Input → Bool
passed_by none payload = true
passed_by (some bridge) payload = bridge.condition payload

unfoldable pub hops_in : Option Inbound → List String
hops_in none = []
hops_in (some inbound) = received inbound

-- A field that was stated is what it was stated to be.
abbrev pub Says : {A : Type 0} → Option A → Option A → Type 0
Says none b = Unit
Says (some a) b = b ≡ some a

Says-source :
    {R : Type 0} (origin : Option Source) (id : Option Text) (q : Request R)
    → Says origin (identified_by id (from_origin origin q)).source
unfolding identified_by from_origin
Says-source none id q = tt
Says-source (some origin) none q = refl
Says-source (some origin) (some id) q = refl

Says-id : {R : Type 0} (id : Option Text) (q : Request R) → Says id (identified_by id q).id
unfolding identified_by
Says-id none q = tt
Says-id (some id) q = refl

pub data Received (R : Type 0) : Type 0 where
  -- the condition does not hold
  skipped : Received R
  -- an adaptive receiver has no bridge
  faulted : Received R
  invokes : Request R → Received R

-- `{ input: payload }`, where `blank` is a query, an entity and an output that are not there
plain : {R : Type 0} → R → Option Input → Request R
plain blank payload = record {
  input = payload;
  task = false;
  instance_of = none;
  id = none;
  source = none;
  trail = none;
  readonly = false;
  rest = blank;
}

module _ {R X : Type 0} (blank : R) (add : X → Request R → Request R) where
  -- `#request`
  requested : Bool → Option (Bridge R) → Option Input → Option (Request R)
  unfolding plain
  requested adaptive none payload = if adaptive then none else some (plain blank payload)
  requested adaptive (some bridge) payload =
      some (if adaptive then bridge.request payload else plain blank payload)

  completed : Definition → Message X → Option (Request R) → Received R
  unfolding from_origin identified_by hops_in destination_of
  completed d message none = faulted
  completed d message (some q) =
      let chain = hops_in message.trail ++ event (destination_of d) ∷ [] in
      let q' = identified_by message.id (from_origin d.origin (add message.extensions q)) in
      invokes (record q' { trail = some (inbound_of chain) })

  -- `receive`, up to where the component is invoked
  unfoldable pub receive : Definition → Option (Bridge R) → Message X → Received R
  unfolding completed passed_by requested
  receive d bridge message =
      if d.conditioned && not (passed_by bridge message.payload)
      then skipped
      else completed d message (requested d.adaptive bridge message.payload)

  -- What a request says of where it came from.
  abbrev pub IsFrom : Definition → Message X → Request R → Type 0
  IsFrom d message q =
      (q.trail ≡ some (inbound_of (hops_in message.trail ++ event (destination_of d) ∷ [])))
      × Says d.origin q.source
      × Says message.id q.id

  completed_of :
      (d : Definition) (message : Message X) (o : Option (Request R)) (q : Request R)
      → completed d message o ≡ invokes q
      → IsFrom d message q
  unfolding completed
  completed_of d message none q h = cc
  completed_of d message (some o) q h =
      let from = from_origin d.origin (add message.extensions o) in
      let chain = hops_in message.trail ++ event (destination_of d) ∷ [] in
      let made = record (identified_by message.id from) { trail = some (inbound_of chain) } in
      let same : made ≡ q = cc in
      subst (IsFrom d message) same
        (refl, Says-source d.origin message.id (add message.extensions o), Says-id message.id from)

  receive-IsFrom :
      (d : Definition) (bridge : Option (Bridge R)) (message : Message X) (q : Request R)
      → receive d bridge message ≡ invokes q
      → IsFrom d message q
  unfolding receive
  receive-IsFrom d bridge message q h =
      elim (Bool-cases (d.conditioned && not (passed_by bridge message.payload))) [
        | inl skips ↦ cc (simp skips at h)
        | inr goes ↦
            completed_of d message (requested d.adaptive bridge message.payload) q (simp goes at h)
      ]

  -- With the rule on, an operation that is chained and that an event has come to by a receiver
  -- follows the hops that the event came by, the event and itself, and no more than the depth of
  -- them; it is called by the receiver's origin, whatever the message says, and under the identity
  -- of the message.
  pub receive_continues :
      (d : Definition) (bridge : Option (Bridge R)) (message : Message X) (q : Request R)
      (to : Component) (op : Operation) (i : Invocation)
      → receive d bridge message ≡ invokes q
      → enter to d.operation q.trail q.id q.readonly ≡ follows i
      → to.operations d.operation ≡ some op
      → op.unchained ≡ false
      → to.limits.repeats ≢ 0
      → (i.hops
          ≡ (hops_in message.trail ++ event (destination_of d) ∷ [])
            ++ joined to.id d.operation ∷ [])
        × (length i.hops ≤ to.limits.depth)
        × Says d.origin q.source
        × Says message.id i.id
  unfolding inbound_to
  receive_continues d bridge message q to op i received_as entered declared chained on =
      let (trail, source, id) = receive-IsFrom d bridge message q received_as in
      let s = enter-IsScoped to d.operation q.trail q.id q.readonly i entered in
      let chain = hops_in message.trail ++ event (destination_of d) ∷ [] in
      let same : op ≡ s.operation = some_of (sym declared ∙ s.declared) in
      let inbound : inbound_to s.operation q.trail ≡ inbound_of chain =
        ap (λ x. inbound_to x q.trail) (sym same)
        ∙ ap (inbound_to op) trail
        ∙ ap (λ b. if b then other else inbound_of chain) chained in
      let extended =
        subst (λ x. extend x (joined to.id d.operation) to.limits ≡ Trail.Result.ok i.hops) inbound
          s.chain in
      let (hops, depth, seen) =
        (extend-eq-ok (inbound_of chain) (joined to.id d.operation) to.limits i.hops on).0
          extended in
      (
        hops ∙ ap (λ xs. xs ++ joined to.id d.operation ∷ []) (received-strings chain),
        depth,
        source,
        subst (Says message.id) (sym s.serves) id,
      )
