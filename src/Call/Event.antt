-- ===== src/Call/Event.antt =====
-- What a change becomes for those who receive it: runtime/core/source/event.ts and emission.ts.
-- Spans and measurements are not modelled.
use Prim.Native.String.{String}
use toa.Prelude.{
  ℕ, ◌≡◌, ◌≢◌, refl, ap, ◌∙◌, Bool, false, not, ◌||◌, Option, none, some, List, [], ◌∷◌, ◌++◌,
  if◌then◌else◌, Bool-cases, inl, inr,
}
use mathlib.Core.Path.{subst}
use toa.Prelude.Texts.{Text, codes}
use toa.Trail.{Inbound, event}
use toa.Trail.Bounds.{received-strings}
use toa.Call.{Invocation, Request, Input}
use toa.Call.Identity.{textual}
use toa.Call.Invoke.{derive, inbound_of}
use toa.Call.Component.{Component, Operation, joined, follows, enter}
use toa.Call.Receiver.{
  Definition, Message, Bridge, Says, hops_in, invokes, receive, destination_of, receive_continues,
}

-- A row of the outbox, as far as its events read it: the change, by a parameter, and the rest.
pub record Row (E : Type 0) : Type 0 where
  pub id : Text
  pub change : E
  pub trail : Option (List String)
  pub time : Option ℕ

pub record Event : Type 0 where
  -- `conditioned !== false`
  pub conditioned : Bool
  pub subjective : Bool
  pub label : Option String
  -- whether there is an emitter
  pub published : Bool

-- The algorithm of an event, by what it answers of a change.
pub record Rendering (E : Type 0) : Type 0 where
  pub condition : E → Bool
  pub payload : E → Input

pub label_of : Option String → String
label_of none = "event"
label_of (some label) = label

chain_of : Option (List String) → Option Inbound
chain_of none = none
chain_of (some hops) = some (inbound_of hops)

pub data Emitted : Type 0 where
  -- the condition does not hold
  silent : Emitted
  -- thrown, where there is no emitter
  unpublished : Emitted
  -- the emitter is handed a message, whose time is its extension; a payload may be missing
  emits : Message (Option ℕ) → Emitted

module _ {E : Type 0} (state : E → Input) where
  holds : Bool → Option (Rendering E) → E → Bool
  holds conditioned none change = not conditioned
  holds conditioned (some r) change = not conditioned || r.condition change

  payload_of : Bool → Option (Rendering E) → E → Option Input
  payload_of subjective none change = if subjective then none else some (state change)
  payload_of subjective (some r) change =
      some (if subjective then r.payload change else state change)

  -- `render`
  pub render : Event → Option (Rendering E) → Row E → Option (Option Input)
  unfolding holds payload_of
  render e r row =
      if holds e.conditioned r row.change then some (payload_of e.subjective r row.change) else none

  raised : (Text → Text) → Event → Row E → Option (Option Input) → Emitted
  unfolding label_of chain_of
  raised digest e row none = silent
  raised digest e row (some payload) =
      if e.published
      then emits (record {
        payload = payload;
        id = some (derive digest (textual row.id ∷ textual (codes (label_of e.label)) ∷ []));
        trail = chain_of row.trail;
        extensions = row.time;
      })
      else unpublished

  -- `emit` of an event
  unfoldable pub emit : (Text → Text) → Event → Option (Rendering E) → Row E → Emitted
  unfolding render raised
  emit digest e r row = raised digest e row (render e r row)

  -- `emit` of an emission: every event of a component is asked, whatever comes of the others
  pub emit_all : (Text → Text) → List (Event × Option (Rendering E)) → Row E → List Emitted
  unfolding emit
  emit_all digest [] row = []
  emit_all digest ((e, r) ∷ events) row = emit digest e r row ∷ emit_all digest events row

  -- What a message says of the row that it is of.
  abbrev IsOf : (Text → Text) → Event → Row E → Message (Option ℕ) → Type 0
  IsOf digest e row m =
      (m.id ≡ some (derive digest (textual row.id ∷ textual (codes (label_of e.label)) ∷ [])))
      × (m.trail ≡ chain_of row.trail)
      × (m.extensions ≡ row.time)

  raised-IsOf :
      (digest : Text → Text) (e : Event) (row : Row E) (o : Option (Option Input))
      (m : Message (Option ℕ))
      → raised digest e row o ≡ emits m
      → IsOf digest e row m
  unfolding raised
  raised-IsOf digest e row none m h = cc
  raised-IsOf digest e row (some payload) m h = elim (Bool-cases e.published) [
    | inl published ↦
        let made : Message (Option ℕ) = record {
          payload = payload;
          id = some (derive digest (textual row.id ∷ textual (codes (label_of e.label)) ∷ []));
          trail = chain_of row.trail;
          extensions = row.time;
        } in
        let h' : emits made ≡ emits m = simp published at h in
        let same : made ≡ m = cc in subst (IsOf digest e row) same (refl, refl, refl)
    | inr mute ↦ cc (simp mute at h)
  ]

  -- The hops that a row came by.
  abbrev pub hops_of : Row E → List String
  hops_of row = elim row.trail [ none ↦ [] | some hops ↦ hops ]

  hops_in-chain_of :
      (o : Option (List String)) → hops_in (chain_of o) ≡ elim o [ none ↦ [] | some hops ↦ hops ]
  unfolding hops_in chain_of
  hops_in-chain_of none = refl
  hops_in-chain_of (some hops) = received-strings hops

  -- An operation that a change has come to by an event and a receiver, where the rule is on and the
  -- operation is chained, follows the hops that the change was made by, the event and itself, in
  -- that order, and its identity is derived from the row and the label of the event alone.
  pub emit_continues :
      {R : Type 0} (digest : Text → Text) (e : Event) (r : Option (Rendering E)) (row : Row E)
      (m : Message (Option ℕ)) (blank : R) (add : Option ℕ → Request R → Request R) (d : Definition)
      (bridge : Option (Bridge R)) (q : Request R) (to : Component) (op : Operation)
      (i : Invocation)
      → emit digest e r row ≡ emits m
      → receive blank add d bridge m ≡ invokes q
      → enter to d.operation q.trail q.id q.readonly ≡ follows i
      → to.operations d.operation ≡ some op
      → op.unchained ≡ false
      → to.limits.repeats ≢ 0
      → (i.hops ≡ (hops_of row ++ event (destination_of d) ∷ []) ++ joined to.id d.operation ∷ [])
        × (i.id ≡ some (derive digest (textual row.id ∷ textual (codes (label_of e.label)) ∷ [])))
  unfolding emit
  emit_continues digest e r row m blank add d bridge q to op i emitted received_as entered declared
        chained on =
      let (id, trail, time) = raised-IsOf digest e row (render e r row) m emitted in
      let (hops, depth, source, identity) =
        receive_continues blank add d bridge m q to op i received_as entered declared chained on in
      let from : hops_in m.trail ≡ hops_of row = ap hops_in trail ∙ hops_in-chain_of row.trail in
      (
        hops
            ∙ ap (λ xs. (xs ++ event (destination_of d) ∷ []) ++ joined to.id d.operation ∷ [])
                from,
        subst (λ x. Says x i.id) id identity,
      )
