-- ===== src/Call/Component/Scope.antt =====
-- The scope that an operation is invoked in: `invoke` of component.ts.
use Prim.Native.String.{String}
use toa.Prelude.{
  ◌≡◌, refl, Bool, true, false, ◌&&◌, ◌||◌, Option, none, some, arith, Bool-cases, inl, inr,
}
use toa.Prelude.Texts.{Text}
use toa.Trail.{Inbound, extend}
use toa.Trail
use toa.Call.{Invocation}
use toa.Call.Component.{
  Component, Operation, follows, joined, is_hop, inbound_to, scoped, entered, enter,
}

-- An operation of a component that is up, which follows what it was reached by.
pub record IsScoped (c : Component) (name : String) (trail : Option Inbound) (id : Option Text)
    (readonly : Bool) (k : Invocation) : Type 0 where
  pub operation : Operation
  pub declared : c.operations name ≡ some operation
  pub up : c.disposed ≡ false
  pub chain :
      extend (inbound_to operation trail) (joined c.id name) c.limits ≡ Trail.Result.ok k.hops
  pub serves : k.id ≡ id
  pub reads : k.readonly ≡ (readonly || operation.safe)
  pub retried : k.retried ≡ operation.retried

abbrev IsOf : Operation → Option Text → Bool → Trail.Result → Invocation → Type 0
IsOf op id readonly chain k =
    (chain ≡ Trail.Result.ok k.hops)
    × (k.id ≡ id)
    × (k.readonly ≡ (readonly || op.safe))
    × (k.retried ≡ op.retried)

scoped-IsOf :
    (op : Operation) (id : Option Text) (readonly : Bool) (chain : Trail.Result) (k : Invocation)
    → scoped op id readonly chain ≡ follows k
    → IsOf op id readonly chain k
unfolding scoped
scoped-IsOf op id readonly (Trail.Result.raise e) k h = cc
scoped-IsOf op id readonly (Trail.Result.ok hops) k h = (cc, cc, cc, cc)

entered-IsOf :
    (c : Component) (name : String) (trail : Option Inbound) (id : Option Text) (readonly : Bool)
    (o : Option Operation) (k : Invocation)
    → entered c name trail id readonly o ≡ follows k
    → (op : Operation) × (o ≡ some op)
      × (c.server ≡ true)
      × IsOf op id readonly (extend (inbound_to op trail) (joined c.id name) c.limits) k
unfolding entered
entered-IsOf c name trail id readonly none k h = cc
entered-IsOf c name trail id readonly (some op) k h = elim (Bool-cases (c.server && is_hop name)) [
  | inl hop ↦ (
    op,
    refl,
    ground arith,
    scoped-IsOf op id readonly (extend (inbound_to op trail) (joined c.id name) c.limits) k
        (simp hop at h),
  )
  | inr own ↦ cc (simp own at h)
]

pub enter-IsScoped :
    (c : Component) (name : String) (trail : Option Inbound) (id : Option Text) (readonly : Bool)
    (k : Invocation)
    → enter c name trail id readonly ≡ follows k
    → IsScoped c name trail id readonly k
unfolding enter
enter-IsScoped c name trail id readonly k h = elim (Bool-cases (c.disposed && c.server)) [
  | inl down ↦ cc (simp down at h)
  | inr up ↦
      let h' : entered c name trail id readonly (c.operations name) ≡ follows k = simp up at h in
      let (op, declared, server, (chain, same, reads, again)) =
        entered-IsOf c name trail id readonly (c.operations name) k h' in
      record {
        operation = op;
        declared = declared;
        up = ground arith;
        chain = chain;
        serves = same;
        reads = reads;
        retried = again;
      }
]
