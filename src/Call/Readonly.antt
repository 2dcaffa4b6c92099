-- ===== src/Call/Readonly.antt =====
-- What a call that may only read reaches, through the calls of calls: `readonly` of call.ts and
-- component.ts.
use Prim.Native.String.{String}
use toa.Prelude.{◌≡◌, ap, sym, ◌∙◌, Bool, true, ◌||◌, Option, some, arith}
use mathlib.Core.Path.{subst}
use toa.Prelude.Texts.{Text}
use toa.Trail.{Inbound}
use toa.Call.{Invocation, Request, Options, Envelope, Callee, ok}
use toa.Call.Invoke.{prepare}
use toa.Call.Invoke.Prepared.{Counts, some_of, prepare-Counts, prepare-IsPrepared}
use toa.Call.Component.{Component, Operation, follows, enter}
use toa.Call.Component.Scope.{enter-IsScoped}

module _ {R : Type 0} (digest : Text → Text) (fits : Envelope R → Bool) where
  -- The invocations that one leads to: those of the calls made under it, and of the calls made
  -- under these.
  pub data Leads (i : Invocation) : Invocation → Type 0 where
    self : Leads i i
    -- a call was made, whatever came of it
    counted :
        {j k : Invocation} (c : Callee) (minted : Text) (q : Request R) (o : Options)
        → Leads i j
        → (prepare digest fits c minted (some j) q o).1 ≡ some k
        → Leads i k
    -- a call came to a component
    came :
        {j k : Invocation} {e : Envelope R} (c : Callee) (minted : Text) (q : Request R)
        (o : Options) (to : Component) (name : String)
        → Leads i j
        → (prepare digest fits c minted (some j) q o).0 ≡ ok e
        → enter to name e.trail (some e.id) e.readonly ≡ follows k
        → Leads i k

  Leads-readonly : {i j : Invocation} → i.readonly ≡ true → Leads i j → j.readonly ≡ true
  Leads-readonly r self = r
  Leads-readonly r (counted {j} {k} c minted q o way made) =
      let kept : Counts j (some k) =
        subst (Counts j) made (prepare-Counts digest fits c minted j q o) in
      ap (λ x. x.readonly) kept ∙ Leads-readonly r way
  Leads-readonly r (came {j} {k} {e} c minted q o to name way sent entered) =
      let p = prepare-IsPrepared digest fits c minted j q o e sent in
      let s = enter-IsScoped to name e.trail (some e.id) e.readonly k entered in
      let above = Leads-readonly r way in
      let below = s.reads in let stated = p.readonly in ground arith

  readonly_leads :
      (i j : Invocation)
      → i.readonly ≡ true
      → Leads i j
      → (c : Callee) (minted : Text) (q : Request R) (o : Options) (e : Envelope R)
      → (prepare digest fits c minted (some j) q o).0 ≡ ok e
      → (c.safe ≡ true) × (e.readonly ≡ true)
  readonly_leads i j r way c minted q o e sent =
      let p = prepare-IsPrepared digest fits c minted j q o e sent in
      let above = Leads-readonly r way in
      let only : (q.readonly || j.readonly) ≡ true = ground arith in
      (p.lawful.safe only, p.readonly ∙ only)

  -- Under an operation that is safe, or that was called to read only, no call is handed over, of its
  -- own or of any operation that its calls lead to, unless what is called is safe; and each that is
  -- handed over says that it may only read.
  pub safe_leads :
      (to : Component) (name : String) (trail : Option Inbound) (id : Option Text) (readonly : Bool)
      (op : Operation) (i j : Invocation)
      → to.operations name ≡ some op
      → (readonly || op.safe) ≡ true
      → enter to name trail id readonly ≡ follows i
      → Leads i j
      → (c : Callee) (minted : Text) (q : Request R) (o : Options) (e : Envelope R)
      → (prepare digest fits c minted (some j) q o).0 ≡ ok e
      → (c.safe ≡ true) × (e.readonly ≡ true)
  safe_leads to name trail id readonly op i j declared reads at way =
      let s = enter-IsScoped to name trail id readonly i at in
      let same : op ≡ s.operation = some_of (sym declared ∙ s.declared) in
      let i_reads : i.readonly ≡ true = s.reads ∙ ap (λ x. readonly || x.safe) (sym same) ∙ reads in
      readonly_leads i j i_reads way
