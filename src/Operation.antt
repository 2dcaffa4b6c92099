-- ===== src/Operation.antt =====
-- One invocation of an operation: runtime/core/source/operation.ts, with transition.ts and
-- assignment.ts, and the loop of libraries/generic/source/retry.js that a transition runs in.
--
-- The algorithm is the component's: a function of the input and of the state, which it may change.
-- The contracts and the parser of queries are parameters. A transition over `entries` is not
-- modelled here (`State.mass_commit` is). The waits between two attempts take time only.
pub mod Attempts
pub mod Reading
pub mod Kinds
pub mod Invoked
pub mod Once
mod Tests
use toa.Prelude.{
  ℕ, zero, suc, Bool, true, false, not, ◌&&◌, ◌||◌, Option, none, some, List, if◌then◌else◌,
}
use toa.Entity.{Record, Entity, Changeset, Refusal, is_some, is_discarded, init, set, change}
use toa.Entity
use toa.Restrict.{Output, absent, record_of, Reply, Answer, null, replied, restrict}
use toa.State.{
  Query, Call, Exception, system, request_contract, response_contract, state_not_found,
  state_concurrency, duplicate_call, Result, ok, raise, Setup, Moment, World, M, entry, recall,
  commit, apply, refusal,
}

-- What an algorithm returned as an error: none, a code, or an `Error` with its message.
pub data Fault : Type 0 where
  fine : Fault
  coded : ℕ → Fault
  message : Option ℕ → Fault

pub data Outcome (A : Type 0) : Type 0 where
  threw : Exception → Outcome A
  returned : A → Output → Fault → Outcome A

abbrev pub Algorithm : Type 0 → Type 0
Algorithm A = Option ℕ → A → Outcome A

pub record Request (P : Type 0) : Type 0 where
  pub id : Option ℕ
  pub query : Option Query
  pub input : Option ℕ
  pub entity : Option P
  pub authentic : Bool
  pub output : Option (List ℕ)

pub record Definition : Type 0 where
  -- `concurrency` is `retry`
  pub retries : Bool
  pub once : Bool
  pub retention : Option ℕ
  pub local : Bool
  pub projects : Bool

-- `refusal` of an error, and the check of a reply on a local environment.
faulted : {A : Type 0} → (Reply → Bool) → Bool → A → Output → Fault → Result (A × Reply)
faulted fits local a out (message none) = raise response_contract
faulted fits local a out fine =
    let r : Reply = record { output = out; error = none } in
    if local && not (fits r) then raise response_contract else ok (a, r)
faulted fits local a out (coded n) =
    let r : Reply = record { output = out; error = some n } in
    if local && not (fits r) then raise response_contract else ok (a, r)
faulted fits local a out (message (some n)) =
    let r : Reply = record { output = out; error = some n } in
    if local && not (fits r) then raise response_contract else ok (a, r)

-- `run`
pub run : {A : Type 0} → (Reply → Bool) → Bool → Outcome A → Result (A × Reply)
unfolding faulted
run fits local (threw x) = raise x
run fits local (returned a out f) = faulted fits local a out f

-- `call`
pub call : {P : Type 0} → Definition → Request P → Reply → Option Call
call d q r =
    if d.once
    then elim q.id [
      | none ↦ none
      | some id ↦ some (record { id = id; reply = r; retention = d.retention })
    ]
    else none

-- How one attempt of a transition ends: with a reply, or with its write lost to another.
pub data Attempt : Type 0 where
  answered : Reply → Attempt
  lost : Attempt

module _ {S V P : Type 0} (c : Setup S V P) (d : Definition) (fits : Reply → Bool) where
  found : Bool → Option (Entity V) → Result (Entity V)
  found deleted none = raise state_not_found
  found deleted (some e) = if e.deleted && not deleted then raise state_not_found else ok e

  acquired : Moment → Option Query → World S V → Result (Entity V) × World S V
  unfolding found
  acquired t none w = (found false (some (init c.schemas t.now t.fresh)), w)
  acquired t (some q) w =
      let (r, w') = entry c t q true w in
      (elim r [ ok e ↦ found q.deleted e | raise x ↦ raise x ], w')

  written : Reply → Result Bool × World S V → Result Attempt × World S V
  written r (ok true, w) = (ok (answered r), w)
  written r (ok false, w) = (ok lost, w)
  written r (raise x, w) = (raise x, w)

  -- the commit of a value that `set` was given
  placed :
      Moment → Request P → Reply → Entity.Result (Entity V) → World S V → Result Attempt × World S V
  unfolding written
  placed t q r (Entity.Result.err x) w = (raise (refusal x), w)
  placed t q r (Entity.Result.ok e) w = written r (commit c t e q.input (call d q r) w)

  -- `Transition.commit`
  committed :
      Moment
      → Request P
      → Entity V
      → Result (Record V × Reply)
      → World S V
      → Result Attempt × World S V
  unfolding placed
  committed t q e (raise x) w = (raise x, w)
  committed t q e (ok (v, r)) w =
      if is_some r.error || is_discarded v.discard
      then (ok (answered r), w)
      else placed t q r (set c.schemas t.now e v) w

  ran :
      Algorithm (Record V)
      → Moment
      → Request P
      → Result (Entity V) × World S V
      → Result Attempt × World S V
  unfolding committed
  ran f t q (raise x, w) = (raise x, w)
  ran f t q (ok e, w) = committed t q e (run fits d.local (f q.input e.state)) w

  -- `Operation.process` as `Transition` overrides its steps.
  pub attempt : Algorithm (Record V) → Moment → Request P → World S V → Result Attempt × World S V
  unfolding ran acquired
  attempt f t q w = ran f t q (acquired t q.query w)

  -- What a lost attempt leads to: another one, or the exception of the concurrency declared.
  after_loss :
      (World S V → Result Reply × World S V) → Result Attempt × World S V → Result Reply × World S V
  after_loss next (raise x, w) = (raise x, w)
  after_loss next (ok (answered r), w) = (ok r, w)
  after_loss next (ok lost, w) = if d.retries then next w else (raise state_concurrency, w)

  -- `retry`, with so many attempts left after this one; the moment of each is that of what is left.
  -- `RetryError` is an `Error`, which an invocation answers as a system exception.
  pub attempts :
      ℕ → Algorithm (Record V) → (ℕ → Moment) → Request P → World S V → Result Reply × World S V
  unfolding after_loss
  attempts zero f ts q w = after_loss (λ w'. (raise system, w')) (attempt f (ts zero) q w)
  attempts (suc k) f ts q w = after_loss (λ w'. attempts k f ts q w') (attempt f (ts (suc k)) q w)

  replying : Result Reply × World S V → Result Answer × World S V
  replying (ok r, w) = (ok (replied r), w)
  replying (raise x, w) = (raise x, w)

  -- `Transition.process`: 32 retries.
  pub transition :
      Algorithm (Record V) → (ℕ → Moment) → Request P → World S V → Result Answer × World S V
  unfolding replying
  transition f ts q w = replying (attempts 32 f ts q w)

  -- `Assignment.commit`
  defaulted :
      (Record V → Output) → Reply → Result (Record V) × World S V → Result Answer × World S V
  defaulted render r (raise x, w) = (raise x, w)
  defaulted render r (ok v, w) =
      (ok (replied (record r { output = elim r.output [ absent ↦ render v | _ ↦ r.output ] })), w)

  assigned :
      (Record V → Output)
      → Moment
      → Request P
      → Query
      → Reply
      → Entity.Result (Changeset P)
      → World S V
      → Result Answer × World S V
  unfolding defaulted
  assigned render t q query r (Entity.Result.err x) w = (raise (refusal x), w)
  assigned render t q query r (Entity.Result.ok v) w =
      defaulted render r (apply c t query v q.input (call d q r) w)

  assign_ran :
      (Record V → Output)
      → (Changeset P → Bool)
      → Moment
      → Request P
      → Query
      → Result (Changeset P × Reply)
      → World S V
      → Result Answer × World S V
  unfolding assigned
  assign_ran render cfits t q query (raise x) w = (raise x, w)
  assign_ran render cfits t q query (ok (v, r)) w =
      if is_some r.error
      then (ok (replied r), w)
      else assigned render t q query r (change cfits t.now v) w

  -- `Operation.process` as `Assignment` overrides its steps; `blank` is what an empty changeset is,
  -- `render` is a record as an output, `cfits` is the changeset's schema.
  pub assignment :
      (Record V → Output)
      → (Changeset P → Bool)
      → Changeset P
      → Algorithm (Changeset P)
      → Moment
      → Request P
      → Query
      → World S V
      → Result Answer × World S V
  unfolding assign_ran
  assignment render cfits blank f t q query w =
      assign_ran render cfits t q query (run fits d.local (f q.input blank)) w

  -- `once`
  relapsed : ℕ → Result Answer × World S V → Result Answer × World S V
  relapsed id (raise duplicate_call, w) =
      let (r, w') = recall c id w in
      (elim r [ none ↦ raise duplicate_call | some reply ↦ ok (replied reply) ], w')
  relapsed id (r, w) = (r, w)

  recalled :
      (World S V → Result Answer × World S V)
      → ℕ
      → Option Reply × World S V
      → Result Answer × World S V
  unfolding relapsed
  recalled process id (some reply, w) = (ok (replied reply), w)
  recalled process id (none, w) = relapsed id (process w)

  pub once :
      (World S V → Result Answer × World S V) → Option ℕ → World S V → Result Answer × World S V
  unfolding recalled
  once process none w = (raise request_contract, w)
  once process (some id) w = recalled process id (recall c id w)

  restricted : Option (List ℕ) → Result Answer × World S V → Result Answer × World S V
  restricted allowed (ok a, w) = (ok (restrict a allowed), w)
  restricted allowed (raise x, w) = (raise x, w)

  projected : Option Query → Bool
  projected none = false
  projected (some q) = is_some q.projection

  supplied : (P → Bool) → Option P → Bool
  supplied efits none = true
  supplied efits (some p) = efits p

  parsed : (Query → Result Query) → Request P → Result (Request P)
  parsed parse q = elim q.query [
    | none ↦ ok q
    | some query ↦ elim (parse query) [
      | ok query' ↦ ok (record q { query = some query' })
      | raise x ↦ raise x
    ]
  ]

  invoked :
      (Request P → World S V → Result Answer × World S V)
      → (P → Bool)
      → Result (Request P)
      → World S V
      → Result Answer × World S V
  unfolding restricted supplied
  invoked process efits (raise x) w = (raise x, w)
  invoked process efits (ok q) w =
      if not (supplied efits q.entity)
      then (raise Exception.entity_contract, w)
      else restricted q.output (if d.once then once (process q) q.id w else process q w)

  -- `invoke`: `process` is what the kind of operation does, `rfits` the request's contract, `efits`
  -- what `scope.fit` accepts.
  pub invoke :
      (Request P → World S V → Result Answer × World S V)
      → (Request P → Bool)
      → (P → Bool)
      → (Query → Result Query)
      → Request P
      → World S V
      → Result Answer × World S V
  unfolding invoked projected parsed
  invoke process rfits efits parse q w =
      if not d.projects && projected q.query
      then (raise request_contract, w)
      else if not q.authentic && not (rfits q)
      then (raise request_contract, w)
      else invoked process efits (parsed parse q) w
