-- ===== src/Operation/Kinds.antt =====
-- What each kind of operation but a transition leaves with the outbox.
use mathlib.Core.Path.{subst, sym}
use mathlib.Core.List.{append-nil}
use toa.Prelude.{
  ◌≡◌, refl, ◌∙◌, inl, inr, Bool, true, false, Option, none, some, List, ◌++◌, if◌then◌else◌,
}
use toa.Entity.{Record, Entity, Event, Changeset, change, is_some}
use toa.Entity
use toa.Outbox.{Row}
use toa.Restrict.{Reply, Answer, replied, Output}
use toa.State.{Query, Result, ok, raise, Setup, Moment, World, entry, ask, apply, row_of}
use toa.State.Commits.{told_image, IsDurable, apply_hands, IsCreated, ensure-IsCreated}
use toa.Operation.{
  Definition, Request, Algorithm, run, call, defaulted, assigned, assign_ran, assignment,
}
use toa.Operation.Attempts.{IsAnswered}
use toa.Operation.Reading.{observed, acquire_read, observation, ensured_read, effect}

module _ {S V P : Type 0} (c : Setup S V P) (d : Definition) (fits : Reply → Bool) where
  observed_quiet :
      (f : Algorithm (Record V)) (q : Request P) (x : Result (Option (Entity V)) × World S V)
      → (observed c d fits f q x).1.handed ≡ x.1.handed
  unfolding observed
  observed_quiet f q (raise x, w) = refl
  observed_quiet f q (ok none, w) = refl
  observed_quiet f q (ok (some e), w) = refl

  acquire_quiet :
      (t : Moment) (q : Option Query) (w : World S V)
      → (acquire_read c d fits t q w).1.handed ≡ w.handed
  unfolding acquire_read entry ask
  acquire_quiet t none w = refl
  acquire_quiet t (some q) w = refl

  -- An observation hands the outbox nothing, whatever its algorithm answers or raises.
  pub observation_quiet :
      (f : Algorithm (Record V)) (t : Moment) (q : Request P) (w : World S V)
      → (observation c d fits f t q w).1.handed ≡ w.handed
  unfolding observation
  observation_quiet f t q w =
      observed_quiet f q (acquire_read c d fits t q.query w) ∙ acquire_quiet t q.query w

  observed-IsCreated :
      (f : Algorithm (Record V)) (q : Request P) (x : Result (Option (Entity V)) × World S V)
      (before : List (Row (Event V)))
      → IsCreated before x.1.handed
      → IsCreated before (observed c d fits f q x).1.handed
  observed-IsCreated f q x before h = subst (IsCreated before) (sym (observed_quiet f q x)) h

  -- An effect hands the outbox at most one row, whatever its algorithm does after.
  pub effect-IsCreated :
      (f : Algorithm (Record V)) (t : Moment) (q : Request P) (w : World S V)
      → IsCreated w.handed (effect c d fits f t q w).1.handed
  unfolding effect ensured_read IsCreated
  effect-IsCreated f t q w =
      elim q.entity
        as (λ o.
          IsCreated w.handed
            (elim o as (λ _. Result Answer × World S V) [
              | none ↦ observation c d fits f t q w
              | some ps ↦ observed c d fits f q (ensured_read c d fits t q ps w)
            ]).1.handed) [
              | none ↦ inl (observation_quiet f t q w)
              | some ps ↦
                  observed-IsCreated f q (ensured_read c d fits t q ps w) w.handed
                    (ensure-IsCreated c t q.query ps q.input none w)
            ]

module _ {S V P : Type 0} (c : Setup S V P) (d : Definition) (fits : Reply → Bool)
    (durable : IsDurable c.outbox) where
  defaulted-IsAnswered :
      (render : Record V → Output) (r : Reply) (o : Option (Row (Event V)))
      (x : Result (Record V) × World S V) (before : List (Row (Event V)))
      → x.1.handed ≡ before ++ told_image x.0 o
      → IsAnswered (defaulted c d fits render r x).0 before (defaulted c d fits render r x).1.handed
  unfolding IsAnswered told_image defaulted
  defaulted-IsAnswered render r none (ok v, w) before h = inl (h ∙ append-nil _)
  defaulted-IsAnswered render r (some x) (ok v, w) before h = inr (_, h)
  defaulted-IsAnswered render r o (raise x, w) before h = h ∙ append-nil _

  assigned-IsAnswered :
      (render : Record V → Output) (t : Moment) (q : Request P) (query : Query) (r : Reply)
      (v : Entity.Result (Changeset P)) (w : World S V)
      → IsAnswered
          (assigned c d fits render t q query r v w).0
          w.handed
          (assigned c d fits render t q query r v w).1.handed
  unfolding IsAnswered assigned
  assigned-IsAnswered render t q query r (Entity.Result.err x) w = refl
  assigned-IsAnswered render t q query r (Entity.Result.ok v) w =
      defaulted-IsAnswered render r
        (row_of c t (record { origin = none; state = none; trailers = none; input = q.input }))
        (apply c t query v q.input (call d q r) w) w.handed
        (apply_hands c t query v q.input (call d q r) w durable)

  assign_ran-IsAnswered :
      (render : Record V → Output) (cfits : Changeset P → Bool) (t : Moment) (q : Request P)
      (query : Query) (x : Result (Changeset P × Reply)) (w : World S V)
      → IsAnswered
          (assign_ran c d fits render cfits t q query x w).0
          w.handed
          (assign_ran c d fits render cfits t q query x w).1.handed
  unfolding IsAnswered assign_ran
  assign_ran-IsAnswered render cfits t q query (raise x) w = refl
  assign_ran-IsAnswered render cfits t q query (ok (v, r)) w =
      elim (is_some r.error)
        as (λ b.
          IsAnswered
            (if b
              then (ok (replied r), w)
              else assigned c d fits render t q query r (change cfits t.now v) w).0
            w.handed
            (if b
              then (ok (replied r), w)
              else assigned c d fits render t q query r (change cfits t.now v) w).1.handed) [
                | true ↦ inl refl
                | false ↦ assigned-IsAnswered render t q query r (change cfits t.now v) w
              ]

  -- Where the outbox keeps its rows, an assignment that answers has handed it at most one row, and one
  -- that raises has handed it none.
  pub assignment-IsAnswered :
      (render : Record V → Output) (cfits : Changeset P → Bool) (blank : Changeset P)
      (f : Algorithm (Changeset P)) (t : Moment) (q : Request P) (query : Query) (w : World S V)
      → IsAnswered
          (assignment c d fits render cfits blank f t q query w).0
          w.handed
          (assignment c d fits render cfits blank f t q query w).1.handed
  unfolding assignment
  assignment-IsAnswered render cfits blank f t q query w =
      assign_ran-IsAnswered render cfits t q query (run fits d.local (f q.input blank)) w
