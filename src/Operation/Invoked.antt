-- ===== src/Operation/Invoked.antt =====
-- What an invocation leaves with the outbox, around what its kind of operation does.
use toa.Prelude.{
  ℕ, refl, inl, Bool, true, false, not, ◌&&◌, Option, none, some, List, if◌then◌else◌,
}
use toa.Entity.{Event}
use toa.Outbox.{Row}
use toa.Restrict.{Reply, Answer, replied}
use toa.State.{
  Query, Exception, system, request_contract, response_contract, state_not_found,
  state_precondition, state_concurrency, duplicate_call, Result, ok, raise, Setup, World, recall,
  ask,
}
use toa.Operation.{
  Definition, Request, relapsed, recalled, once, restricted, supplied, parsed, projected, invoked,
  invoke,
}
use toa.Operation.Attempts.{IsAnswered}

module _ {S V P : Type 0} (c : Setup S V P) (d : Definition) (fits : Reply → Bool) where
  Answers : (World S V → Result Answer × World S V) → Type 0
  Answers process = (w : World S V) → IsAnswered (process w).0 w.handed (process w).1.handed

  relapsed-IsAnswered :
      (id : ℕ) (x : Result Answer × World S V) (before : List (Row (Event V)))
      → IsAnswered x.0 before x.1.handed
      → IsAnswered (relapsed c d fits id x).0 before (relapsed c d fits id x).1.handed
  unfolding relapsed IsAnswered recall ask
  relapsed-IsAnswered id (ok a, w) before h = h
  relapsed-IsAnswered id (raise duplicate_call, w) before h =
      elim (c.storage.recall w.store id).0
        as (λ o.
          IsAnswered
            (elim o as (λ _. Result Answer) [
              | none ↦ raise duplicate_call
              | some reply ↦ ok (replied reply)
            ])
            before w.handed) [ none ↦ h | some reply ↦ inl h ]
  relapsed-IsAnswered id (raise Exception.emission, w) before h = h
  relapsed-IsAnswered id (raise system, w) before h = h
  relapsed-IsAnswered id (raise request_contract, w) before h = h
  relapsed-IsAnswered id (raise response_contract, w) before h = h
  relapsed-IsAnswered id (raise Exception.entity_contract, w) before h = h
  relapsed-IsAnswered id (raise (Exception.entity_guard n), w) before h = h
  relapsed-IsAnswered id (raise state_not_found, w) before h = h
  relapsed-IsAnswered id (raise state_precondition, w) before h = h
  relapsed-IsAnswered id (raise state_concurrency, w) before h = h

  recalled-IsAnswered :
      (process : World S V → Result Answer × World S V) (id : ℕ) (x : Option Reply × World S V)
      → Answers process
      → IsAnswered
          (recalled c d fits process id x).0
          x.1.handed
          (recalled c d fits process id x).1.handed
  unfolding recalled IsAnswered Answers
  recalled-IsAnswered process id (some reply, w) h = inl refl
  recalled-IsAnswered process id (none, w) h = relapsed-IsAnswered id (process w) w.handed (h w)

  once-IsAnswered :
      (process : World S V → Result Answer × World S V) (id : Option ℕ)
      → Answers process
      → Answers (once c d fits process id)
  unfolding once Answers recall ask IsAnswered
  once-IsAnswered process none h w = refl
  once-IsAnswered process (some id) h w = recalled-IsAnswered process id (recall c id w) h

  restricted-IsAnswered :
      (allowed : Option (List ℕ)) (x : Result Answer × World S V) (before : List (Row (Event V)))
      → IsAnswered x.0 before x.1.handed
      → IsAnswered (restricted c d fits allowed x).0 before (restricted c d fits allowed x).1.handed
  unfolding restricted IsAnswered
  restricted-IsAnswered allowed (ok a, w) before h = h
  restricted-IsAnswered allowed (raise x, w) before h = h

  made-IsAnswered :
      (process : World S V → Result Answer × World S V) (id : Option ℕ) (b : Bool) (w : World S V)
      → Answers process
      → IsAnswered
          (if b then once c d fits process id w else process w).0
          w.handed
          (if b then once c d fits process id w else process w).1.handed
  unfolding Answers
  made-IsAnswered process id true w h = once-IsAnswered process id h w
  made-IsAnswered process id false w h = h w

  invoked-IsAnswered :
      (process : Request P → World S V → Result Answer × World S V) (efits : P → Bool)
      (x : Result (Request P)) (w : World S V)
      → ((q : Request P) → Answers (process q))
      → IsAnswered
          (invoked c d fits process efits x w).0
          w.handed
          (invoked c d fits process efits x w).1.handed
  unfolding invoked IsAnswered
  invoked-IsAnswered process efits (raise x) w h = refl
  invoked-IsAnswered process efits (ok q) w h =
      let made : Result Answer × World S V =
        if d.once then once c d fits (process q) q.id w else process q w in
      elim (supplied c d fits efits q.entity)
        as (λ b.
          let r : Result Answer × World S V =
            if not b
            then (raise Exception.entity_contract, w)
            else restricted c d fits q.output made in
          IsAnswered r.0 w.handed r.1.handed) [
            | true ↦
                restricted-IsAnswered q.output made w.handed
                  (made-IsAnswered (process q) q.id d.once w (h q))
            | false ↦ refl
          ]

  -- An invocation of an operation that hands the outbox at most one row where it answers and none
  -- where it raises does no more itself, whether its calls are made once or not.
  pub invoke-IsAnswered :
      (process : Request P → World S V → Result Answer × World S V) (rfits : Request P → Bool)
      (efits : P → Bool) (parse : Query → Result Query) (q : Request P) (w : World S V)
      → ((q : Request P) (w : World S V)
          → IsAnswered (process q w).0 w.handed (process q w).1.handed)
      → IsAnswered
          (invoke c d fits process rfits efits parse q w).0
          w.handed
          (invoke c d fits process rfits efits parse q w).1.handed
  unfolding invoke IsAnswered Answers
  invoke-IsAnswered process rfits efits parse q w h =
      let inner = invoked c d fits process efits (parsed c d fits parse q) w in
      elim (not d.projects && projected c d fits q.query)
        as (λ b.
          let r : Result Answer × World S V =
            if b
            then (raise request_contract, w)
            else if not q.authentic && not (rfits q)
            then (raise request_contract, w)
            else inner in
          IsAnswered r.0 w.handed r.1.handed) [
            | true ↦ refl
            | false ↦
                elim (not q.authentic && not (rfits q))
                  as (λ b.
                    let r : Result Answer × World S V =
                      if b then (raise request_contract, w) else inner in
                    IsAnswered r.0 w.handed r.1.handed) [
                      | true ↦ refl
                      | false ↦ invoked-IsAnswered process efits (parsed c d fits parse q) w h
                    ]
          ]
