-- ===== src/Operation/Reading.antt =====
-- Operations that commit nothing: runtime/core/source/observation.ts and effect.ts, with `acquire`
-- and `query` of operation.ts, over one entity.
use toa.Prelude.{Bool, false, not, ◌&&◌, Option, none, some, if◌then◌else◌}
use toa.Entity.{Record, Entity}
use toa.Restrict.{Reply, Answer, null, replied}
use toa.State.{Query, request_contract, Result, ok, raise, Setup, Moment, World, entry, ensure}
use toa.Operation.{Algorithm, Definition, Request, run}

-- `options.deleted`
wanted : Option Query → Bool
wanted none = false
wanted (some q) = q.deleted

reply_of : {A : Type 0} → Result (A × Reply) → Result Answer
reply_of (ok (a, r)) = ok (replied r)
reply_of (raise x) = raise x

lifted : {A : Type 0} → Result A → Result (Option A)
lifted (ok a) = ok (some a)
lifted (raise x) = raise x

module _ {S V P : Type 0} (c : Setup S V P) (d : Definition) (fits : Reply → Bool) where
  -- `Observation.run`, of what was acquired
  unfoldable pub observed :
      Algorithm (Record V)
      → Request P
      → Result (Option (Entity V)) × World S V
      → Result Answer × World S V
  unfolding wanted reply_of
  observed f q (raise x, w) = (raise x, w)
  observed f q (ok none, w) = (ok null, w)
  observed f q (ok (some e), w) = (
    if e.deleted && not (wanted q.query)
        then ok null
        else reply_of (run fits d.local (f q.input e.state)),
    w,
  )

  -- `Operation.acquire`
  unfoldable pub acquire_read :
      Moment → Option Query → World S V → Result (Option (Entity V)) × World S V
  acquire_read t none w = (raise request_contract, w)
  acquire_read t (some q) w = entry c t q false w

  unfoldable pub observation :
      Algorithm (Record V) → Moment → Request P → World S V → Result Answer × World S V
  unfolding observed acquire_read
  observation f t q w = observed f q (acquire_read t q.query w)

  -- `Effect.acquire` of an entity that the request supplies
  unfoldable pub ensured_read :
      Moment → Request P → P → World S V → Result (Option (Entity V)) × World S V
  unfolding lifted
  ensured_read t q ps w = let (r, w') = ensure c t q.query ps q.input none w in (lifted r, w')

  unfoldable pub effect :
      Algorithm (Record V) → Moment → Request P → World S V → Result Answer × World S V
  unfolding observed observation ensured_read
  effect f t q w = elim q.entity [
    | none ↦ observation f t q w
    | some ps ↦ observed f q (ensured_read t q ps w)
  ]
