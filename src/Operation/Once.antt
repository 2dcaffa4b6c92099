-- ===== src/Operation/Once.antt =====
-- A call that is made once: `once` of runtime/core/source/operation.ts.
use toa.Prelude.{ℕ, ◌≡◌, ap, ◌∙◌, none, some, Bool}
use toa.Restrict.{Reply, Answer, replied}
use toa.State.{Result, ok, raise, duplicate_call, Setup, World, recall}
use toa.Operation.{Definition, once, recalled, relapsed}

module _ {S V P : Type 0} (c : Setup S V P) (d : Definition) (fits : Reply → Bool) where
  -- A call that was recorded is answered the recorded reply, whatever the operation would do: it is
  -- not run.
  pub once_recalled :
      (process : World S V → Result Answer × World S V) (id : ℕ) (r : Reply) (w w' : World S V)
      → recall c id w ≡ (some r, w')
      → once c d fits process (some id) w ≡ (ok (replied r), w')
  unfolding once recalled
  once_recalled process id r w w' e = ap (recalled c d fits process id) e

  -- A call that was not recorded when it came, and whose write found it recorded by another that ran
  -- meanwhile, is answered the other's reply.
  pub once_raced :
      (process : World S V → Result Answer × World S V) (id : ℕ) (r : Reply)
      (w w' w'' w''' : World S V)
      → recall c id w ≡ (none, w')
      → process w' ≡ (raise duplicate_call, w'')
      → recall c id w'' ≡ (some r, w''')
      → once c d fits process (some id) w ≡ (ok (replied r), w''')
  unfolding once recalled relapsed
  once_raced process id r w w' w'' w''' first ran again =
      ap (recalled c d fits process id) first
      ∙ ap (relapsed c d fits id) ran
      ∙ ap
          (λ x.
            let (y, z) = x in
            (
              elim y as (λ _. Result Answer) [
                | none ↦ raise duplicate_call
                | some reply ↦ ok (replied reply)
              ],
              z,
            ))
          again
