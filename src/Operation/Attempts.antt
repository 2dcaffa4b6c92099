-- ===== src/Operation/Attempts.antt =====
-- What the attempts of a transition leave behind, with the outbox and as their answer.
use mathlib.Core.List.{append-nil}
use mathlib.Core.Path.{subst}
use toa.State.Commits.{told, IsDurable, commit-told}
use toa.Prelude.{
  ℕ, zero, suc, ◌≡◌, refl, ◌∙◌, ap, ◌⊎◌, inl, inr, Bool, true, false, ◌||◌, Option, none, some,
  List, [], ◌∷◌, ◌++◌, if◌then◌else◌,
}
use toa.Entity.{Record, Entity, Event, is_some, is_discarded, event, set}
use toa.Entity
use toa.Outbox.{Row}
use toa.Restrict.{Reply, replied}
use toa.State.{
  Query, system, state_concurrency, Result, ok, raise, Setup, Moment, World, entry, commit, row_of,
  ask,
}
use toa.Operation.{
  Definition, Request, Algorithm, Attempt, answered, lost, attempt, attempts, transition, run, call,
  written, placed, committed, acquired, ran, after_loss, replying,
}

-- What was handed to the outbox by one attempt, by how it ended.
IsTold : {A : Type 0} → Result Attempt → List A → List A → Type 0
IsTold {A} (ok (answered r)) before after =
    (after ≡ before) ⊎ ((x : A) × (after ≡ before ++ x ∷ []))
IsTold (ok lost) before after = after ≡ before
IsTold (raise x) before after = after ≡ before

-- The same, of a whole operation.
unfoldable pub IsAnswered : {A B : Type 0} → Result B → List A → List A → Type 0
IsAnswered {A} (ok r) before after = (after ≡ before) ⊎ ((x : A) × (after ≡ before ++ x ∷ []))
IsAnswered (raise x) before after = after ≡ before

module _ {S V P : Type 0} (c : Setup S V P) (d : Definition) (fits : Reply → Bool)
    (durable : IsDurable c.outbox) where
  written-IsTold :
      (r : Reply) (o : Option (Row (Event V))) (x : Result Bool × World S V)
      (before : List (Row (Event V)))
      → x.1.handed ≡ before ++ told x.0 o
      → IsTold (written c d fits r x).0 before (written c d fits r x).1.handed
  unfolding IsTold told written
  written-IsTold r none (ok true, w) before h = inl (h ∙ append-nil _)
  written-IsTold r (some x) (ok true, w) before h = inr (x, h)
  written-IsTold r o (ok false, w) before h = h ∙ append-nil _
  written-IsTold r o (raise x, w) before h = h ∙ append-nil _

  placed-IsTold :
      (t : Moment) (q : Request P) (r : Reply) (e : Entity.Result (Entity V)) (w : World S V)
      → IsTold (placed c d fits t q r e w).0 w.handed (placed c d fits t q r e w).1.handed
  unfolding IsTold placed
  placed-IsTold t q r (Entity.Result.err x) w = refl
  placed-IsTold t q r (Entity.Result.ok e) w =
      written-IsTold r (row_of c t (event e q.input)) (commit c t e q.input (call d q r) w) w.handed
        (commit-told c t e q.input (call d q r) w durable)

  committed-IsTold :
      (t : Moment) (q : Request P) (e : Entity V) (x : Result (Record V × Reply)) (w : World S V)
      → IsTold (committed c d fits t q e x w).0 w.handed (committed c d fits t q e x w).1.handed
  unfolding IsTold committed
  committed-IsTold t q e (raise x) w = refl
  committed-IsTold t q e (ok (v, r)) w =
      elim (is_some r.error || is_discarded v.discard)
        as (λ b.
          IsTold
            (if b
              then (ok (answered r), w)
              else placed c d fits t q r (set c.schemas t.now e v) w).0
            w.handed
            (if b
              then (ok (answered r), w)
              else placed c d fits t q r (set c.schemas t.now e v) w).1.handed) [
                | true ↦ inl refl
                | false ↦ placed-IsTold t q r (set c.schemas t.now e v) w
              ]

  acquired_quiet :
      (t : Moment) (q : Option Query) (w : World S V)
      → (acquired c d fits t q w).1.handed ≡ w.handed
  unfolding acquired entry ask
  acquired_quiet t none w = refl
  acquired_quiet t (some q) w = refl

  ran-IsTold :
      (f : Algorithm (Record V)) (t : Moment) (q : Request P) (x : Result (Entity V) × World S V)
      → IsTold (ran c d fits f t q x).0 x.1.handed (ran c d fits f t q x).1.handed
  unfolding IsTold ran
  ran-IsTold f t q (raise x, w) = refl
  ran-IsTold f t q (ok e, w) = committed-IsTold t q e (run fits d.local (f q.input e.state)) w

  attempt-IsTold :
      (f : Algorithm (Record V)) (t : Moment) (q : Request P) (w : World S V)
      → IsTold (attempt c d fits f t q w).0 w.handed (attempt c d fits f t q w).1.handed
  unfolding attempt
  attempt-IsTold f t q w =
      subst (λ b. IsTold (attempt c d fits f t q w).0 b (attempt c d fits f t q w).1.handed)
        (acquired_quiet t q.query w) (ran-IsTold f t q (acquired c d fits t q.query w))

  after-IsAnswered :
      (next : World S V → Result Reply × World S V) (x : Result Attempt × World S V)
      (before : List (Row (Event V)))
      → IsTold x.0 before x.1.handed
      → ((w : World S V) → IsAnswered (next w).0 w.handed (next w).1.handed)
      → IsAnswered (after_loss c d fits next x).0 before (after_loss c d fits next x).1.handed
  unfolding IsTold IsAnswered after_loss
  after-IsAnswered next (raise x, w) before h n = h
  after-IsAnswered next (ok (answered r), w) before h n = h
  after-IsAnswered next (ok lost, w) before h n =
      elim d.retries
        as (λ b.
          IsAnswered (if b then next w else (raise state_concurrency, w)).0 before
            (if b then next w else (raise state_concurrency, w)).1.handed) [
              | true ↦ subst (λ b. IsAnswered (next w).0 b (next w).1.handed) h (n w)
              | false ↦ h
            ]

  attempts-IsAnswered :
      (k : ℕ) (f : Algorithm (Record V)) (ts : ℕ → Moment) (q : Request P) (w : World S V)
      → IsAnswered (attempts c d fits k f ts q w).0 w.handed (attempts c d fits k f ts q w).1.handed
  unfolding attempts IsAnswered
  attempts-IsAnswered zero f ts q w =
      after-IsAnswered (λ w'. (raise system, w')) (attempt c d fits f (ts zero) q w) w.handed
        (attempt-IsTold f (ts zero) q w) (λ w'. refl)
  attempts-IsAnswered (suc k) f ts q w =
      after-IsAnswered (λ w'. attempts c d fits k f ts q w') (attempt c d fits f (ts (suc k)) q w)
        w.handed (attempt-IsTold f (ts (suc k)) q w) (λ w'. attempts-IsAnswered k f ts q w')

  replying-IsAnswered :
      (x : Result Reply × World S V) (before : List (Row (Event V)))
      → IsAnswered x.0 before x.1.handed
      → IsAnswered (replying c d fits x).0 before (replying c d fits x).1.handed
  unfolding replying IsAnswered
  replying-IsAnswered (ok r, w) before h = h
  replying-IsAnswered (raise x, w) before h = h

  -- Where the outbox, if there is one, keeps its rows: over any number of lost attempts, a
  -- transition that answers has handed the outbox at most one row, and one that raises has handed
  -- it none.
  pub transition-IsAnswered :
      (f : Algorithm (Record V)) (ts : ℕ → Moment) (q : Request P) (w : World S V)
      → IsAnswered (transition c d fits f ts q w).0 w.handed (transition c d fits f ts q w).1.handed
  unfolding transition
  transition-IsAnswered f ts q w =
      replying-IsAnswered (attempts c d fits 32 f ts q w) w.handed (attempts-IsAnswered 32 f ts q w)

module _ {S V P : Type 0} (c : Setup S V P) (d : Definition) (fits : Reply → Bool) where
  -- The attempts that were lost, one after another: from so many left to so many left.
  pub data Loses (f : Algorithm (Record V)) (ts : ℕ → Moment) (q : Request P)
      : ℕ → World S V → ℕ → World S V → Type 0 where
    none_lost : (k : ℕ) (w : World S V) → Loses f ts q k w k w
    one_lost :
        (k n : ℕ) (w w' w'' : World S V)
        → attempt c d fits f (ts (suc k)) q w ≡ (ok lost, w')
        → Loses f ts q k w' n w''
        → Loses f ts q (suc k) w n w''

  attempts-Loses :
      (f : Algorithm (Record V)) (ts : ℕ → Moment) (q : Request P) (k n : ℕ) (w w' : World S V)
      → d.retries ≡ true
      → Loses f ts q k w n w'
      → attempts c d fits k f ts q w ≡ attempts c d fits n f ts q w'
  unfolding attempts after_loss
  attempts-Loses f ts q _ _ _ _ retries (none_lost k w) = refl
  attempts-Loses f ts q _ _ _ _ retries (one_lost k n w w' w'' e path) =
      ap (after_loss c d fits (λ x. attempts c d fits k f ts q x)) e
      ∙ ap (λ b. if b then attempts c d fits k f ts q w' else (raise state_concurrency, w')) retries
      ∙ attempts-Loses f ts q k n w' w'' retries path

  last_attempt :
      (k : ℕ) (f : Algorithm (Record V)) (ts : ℕ → Moment) (q : Request P) (w w' : World S V)
      (r : Reply)
      → attempt c d fits f (ts k) q w ≡ (ok (answered r), w')
      → attempts c d fits k f ts q w ≡ (ok r, w')
  unfolding attempts after_loss
  last_attempt zero f ts q w w' r e = ap (after_loss c d fits (λ x. (raise system, x))) e
  last_attempt (suc k) f ts q w w' r e =
      ap (after_loss c d fits (λ x. attempts c d fits k f ts q x)) e

  -- A transition that retries, and that loses up to 32 attempts before one that answers, answers
  -- what that one does, in the world that one leaves.
  pub transition_retried :
      (f : Algorithm (Record V)) (ts : ℕ → Moment) (q : Request P) (k : ℕ) (w w' w'' : World S V)
      (r : Reply)
      → d.retries ≡ true
      → Loses f ts q 32 w k w'
      → attempt c d fits f (ts k) q w' ≡ (ok (answered r), w'')
      → transition c d fits f ts q w ≡ (ok (replied r), w'')
  unfolding transition replying
  transition_retried f ts q k w w' w'' r retries path e =
      ap (replying c d fits)
        (attempts-Loses f ts q 32 k w w' retries path ∙ last_attempt k f ts q w' w'' r e)

  -- A transition that retries, and that loses its 33 attempts, ends in a system exception.
  pub transition_exhausted :
      (f : Algorithm (Record V)) (ts : ℕ → Moment) (q : Request P) (w w' w'' : World S V)
      → d.retries ≡ true
      → Loses f ts q 32 w 0 w'
      → attempt c d fits f (ts 0) q w' ≡ (ok lost, w'')
      → transition c d fits f ts q w ≡ (raise system, w'')
  unfolding transition replying attempts after_loss
  transition_exhausted f ts q w w' w'' retries path e = ap (replying c d fits) (
      attempts-Loses f ts q 32 0 w w' retries path
      ∙ ap (after_loss c d fits (λ x. (raise system, x))) e
      ∙ ap (λ b. if b then (raise system, w'') else (raise state_concurrency, w'')) retries)
