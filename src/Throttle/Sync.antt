-- ===== src/Throttle/Sync.antt =====
-- The quotas of a process, reconciled with the group's: throttle/Sync.ts.
--
-- A quota is known by its place in the register. What the atom answers, or that it raises, is an
-- event that ends a round.
pub mod Pace
use toa.Prelude.{
  ℕ, zero, suc, ◌≡◌, refl, ap, sym, ◌∙◌, Bool, true, false, Option, none, some, List, [], ◌∷◌, ◌++◌,
  ltb, if◌then◌else◌,
}
use toa.Throttle.Quotas.{Quotas, period, flush, settled}
use toa.Throttle.Quotas.Flush.{flush-flush}

pub record Sync : Type 0 where
  pub quotas : List Quotas
  -- the period of the interval, if it is set
  pub timer : Option ℕ
  -- `none` is Infinity
  pub period : Option ℕ
  pub reconciling : Bool

-- The constructor.
pub new : Sync
new = record { quotas = []; timer = none; period = none; reconciling = false }

pub dispose : Sync → Sync
dispose s = record s { timer = none }

-- `start`, which disposes of the interval there was
pub start : ℕ → Sync → Sync
unfolding dispose
start every s = record (dispose s) { timer = some every }

pub is_shorter : ℕ → Option ℕ → Bool
is_shorter every none = true
is_shorter every (some p) = ltb every p

pub register : Quotas → Sync → Sync
unfolding start is_shorter
register q s =
    let s' = record s { quotas = s.quotas ++ q ∷ [] } in
    if is_shorter (period q.interval) s.period
    then start (period q.interval) (record s' { period = some (period q.interval) })
    else s'

pub record Batch : Type 0 where
  pub quota : ℕ
  pub key : ℕ
  pub delta : ℕ

batch_of : ℕ → List (ℕ × ℕ) → List Batch
batch_of i [] = []
batch_of i ((key, delta) ∷ b) = record { quota = i; key = key; delta = delta } ∷ batch_of i b

-- The loop of `tick`
pub flush_all : ℕ → ℕ → List Quotas → List Quotas × List Batch
unfolding batch_of
flush_all now i [] = ([], [])
flush_all now i (q ∷ qs) =
    let (q', b) = flush q now in
    let (qs', bs) = flush_all now (suc i) qs in (q' ∷ qs', batch_of i b ++ bs)

is_empty : List Batch → Bool
is_empty [] = true
is_empty (b ∷ bs) = false

-- `tick`, with the batch that is sent
pub tick : ℕ → Sync → Sync × List Batch
unfolding flush_all is_empty
tick now s =
    let (qs, batch) = flush_all now 0 s.quotas in
    if s.reconciling
    then (s, [])
    else (record s { quotas = qs; reconciling = if is_empty batch then false else true }, batch)

settle_at : ℕ → Batch → ℕ → ℕ → List Quotas → List Quotas
settle_at now b debt i [] = []
settle_at now b debt zero (q ∷ qs) = settled q b.key b.delta debt now ∷ qs
settle_at now b debt (suc i) (q ∷ qs) = q ∷ settle_at now b debt i qs

settle_all : ℕ → List (Batch × ℕ) → List Quotas → List Quotas
unfolding settle_at
settle_all now [] qs = qs
settle_all now ((b, debt) ∷ bs) qs = settle_all now bs (settle_at now b debt b.quota qs)

-- `reconcile`, by the debts that the atom answers, and its `.finally`
pub reconciled : ℕ → List (Batch × ℕ) → Sync → Sync
unfolding settle_all
reconciled now answers s = record s {
  quotas = settle_all now answers s.quotas;
  reconciling = false;
}

-- the atom raised
pub failed : Sync → Sync
failed s = record s { reconciling = false }

flush_again :
    (now later i : ℕ) (qs : List Quotas)
    → (flush_all later i (flush_all now i qs).0).1 ≡ (flush_all now i qs).1
unfolding flush_all
flush_again now later i [] = refl
flush_again now later i (q ∷ qs) =
    let first = flush-flush q now later in
    let rest = flush_again now later (suc i) qs in rw (first, rest) refl

tick_free :
    (now : ℕ) (s : Sync)
    → s.reconciling ≡ false
    → let (qs, batch) = flush_all now 0 s.quotas in
      tick now s
      ≡ (record s { quotas = qs; reconciling = if is_empty batch then false else true }, batch)
unfolding tick
tick_free now s free =
    let (qs, batch) = flush_all now 0 s.quotas in
    ap
      (λ b. if b then (s, []) else (
        record s { quotas = qs; reconciling = if is_empty batch then false else true },
        batch,
      ))
      free

-- In a process that no round is running in, a tick whose round fails loses nothing: the tick after
-- it, if nothing came in between, sends all that the first one sent.
pub tick_again :
    (now later : ℕ) (s : Sync)
    → s.reconciling ≡ false
    → (tick later (failed (tick now s).0)).1 ≡ (tick now s).1
unfolding tick failed
tick_again now later s free =
    let first = tick_free now s free in
    ap (λ r. (tick later (failed r.0)).1) first
    ∙ flush_again now later 0 s.quotas
    ∙ sym (ap (λ r. r.1) first)
