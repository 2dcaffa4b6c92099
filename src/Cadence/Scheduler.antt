-- ===== src/Cadence/Scheduler.antt =====
-- A calendar that an operation hands over: extensions/cadence/source/Scheduler.ts.
--
-- The metronome that it calls is an interface; what others do between the calls is a function of
-- what is kept. `canonical`, which spells a request, the digest of an identity and what comes next
-- in a calendar are parameters. Rows keep texts as numbers, which `number` gives.
pub mod Again
mod Tests
use toa.Prelude.{
  ℕ, Bool, true, false, ◌||◌, Option, none, some, List, [], ◌∷◌, ◌++◌, ◌==◌, leb, length,
  if◌then◌else◌,
}
use toa.Prelude.Int.{ℤ, pos, negsuc}
use toa.Prelude.Texts.{Text, codes}
use toa.Query.Property.{split}
use toa.Call.Identity.{Part, textual, numeric}
use toa.Call.Invoke.{derive}
use toa.Cadence.Row.{Stored, recurring}
use toa.Cadence.Metronome.{Entry}

pub data Refusal : Type 0 where
  -- it states no schedule, no zone, no `overdue` and no `expires` that is one
  unscheduled unzoned unbounded endless : Refusal
  -- its request names a process, or an input that no moment can be added to
  addressed unfit : Refusal
  -- its calendar is none, ends before its first occurrence, or has none
  uncalendared over never : Refusal
  -- a tombstone holds the id; what else the metronome raises
  duplicate : Refusal
  failed : ℕ → Refusal

pub data Result {ℓ} (A : Type ℓ) : Type ℓ where
  ok : A → Result A
  refused : Refusal → Result A

infixl 5 ◌>>=◌
abbrev pub ◌>>=◌ {ℓ κ} : {A : Type ℓ} {B : Type κ} → Result A → (A → Result B) → Result B
ok a >>= f = f a
refused e >>= f = refused e

-- A value that a caller states.
pub data Value : Type 0 where
  absent other : Value
  text : Text → Value
  integer : ℤ → Value

pub record Declared : Type 0 where
  pub schedule : Value
  pub zone : Value
  pub overdue : Value
  pub expires : Value

pub data Stated : Type 0 where
  expression : Text → Stated
  object : Declared → Stated
  neither : Stated

pub record Recurrence : Type 0 where
  pub schedule : Text
  pub zone : Text
  pub overdue : Option ℕ
  pub expires : Option ℤ

scheduled : Value → Result Text
scheduled (text t) = ok t
scheduled absent = refused unscheduled
scheduled other = refused unscheduled
scheduled (integer n) = refused unscheduled

zoned : Value → Result Text
zoned absent = ok (codes "UTC")
zoned (text t) = ok t
zoned other = refused unzoned
zoned (integer n) = refused unzoned

bounded : Value → Result (Option ℕ)
bounded absent = ok none
bounded (integer (pos n)) = ok (some n)
bounded (integer (negsuc n)) = refused unbounded
bounded (text t) = refused unbounded
bounded other = refused unbounded

ending : Value → Result (Option ℤ)
ending absent = ok none
ending (integer n) = ok (some n)
ending (text t) = refused endless
ending other = refused endless

declared : Declared → Result Recurrence
unfolding scheduled zoned bounded ending
declared d = do
  schedule ← scheduled d.schedule
  zone ← zoned d.zone
  overdue ← bounded d.overdue
  expires ← ending d.expires
  ok (record { schedule = schedule; zone = zone; overdue = overdue; expires = expires })

-- `recurrence`
pub recurrence : Stated → Result Recurrence
unfolding declared
recurrence (expression t) =
    ok (record { schedule = t; zone = codes "UTC"; overdue = none; expires = none })
recurrence (object d) = declared d
recurrence neither = refused unscheduled

pub data Input : Type 0 where
  -- it is absent or null, is no object, or is one, which states `at` or does not
  nothing scalar : Input
  stating : Bool → Input

pub record Request : Type 0 where
  pub value : ℕ
  pub instance : Bool
  pub input : Input

accepted : Input → Result (Unit {0})
accepted nothing = ok tt
accepted scalar = refused unfit
accepted (stating at) = if at then refused unfit else ok tt

admitted : Option Request → Result (Unit {0})
unfolding accepted
admitted none = ok tt
admitted (some r) = if r.instance then refused addressed else accepted r.input

-- `expires`, where the first occurrence does not come after it
limited : Option ℕ → Option ℤ → Result (Option ℕ)
limited due none = ok none
limited none (some at) = refused over
limited (some due) (some (negsuc n)) = refused over
limited (some due) (some (pos at)) = if leb due at then ok (some at) else refused over

-- `endpoint`, by its id
pub qualified : Text → Text
qualified t = if length (split b'.' t) == 2 then codes "default." ++ t else t

pub spelled : Option ℕ → Part
spelled none = textual []
spelled (some at) = numeric at

calendar : Option (ℕ → Option ℕ) → Result (ℕ → Option ℕ)
calendar none = refused uncalendared
calendar (some next) = ok next

pub asked_of : Option Request → Option ℕ
asked_of none = none
asked_of (some r) = some r.value

-- What is called of the metronome: `observe` with tombstones, `ensure` and `resume`.
pub record Metronome (W : Type 0) : Type 0 where
  pub observe : ℕ → W → Option Entry
  pub ensure : ℕ → Stored → W → Result (Unit {0}) × W
  pub resume : ℕ → ℕ → ℕ → W → Result (Unit {0}) × W

answered : {W : Type 0} → Text → Result (Unit {0}) × W → Result Text × W
answered id (ok done, w) = (ok id, w)
answered id (refused e, w) = (refused e, w)

-- Whether a row is a tombstone.
abbrev pub is_tombstone : Option Entry → Bool
is_tombstone none = false
is_tombstone (some e) = elim e.deleted [ none ↦ false | some at ↦ true ]

pub record Handed : Type 0 where
  pub id : Text
  -- without a first occurrence the row fits neither the entity nor what `resume` takes
  pub stored : Option Stored

module _ {W : Type 0} (m : Metronome W) (digest : Text → Text) (canonical : Option ℕ → Text)
    (number : Text → ℕ) (occurrences : Text → Text → Option (ℕ → Option ℕ)) where
  pub identity : Text → Option Request → Recurrence → Option ℕ → Text
  unfolding derive spelled asked_of
  identity endpoint request r expires = derive digest (
      textual (codes "cadence")
      ∷ textual (codes "schedule")
      ∷ textual endpoint
      ∷ textual (canonical (asked_of request))
      ∷ textual r.schedule
      ∷ textual r.zone
      ∷ spelled expires
      ∷ [])

  row_of : ℕ → Text → Option Request → Recurrence → Option ℕ → Option ℕ → Option Stored
  row_of lane endpoint request r expires none = none
  row_of lane endpoint request r expires (some due) = some (
      recurring lane (record {
        endpoint = number endpoint;
        due = due;
        request = asked_of request;
        schedule = (number r.schedule, number r.zone);
        overdue = r.overdue;
        expires = expires;
      }))

  -- `schedule`, up to what it calls
  pub prepared : ℕ → ℕ → Text → Option Request → Stated → Result Handed
  unfolding recurrence admitted calendar limited qualified identity row_of
  prepared lane now endpoint request stated = do
    r ← recurrence stated
    done ← admitted request
    next ← calendar (occurrences r.schedule r.zone)
    expires ← limited (next now) r.expires
    ok (record {
      id = identity (qualified endpoint) request r expires;
      stored = row_of lane (qualified endpoint) request r expires (next now);
    })

  resumed : Text → Stored → W → Result (Unit {0}) × W
  resumed id s w = m.resume (number id) s.due s.lane w

  -- A row that was cancelled between the read and the write is revived as well.
  ensured : (W → W) → Text → Stored → Result (Unit {0}) × W → Result (Unit {0}) × W
  unfolding resumed
  ensured others id s (refused duplicate, w) = resumed id s (others w)
  ensured others id s (refused e, w) = (refused e, w)
  ensured others id s (ok done, w) = (ok tt, w)

  written : (W → W) → Text → Stored → W → Result (Unit {0}) × W
  unfolding ensured resumed
  written others id s w =
      if is_tombstone (m.observe (number id) w)
      then resumed id s (others w)
      else ensured others id s (m.ensure (number id) s (others w))

  hand : (W → W) → W → Text → Option Stored → Result Text × W
  unfolding written answered
  hand others w id none = (refused never, w)
  hand others w id (some s) = answered id (written others id s w)

  handed : (W → W) → W → Result Handed → Result Text × W
  unfolding hand
  handed others w (refused e) = (refused e, w)
  handed others w (ok h) = hand others w h.id h.stored

  -- `schedule`, where `others` is what comes between two calls of the metronome
  pub schedule : (W → W) → ℕ → ℕ → Text → Option Request → Stated → W → Result Text × W
  unfolding handed prepared
  schedule others lane now endpoint request stated w =
      handed others w (prepared lane now endpoint request stated)
