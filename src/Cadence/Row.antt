-- ===== src/Cadence/Row.antt =====
-- What is stored of a call to make later: extensions/cadence/source/row.ts.
use toa.Prelude.{
  ℕ, ◌+◌, ◌-◌, ◌^◌, ◌≤◌, ◌<◌, max, ◌≡◌, refl, Option, none, some, List, ltb, arith, if◌then◌else◌,
}

-- A cron expression and the zone that it is read in.
abbrev pub Calendar : Type 0
Calendar = ℕ × ℕ

-- `occurrences`, of an expression that was accepted
abbrev pub Occurrences : Type 0
Occurrences = Calendar → ℕ → Option ℕ

-- What comes next comes after.
abbrev pub IsAhead : Occurrences → Type 0
IsAhead occur = (c : Calendar) (after at : ℕ) → occur c after ≡ some at → after < at

-- Number.MAX_SAFE_INTEGER
abbrev pub forever : ℕ
forever = 2 ^ 53 - 1

pub record Call : Type 0 where
  pub endpoint : ℕ
  pub due : ℕ
  -- `none` is null: no bound
  pub overdue : Option ℕ
  pub request : Option ℕ
  pub trail : Option (List ℕ)

pub record Recurring : Type 0 where
  pub endpoint : ℕ
  pub due : ℕ
  pub request : Option ℕ
  pub schedule : Calendar
  pub overdue : Option ℕ
  pub expires : Option ℕ

pub record Stored : Type 0 where
  pub lane : ℕ
  pub due : ℕ
  pub expires : ℕ
  pub endpoint : ℕ
  pub request : Option ℕ
  pub trail : Option (List ℕ)
  pub schedule : Option Calendar
  pub overdue : Option ℕ

expiry : ℕ → Option ℕ → ℕ
expiry due none = forever
expiry due (some overdue) = due + overdue

-- `lane` is `Math.floor(Math.random() * LANES)`.
pub row : ℕ → Call → Stored
unfolding expiry
row lane c = record {
  lane = lane;
  due = c.due;
  expires = expiry c.due c.overdue;
  endpoint = c.endpoint;
  request = c.request;
  trail = c.trail;
  schedule = none;
  overdue = none;
}

pub row-expires :
    (lane overdue : ℕ) (c : Call)
    → c.overdue ≡ some overdue
    → (row lane c).expires ≡ c.due + overdue
unfolding row expiry
row-expires lane overdue c e = rw e refl

pub recurring : ℕ → Recurring → Stored
recurring lane c = record {
  lane = lane;
  due = c.due;
  expires = elim c.expires [ none ↦ forever | some t ↦ t ];
  endpoint = c.endpoint;
  request = c.request;
  trail = none;
  schedule = some c.schedule;
  overdue = c.overdue;
}

until : ℕ → Option ℕ → Option ℕ → ℕ
until due (some overdue) next = due + overdue
until due none none = forever
until due none (some at) = at

-- `bound`, of a row on a calendar
unfoldable pub bound : Occurrences → Calendar → Stored → ℕ
unfolding until
bound occur c s = until s.due s.overdue (occur c s.due)

within : ℕ → Option ℕ → Option ℕ
within expires none = none
within expires (some at) = if ltb expires at then none else some at

-- `following`
unfoldable pub following : Occurrences → Calendar → Stored → ℕ → Option ℕ
unfolding within
following occur c s now = within s.expires (occur c (max now s.due))

within_lem :
    (expires : ℕ) (o : Option ℕ) (at : ℕ)
    → within expires o ≡ some at
    → (o ≡ some at) × (at ≤ expires)
unfolding within
within_lem expires none at h = cc
within_lem expires (some t) at h = ground arith

-- The occurrence that a row moves on to is after now and after the one it was at, and before the row
-- expires.
pub following_ahead :
    (occur : Occurrences) (c : Calendar) (s : Stored) (now at : ℕ)
    → IsAhead occur
    → following occur c s now ≡ some at
    → (now < at) × (s.due < at) × (at ≤ s.expires)
unfolding following
following_ahead occur c s now at ahead h =
    let (e, le) = within_lem s.expires (occur c (max now s.due)) at h in
    let lt = ahead c (max now s.due) at e in omega arith
