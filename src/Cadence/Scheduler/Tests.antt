-- ===== src/Cadence/Scheduler/Tests.antt =====
-- A pot that is emptied every second, handed over under both names, while all is cancelled.
use toa.Prelude.{
  ℕ, ◌+◌, ◌≡◌, refl, ap, sym, ◌∙◌, true, false, Option, none, some, ◌==◌, length, if◌then◌else◌,
  arith,
}
use toa.Prelude.Texts.{Text, codes}
use toa.Query.Property.{split, push}
use toa.Cadence.Row.{Stored, recurring}
use toa.Cadence.Metronome.{Entry, resume}
use toa.Cadence.Scheduler.{
  duplicate, unfit, Result, ok, refused, Stated, expression, Recurrence, recurrence, stating,
  admitted, accepted, limited, qualified, calendar, Metronome, Handed, identity, row_of, prepared,
  schedule,
}
use toa.Cadence.Scheduler.Again.{IsKept, IsKeeping, IsLive, schedule_again}

abbrev Rows : Type 0
Rows = ℕ → Option Entry

abbrev put : ℕ → Entry → Rows → Rows
put id e w j = if j == id then some e else w j

abbrev fresh : ℕ → Stored → Entry
fresh id s = record { id = id; deleted = none; stored = s }

abbrev ensure_in : ℕ → Stored → Rows → Option Entry → Result (Unit {0}) × Rows
ensure_in id s w none = (ok tt, put id (fresh id s) w)
ensure_in id s w (some e) = elim e.deleted [ none ↦ (ok tt, w) | some at ↦ (refused duplicate, w) ]

abbrev resume_in : ℕ → ℕ → ℕ → Rows → Option Entry → Result (Unit {0}) × Rows
resume_in id due lane w none = (ok tt, w)
resume_in id due lane w (some e) = (ok tt, put id (record (resume due lane e) { deleted = none }) w)

abbrev rows : Metronome Rows
rows = record {
  observe = λ id w. w id;
  ensure = λ id s w. ensure_in id s w (w id);
  resume = λ id due lane w. resume_in id due lane w (w id);
}

put_lem : (id : ℕ) (e : Entry) (o : Option Entry) → (if id == id then some e else o) ≡ some e
put_lem id e o = ground arith

rows-IsKept : IsKept rows
rows-IsKept = record {
  creates = λ id s w missing. simp missing (refl, put_lem id (fresh id s) none);
  stays = λ id s w e there live. simp (there, live) refl;
  refuses = λ id s w e at there gone. simp (there, gone) refl;
  revives = λ id due lane w e there.
      simp there (refl, put_lem id (record (resume due lane e) { deleted = none }) (some e));
}

-- Everything is cancelled.
abbrev cancelled : Option Entry → Option Entry
cancelled none = none
cancelled (some e) = some (record e { deleted = some 7 })

abbrev cancel_all : Rows → Rows
cancel_all w j = cancelled (w j)

cancel_all-IsKeeping : IsKeeping rows cancel_all
cancel_all-IsKeeping id w e there = (record e { deleted = some 7 }, ap cancelled there)

abbrev endpoint : Text
endpoint = codes "pots.empty"

abbrev full_endpoint : Text
full_endpoint = codes "default.pots.empty"

abbrev calendars : Text → Text → Option (ℕ → Option ℕ)
calendars schedule zone = some (λ now. some (now + 1000))

abbrev recurs : Recurrence
recurs = record {
  schedule = codes "* * * * * *";
  zone = codes "UTC";
  overdue = none;
  expires = none;
}

abbrev every_second : Stated
every_second = expression (codes "* * * * * *")

abbrev spell : Option ℕ → Text
spell request = codes "null"

abbrev stored_at : ℕ → ℕ → Text → Stored
stored_at lane due name = recurring lane (record {
  endpoint = length name;
  due = due;
  request = none;
  schedule = (length recurs.schedule, length recurs.zone);
  overdue = none;
  expires = none;
})

abbrev handed_at : ℕ → ℕ → Text → Handed
handed_at lane due name = record {
  id = identity rows (λ t. t) spell length calendars name none recurs none;
  stored = some (stored_at lane due name);
}

named : qualified endpoint ≡ full_endpoint
unfolding qualified split push
named = refl

full_named : qualified full_endpoint ≡ full_endpoint
unfolding qualified split push
full_named = refl

stating_at :
    prepared rows
      (λ t. t)
      spell
      length
      calendars
      1
      0
      endpoint
      (some (record { value = 5; instance = false; input = stating true }))
      every_second
    ≡ refused unfit
unfolding prepared recurrence admitted accepted
stating_at = refl

first :
    prepared rows (λ t. t) spell length calendars 1 0 endpoint none every_second
    ≡ ok (handed_at 1 1000 full_endpoint)
unfolding prepared recurrence admitted calendar limited row_of qualified split push
first = refl

second :
    prepared rows (λ t. t) spell length calendars 2 5000 full_endpoint none every_second
    ≡ ok (handed_at 2 6000 full_endpoint)
unfolding prepared recurrence admitted calendar limited row_of qualified split push
second = refl

abbrev empty_rows : Rows
empty_rows j = none

abbrev once : Result Text × Rows
once =
    schedule rows (λ t. t) spell length calendars cancel_all 1 0 endpoint none every_second
      empty_rows

schedule_again_example :
    (once.0 ≡ ok (handed_at 1 1000 full_endpoint).id)
    × IsLive rows (length (handed_at 1 1000 full_endpoint).id) once.1
    × (schedule rows
          (λ t. t)
          spell
          length
          calendars
          (λ w. w)
          2
          5000
          full_endpoint
          none
          every_second
          once.1
        ≡ (ok (handed_at 1 1000 full_endpoint).id, once.1))
schedule_again_example =
    schedule_again rows (λ t. t) spell length calendars rows-IsKept cancel_all 1 2 0 5000 endpoint
      full_endpoint none none every_second empty_rows (handed_at 1 1000 full_endpoint)
      (handed_at 2 6000 full_endpoint) (stored_at 1 1000 full_endpoint)
      (stored_at 2 6000 full_endpoint) cancel_all-IsKeeping first refl second refl
      (named ∙ sym full_named) refl
