-- ===== src/Cadence/Metronome.antt =====
-- What is kept of calls to make later: extensions/cadence/components/cadence.metronome, its
-- transitions `settle`, `delay` and `resume`.
use toa.Prelude.{
  ℕ, ◌+◌, ◌<◌, ◌≡◌, refl, ap, sym, ◌∙◌, ◌⊎◌, inl, inr, Bool, true, false, Option, none, some, List,
  map, arith, ◌==◌, if◌then◌else◌, Bool-cases, Option-cases,
}
use toa.Prelude.Maps.{lookup, contains}
use toa.Cadence.Row.{Occurrences, IsAhead, Calendar, Call, Stored, row, following, following_ahead}

pub record Entry : Type 0 where
  pub id : ℕ
  pub deleted : Option ℕ
  pub stored : Stored

-- `delay`
pub delay : ℕ → ℕ → ℕ → Call → ℕ → Entry → Entry
delay lane now interval c overdue e = record e {
  stored = row lane (record c { due = now + interval });
}

-- `resume`
pub resume : ℕ → ℕ → Entry → Entry
resume due lane e = record e { stored = record e.stored { due = due; lane = lane } }

tombstone : ℕ → Entry → Entry
tombstone now e = record e { deleted = some now }

-- A recurring row that was disposed of at its occurrence.
moved : ℕ → Entry → Option ℕ → Entry
unfolding tombstone
moved now e none = tombstone now e
moved now e (some due) = record e { stored = record e.stored { due = due } }

made_at : Option ℕ → ℕ → Bool
made_at none due = false
made_at (some at) due = at == due

settle_recurring : Occurrences → ℕ → List (ℕ × ℕ) → Calendar → Entry → Entry
unfolding moved made_at
settle_recurring occur now made c e =
    if made_at (lookup e.id made) e.stored.due
    then moved now e (following occur c e.stored now)
    else e

unfoldable pub settle_entry : Occurrences → ℕ → List (ℕ × ℕ) → List ℕ → Entry → Entry
unfolding settle_recurring tombstone
settle_entry occur now made ended e = elim e.stored.schedule [
  | none ↦ tombstone now e
  | some c ↦ if contains e.id ended then tombstone now e else settle_recurring occur now made c e
]

-- `settle`, over its entries
pub settle : Occurrences → ℕ → List (ℕ × ℕ) → List ℕ → List Entry → List Entry
unfolding settle_entry
settle occur now made ended es = map (settle_entry occur now made ended) es

made_at-after :
    (o : Option ℕ) (due due' : ℕ) → made_at o due ≡ true → due < due' → made_at o due' ≡ false
unfolding made_at
made_at-after none due due' h lt = cc
made_at-after (some at) due due' h lt = ground arith

-- A row on a calendar of which neither the end nor the occurrence was reported.
Waits : List (ℕ × ℕ) → List ℕ → Entry → Type 0
Waits made ended e =
    (c : Calendar) × (e.stored.schedule ≡ some c)
    × (contains e.id ended ≡ false)
    × (made_at (lookup e.id made) e.stored.due ≡ false)

settle_entry-Waits :
    (occur : Occurrences) (now : ℕ) (made : List (ℕ × ℕ)) (ended : List ℕ) (e : Entry)
    → Waits made ended e
    → settle_entry occur now made ended e ≡ e
unfolding Waits settle_entry settle_recurring
settle_entry-Waits occur now made ended e (c, calendar, going, unmade) = grind arith

moved-Waits :
    (now : ℕ) (made : List (ℕ × ℕ)) (ended : List ℕ) (e : Entry) (c : Calendar) (o : Option ℕ)
    → e.stored.schedule ≡ some c
    → contains e.id ended ≡ false
    → made_at (lookup e.id made) e.stored.due ≡ true
    → ((at : ℕ) → o ≡ some at → e.stored.due < at)
    → (moved now e o).deleted ≡ none
    → Waits made ended (moved now e o)
unfolding Waits moved tombstone
moved-Waits now made ended e c none calendar going was_made later owed = cc
moved-Waits now made ended e c (some at) calendar going was_made later owed =
    (c, calendar, going, made_at-after (lookup e.id made) e.stored.due at was_made (later at refl))

-- A row that the call of an occurrence was reported of.
Moves : Occurrences → ℕ → List (ℕ × ℕ) → List ℕ → Entry → Type 0
Moves occur now made ended e =
    (c : Calendar) × (e.stored.schedule ≡ some c)
    × (contains e.id ended ≡ false)
    × (made_at (lookup e.id made) e.stored.due ≡ true)
    × (settle_entry occur now made ended e ≡ moved now e (following occur c e.stored now))

settle_entry_cases :
    (occur : Occurrences) (now : ℕ) (made : List (ℕ × ℕ)) (ended : List ℕ) (e : Entry)
    → (settle_entry occur now made ended e ≡ tombstone now e)
      ⊎ Waits made ended e
      ⊎ Moves occur now made ended e
unfolding Waits Moves settle_entry settle_recurring
settle_entry_cases occur now made ended e = elim (Option-cases e.stored.schedule) [
  | inl once ↦ inl (grind arith)
  | inr (c, calendar) ↦ elim (Bool-cases (contains e.id ended)) [
    | inl over ↦ inl (grind arith)
    | inr going ↦ elim (Bool-cases (made_at (lookup e.id made) e.stored.due)) [
      | inl was_made ↦ inr (inr (c, calendar, going, was_made, grind arith))
      | inr unmade ↦ inr (inl (c, calendar, going, unmade))
    ]
  ]
]

settled-Waits :
    (occur : Occurrences) (now : ℕ) (made : List (ℕ × ℕ)) (ended : List ℕ) (e : Entry)
    → IsAhead occur
    → (settle_entry occur now made ended e).deleted ≡ none
    → Waits made ended (settle_entry occur now made ended e)
unfolding Moves
settled-Waits occur now made ended e ahead owed = elim (settle_entry_cases occur now made ended e) [
  | inl over ↦ unfold tombstone in let gone = sym owed ∙ ap (λ x. x.deleted) over in cc
  | inr (inl waits) ↦ rw (settle_entry-Waits occur now made ended e waits) waits
  | inr (inr (c, calendar, going, was_made, eq)) ↦
      let o = following occur c e.stored now in
      let later : (at : ℕ) → o ≡ some at → e.stored.due < at =
        λ at h. let (_, lt, _) = following_ahead occur c e.stored now at ahead h in lt in
      rw eq (
        moved-Waits now made ended e c o calendar going was_made later
          (ap (λ x. x.deleted) (sym eq) ∙ owed))
]

-- A row that was settled and is still owed stays where it is when it is settled once more with the
-- same calls, however late: an occurrence that was not made is not disposed of.
pub settle-settle :
    (occur : Occurrences) (now later : ℕ) (made : List (ℕ × ℕ)) (ended : List ℕ) (e : Entry)
    → IsAhead occur
    → (settle_entry occur now made ended e).deleted ≡ none
    → settle_entry occur later made ended (settle_entry occur now made ended e)
      ≡ settle_entry occur now made ended e
unfolding settle_entry settle_recurring tombstone moved
settle-settle occur now later made ended e ahead owed =
    settle_entry-Waits occur later made ended (settle_entry occur now made ended e)
      (settled-Waits occur now made ended e ahead owed)
