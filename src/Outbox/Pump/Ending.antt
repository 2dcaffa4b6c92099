-- ===== src/Outbox/Pump/Ending.antt =====
-- How many pages a cycle of the outbox takes.
use toa.Prelude.{
  ℕ, zero, suc, ◌+◌, ◌≤◌, ◌<◌, ◌≡◌, refl, Bool, false, Option, none, some, List, [], ◌∷◌, ◌++◌,
  length, All, arith, ◌==◌, Bool-cases, inl, inr, ap,
}
use toa.Outbox.{Outbox, Row, Sent}
use toa.Outbox.Pump.{
  read, caught, last_id, pages, first, publish_rows, recovered, pump, marked, assignment, mark,
}
use toa.Outbox.Groups.{Group}

-- The least id that comes after a page's last one.
abbrev pub from : Option ℕ → ℕ
from none = 0
from (some id) = suc id

module _ {ℓ} {E : Type ℓ} where
  -- What `pending` answers comes after the page before, and below a bound.
  unfoldable pub IsPaged : ℕ → (List ℕ → ℕ → Option ℕ → Option (List (Row E))) → Type 0
  IsPaged bound pending =
      (lanes : List ℕ) (batch : ℕ) (after : Option ℕ)
      → All (λ r. (from after ≤ r.id) × (r.id < bound)) (caught (pending lanes batch after))

  read-IsPaged :
      (bound : ℕ) (pending : List ℕ → ℕ → Option ℕ → Option (List (Row E)))
      (owned : Option (List ℕ)) (batch : ℕ) (after : Option ℕ)
      → IsPaged bound pending
      → All (λ r. (from after ≤ r.id) × (r.id < bound)) (read pending owned batch after)
  unfolding read IsPaged caught
  read-IsPaged bound pending none batch after h = tt
  read-IsPaged bound pending (some []) batch after h = tt
  read-IsPaged bound pending (some (x ∷ owned)) batch after h = h (x ∷ owned) batch after

  last-between :
      (lo bound : ℕ) (page : List (Row E))
      → All (λ r. (lo ≤ r.id) × (r.id < bound)) page
      → (length page == 0) ≡ false
      → (x : ℕ) × (last_id page ≡ some x) × (lo ≤ x) × (x < bound)
  unfolding last_id
  last-between lo bound [] h ne = cc
  last-between lo bound (r ∷ []) (h, hs) ne = (r.id, refl, h.0, h.1)
  last-between lo bound (r ∷ s ∷ rs) (h, hs) ne = last-between lo bound (s ∷ rs) hs (ground arith)

  pages_end :
      (bound : ℕ) (pending : List ℕ → ℕ → Option ℕ → Option (List (Row E)))
      (owned : Option (List ℕ)) (waited : Outbox → Outbox) (fuel : ℕ) (o : Outbox)
      (after : Option ℕ)
      → IsPaged bound pending
      → from after ≤ bound
      → bound < fuel + from after
      → (r : Outbox × Sent) × (pages pending owned waited fuel o after ≡ some r)
  unfolding pages first
  pages_end bound pending owned waited zero o after h le lt = absurd (omega arith)
  pages_end bound pending owned waited (suc fuel) o after h le lt =
      let page = read pending owned o.batch after in
      let all = read-IsPaged bound pending owned o.batch after h in
      elim (Bool-cases (length page == 0)) [
        | inl empty ↦ ((o, []), rw empty refl)
        | inr full ↦ elim (Bool-cases (length page == o.batch)) [
          | inl whole ↦
              let (x, last, lo, hi) = last-between (from after) bound page all full in
              let next = publish_rows o (recovered o page) in
              let (r, e) =
                pages_end bound pending owned waited fuel (waited next.0) (some x) h hi
                  (omega arith) in
              ((r.0, next.1 ++ r.1), rw (full, whole, last, e) refl)
          | inr short ↦ (
            (waited (publish_rows o (recovered o page)).0, (publish_rows o (recovered o page)).1),
            rw (full, short) refl,
          )
        ]
      ]

  -- Where the storage pages rows by their ids, and no id reaches a bound, a cycle ends within fuel
  -- for one page more than the bound, whatever becomes of the outbox while it waits, and the next
  -- cycle may start.
  pub pump_ends :
      (bound : ℕ) (pending : List ℕ → ℕ → Option ℕ → Option (List (Row E)))
      (owned : Option (List ℕ)) (waited : Outbox → Outbox) (stored : Group → Bool) (o : Outbox)
      → IsPaged bound pending
      → (r : Outbox × Sent) × (pump pending owned waited stored (bound + 1) o ≡ some r)
        × (r.0.pumping ≡ false)
  unfolding pump marked
  pump_ends bound pending owned waited stored o h =
      let (r, e) =
        pages_end bound pending owned waited (bound + 1) (assignment o owned).0 none h (omega arith)
          (omega arith) in
      ((record (mark stored r.0) { pumping = false }, r.1), ap (marked stored) e, refl)
