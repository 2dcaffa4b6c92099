-- ===== src/Outbox/Pump.antt =====
-- The cycle of the outbox: `#tick`, `#pump`, `#assignment`, `#read`, `#outstanding`, `#mark`,
-- `#settle` and `close` of runtime/core/source/outbox.ts.
--
-- The storage's `pending` is a parameter, `none` where it rejects; so is what becomes of the
-- outbox while the cycle waits for what it started. Logs and gauges are answered as values.
pub mod Ending
use toa.Prelude.{
  ℕ, zero, suc, ◌+◌, ◌%◌, min, Bool, true, false, Option, none, some, List, [], ◌∷◌, ◌++◌, filter,
  any, length, get_last?, leb, ◌==◌, if◌then◌else◌, map,
}
use toa.Prelude.Maps.{lookup, insert, remove}
use toa.Outbox.{Outbox, Row, Desk, Sent, due, publish_row}
use toa.Outbox.Groups.{Group, groups}

-- What `#assignment` says in the log.
pub data Said : Type 0 where
  quiet resumed starving : Said

assign : Outbox → Outbox × Said
assign o = (record o { unassigned = 0 }, if leb 10 o.unassigned then resumed else quiet)

starve : Outbox → Outbox × Said
starve o = (
  record o { unassigned = o.unassigned + 1 },
  if (o.unassigned + 1) % 10 == 0 then starving else quiet,
)

-- `slots(LANES)` answers `none` or no lane, or lanes.
pub assignment : Outbox → Option (List ℕ) → Outbox × Said
unfolding assign starve
assignment o none = starve o
assignment o (some []) = starve o
assignment o (some (x ∷ owned)) = assign o

oldest_of : Option ℕ → ℕ → ℕ
oldest_of none pending = pending
oldest_of (some old) pending = min old pending

-- `set.delete` of each id.
unfoldable pub remove_all : List ℕ → List ℕ → List ℕ
remove_all [] s = s
remove_all (id ∷ ids) s = remove_all ids (remove id s)

first : Sent → Option (Outbox × Sent) → Option (Outbox × Sent)
first sent none = none
first sent (some (o, more)) = some (o, sent ++ more)

module _ {ℓ} {E : Type ℓ} where
  -- `page[page.length - 1]?.id`
  last_id : List (Row E) → Option ℕ
  last_id page = get_last? (map (λ r. r.id) page)

  unfoldable pub caught : Option (List (Row E)) → List (Row E)
  caught none = []
  caught (some page) = page

  -- `pending` of the lanes, the page's size and the last id of the page before.
  unfoldable pub read :
      (List ℕ → ℕ → Option ℕ → Option (List (Row E)))
      → Option (List ℕ)
      → ℕ
      → Option ℕ
      → List (Row E)
  unfolding caught
  read pending none batch after = []
  read pending (some []) batch after = []
  read pending (some (x ∷ owned)) batch after = caught (pending (x ∷ owned) batch after)

  -- The rows of a page that some destination here is still to be sent.
  unfoldable pub recovered : Outbox → List (Row E) → List (Row E)
  recovered o = filter (λ r. any (λ d. due o r.id r.outstanding d) o.destinations)

  unfoldable pub publish_rows : Outbox → List (Row E) → Outbox × Sent
  publish_rows o [] = (o, [])
  publish_rows o (r ∷ rs) =
      let (o', sent) = publish_row o r in
      let (o'', more) = publish_rows o' rs in (o'', sent ++ more)

  -- `#outstanding`, for one destination: how many rows of the page it is due, and the oldest.
  pub outstanding : Outbox → ℕ → List (Row E) → ℕ × Option ℕ → ℕ × Option ℕ
  unfolding oldest_of
  outstanding o d [] acc = acc
  outstanding o d (r ∷ rs) (n, old) =
      outstanding o d rs
        (if due o r.id r.outstanding d then (n + 1, some (oldest_of old r.pending)) else (n, old))

  -- The pages of one cycle, on fuel: `none` where the fuel runs out.
  module _ (pending : List ℕ → ℕ → Option ℕ → Option (List (Row E))) (owned : Option (List ℕ))
      (waited : Outbox → Outbox) where
    -- What is awaited, and what lands in the meantime, is `waited`'s.
    unfoldable pub pages : ℕ → Outbox → Option ℕ → Option (Outbox × Sent)
    unfolding first last_id
    pages zero o after = none
    pages (suc fuel) o after =
        let page = read pending owned o.batch after in
        let (o', sent) = publish_rows o (recovered o page) in
        let rest = pages fuel (waited o') (last_id page) in
        if length page == 0
        then some (o, [])
        else if length page == o.batch
        then first sent rest
        else some (waited o', sent)

-- `#settle`: what a destination was sent is let go once the storage has taken it out of the rows.
unfoldable pub settle_from : List ℕ → ℕ → Outbox → Option Desk → Outbox
settle_from ids d o none = o
settle_from ids d o (some x) = record o {
  desks = insert d (record x { published = remove_all ids x.published }) o.desks;
}

unfoldable pub settle_desks : List ℕ → List ℕ → Outbox → Outbox
unfolding settle_from
settle_desks ids [] o = o
settle_desks ids (d ∷ ds) o = settle_desks ids ds (settle_from ids d o (lookup d o.desks))

-- `stored` is whether the storage's write of a group succeeded.
unfoldable pub settle : (Group → Bool) → Group → Outbox → Outbox
unfolding settle_desks
settle stored g o = if stored g then settle_desks g.1 g.0 o else o

unfoldable pub settle_all : (Group → Bool) → List Group → Outbox → Outbox
unfolding settle
settle_all stored [] o = o
settle_all stored (g ∷ gs) o = settle_all stored gs (settle stored g o)

-- `#mark`
unfoldable pub mark : (Group → Bool) → Outbox → Outbox
unfolding settle_all
mark stored o = settle_all stored (groups o) o

marked : (Group → Bool) → Option (Outbox × Sent) → Option (Outbox × Sent)
marked stored none = none
marked stored (some (o, sent)) = some (record (mark stored o) { pumping = false }, sent)

module _ {ℓ} {E : Type ℓ} where
  -- `#pump`, and the `finally` of `#tick`.
  pub pump :
      (List ℕ → ℕ → Option ℕ → Option (List (Row E)))
      → Option (List ℕ)
      → (Outbox → Outbox)
      → (Group → Bool)
      → ℕ
      → Outbox
      → Option (Outbox × Sent)
  unfolding marked
  pump pending owned waited stored fuel o =
      marked stored (pages pending owned waited fuel (assignment o owned).0 none)

  -- `#tick`: one cycle at a time.
  pub tick :
      (List ℕ → ℕ → Option ℕ → Option (List (Row E)))
      → Option (List ℕ)
      → (Outbox → Outbox)
      → (Group → Bool)
      → ℕ
      → Outbox
      → Option (Outbox × Sent)
  tick pending owned waited stored fuel o =
      if o.pumping
      then some (o, [])
      else pump pending owned waited stored fuel (record o { pumping = true })

-- `close`, where the outbox is durable: nothing is published any more, what is in flight is waited
-- for, and what was sent is marked.
pub close : (Outbox → Outbox) → (Group → Bool) → Outbox → Outbox
close waited stored o = mark stored (waited (record o { closing = true }))
