-- ===== src/Outbox/Once.antt =====
-- How often a row is given to a destination over a run of events.
use toa.Prelude.{
  ℕ, ◌+◌, ◌≤◌, ◌≡◌, refl, ap, Bool, true, false, ◌&&◌, ◌||◌, Option, none, some, List, [], ◌∷◌,
  ◌++◌, arith, count_if, count_if-append, ◌==◌, ==_iff, ◌∙◌, if◌then◌else◌, Bool-cases, inl, inr,
}
use toa.Prelude.Maps.{
  lookup, insert, contains, add, remove, lookup-insert, contains-add, contains-remove,
}
use toa.Outbox.{
  Outbox, Row, Desk, Sent, free, due, send_from, send, publish_to, publish_row, publish,
  landed_desk, failed_desk, ended_from, landed, failed,
}
use toa.Outbox.Pump.{remove_all, settle_from, settle_desks, settle, recovered, publish_rows}
use toa.Outbox.Groups.{Group}

-- Whether a destination is being sent a row, or was sent it and is not yet marked.
held : Option Desk → ℕ → Bool
held none id = false
held (some x) id = contains id x.published || contains id x.publishing

pub holds : ℕ → ℕ → Outbox → Bool
unfolding held
holds d id o = held (lookup d o.desks) id

-- How many times a row was given to a destination.
pub times : ℕ → ℕ → Sent → ℕ
times d id = count_if (λ e. e.0 == d && e.1 == id)

abbrev bit : Bool → ℕ
bit b = if b then 1 else 0

-- What a call sends is what it comes to hold.
abbrev Sends : ℕ → ℕ → Outbox → Outbox × Sent → Type 0
Sends d id o r =
    (times d id r.1 + bit (holds d id o) ≤ bit (holds d id r.0)) × (r.0.durable ≡ o.durable)

holds-insert :
    (d id d' : ℕ) (y : Desk) (o : Outbox)
    → holds d id (record o { desks = insert d' y o.desks })
      ≡ (if d == d' then contains id y.published || contains id y.publishing else holds d id o)
unfolding holds held
holds-insert d id d' y o = rw (lookup-insert d d' y o.desks) (ground arith)

holds-lookup :
    (d id d' : ℕ) (x : Desk) (o : Outbox)
    → lookup d' o.desks ≡ some x
    → (d == d') ≡ true
    → holds d id o ≡ (contains id x.published || contains id x.publishing)
unfolding holds held
holds-lookup d id d' x o e same =
    let at = ap (λ k. held (lookup k o.desks) id) ((==_iff d d').0 same) in at ∙ rw e

send_from-Sends :
    (d id : ℕ) (o : Outbox) (id' d' : ℕ) (x : Option Desk)
    → lookup d' o.desks ≡ x
    → free x id' ≡ true
    → Sends d id o (send_from o id' d' x)
unfolding send_from times free
send_from-Sends d id o id' d' none e h = (omega arith, refl)
send_from-Sends d id o id' d' (some x) e h = ground (
  arith,
  holds-insert d id d' (record x { publishing = add id' x.publishing; inflight = id' ∷ x.inflight })
      o,
  holds-lookup d id d' x o e,
  contains-add id id' x.publishing,
)

send-Sends :
    (d id : ℕ) (o : Outbox) (id' d' : ℕ) (outstanding : List ℕ)
    → Sends d id o (if due o id' outstanding d' then send o id' d' else (o, []))
unfolding send due times
send-Sends d id o id' d' outstanding = elim (Bool-cases (free (lookup d' o.desks) id')) [
  | inl can ↦ ground (arith, send_from-Sends d id o id' d' (lookup d' o.desks) refl can)
  | inr cannot ↦ ground arith
]

times-append : (d id : ℕ) (xs ys : Sent) → times d id (xs ++ ys) ≡ times d id xs + times d id ys
unfolding times
times-append d id xs ys = count_if-append (λ e. e.0 == d && e.1 == id) xs ys

Sends-trans :
    (d id : ℕ) (o : Outbox) (r r' : Outbox × Sent)
    → Sends d id o r
    → Sends d id r.0 r'
    → Sends d id o (r'.0, r.1 ++ r'.1)
Sends-trans d id o r r' h h' = (omega (arith, times-append d id r.1 r'.1), h'.1 ∙ h.1)

Sends-nothing : (d id : ℕ) (o : Outbox) → Sends d id o (o, [])
unfolding times
Sends-nothing d id o = (omega arith, refl)

publish_to-Sends :
    (d id : ℕ) (o : Outbox) (id' : ℕ) (outstanding ds : List ℕ)
    → Sends d id o (publish_to o id' outstanding ds)
unfolding publish_to
publish_to-Sends d id o id' outstanding [] = Sends-nothing d id o
publish_to-Sends d id o id' outstanding (d' ∷ ds) =
    let r = if due o id' outstanding d' then send o id' d' else (o, []) in
    Sends-trans d id o r (publish_to r.0 id' outstanding ds) (send-Sends d id o id' d' outstanding)
      (publish_to-Sends d id r.0 id' outstanding ds)

module _ {ℓ} {E : Type ℓ} (d id : ℕ) where
  publish-Sends : (o : Outbox) (r : Row E) → o.durable ≡ true → Sends d id o (publish o r)
  unfolding publish publish_row
  publish-Sends o r dur =
      ground
        (arith, publish_to-Sends d id o r.id r.outstanding o.destinations, Sends-nothing d id o)

  publish_rows-Sends : (o : Outbox) (rs : List (Row E)) → Sends d id o (publish_rows o rs)
  unfolding publish_rows publish_row
  publish_rows-Sends o [] = Sends-nothing d id o
  publish_rows-Sends o (r ∷ rs) =
      let p = publish_to o r.id r.outstanding o.destinations in
      Sends-trans d id o p (publish_rows p.0 rs)
        (publish_to-Sends d id o r.id r.outstanding o.destinations) (publish_rows-Sends p.0 rs)

-- What a row may cease to be held by: at most `n` holds.
abbrev Loses : ℕ → ℕ → Outbox → ℕ → Outbox → Type 0
Loses d id o n o' = (bit (holds d id o) ≤ bit (holds d id o') + n) × (o'.durable ≡ o.durable)

Loses-nothing : (d id : ℕ) (o : Outbox) (n : ℕ) → Loses d id o n o
Loses-nothing d id o n = (omega arith, refl)

landed-Loses :
    (d id : ℕ) (o : Outbox) (d' id' : ℕ) (x : Option Desk)
    → lookup d' o.desks ≡ x
    → Loses d id o 0 (ended_from (landed_desk id') o d' id' x)
unfolding ended_from landed_desk
landed-Loses d id o d' id' none e = Loses-nothing d id o 0
landed-Loses d id o d' id' (some x) e = ground (
  arith,
  holds-insert d id d' (landed_desk id' x) o,
  holds-lookup d id d' x o e,
  contains-add id id' x.published,
  contains-remove id id' x.publishing,
)

failed-Loses :
    (d id : ℕ) (o : Outbox) (d' id' : ℕ) (x : Option Desk)
    → lookup d' o.desks ≡ x
    → Loses d id o (bit (d == d' && id == id')) (ended_from (failed_desk id') o d' id' x)
unfolding ended_from failed_desk
failed-Loses d id o d' id' none e = Loses-nothing d id o _
failed-Loses d id o d' id' (some x) e = ground (
  arith,
  holds-insert d id d' (failed_desk id' x) o,
  holds-lookup d id d' x o e,
  contains-remove id id' x.publishing,
)

pub contains-remove_all :
    (id : ℕ) (ids s : List ℕ)
    → contains id (remove_all ids s) ≡ (if contains id ids then false else contains id s)
unfolding remove_all
contains-remove_all id [] s = refl
contains-remove_all id (i ∷ ids) s =
    ground (arith, contains-remove_all id ids (remove i s), contains-remove id i s)

settle_from-Loses :
    (d id : ℕ) (ids : List ℕ) (o : Outbox) (d' : ℕ) (x : Option Desk)
    → lookup d' o.desks ≡ x
    → Loses d id o (bit (d == d' && contains id ids)) (settle_from ids d' o x)
unfolding settle_from
settle_from-Loses d id ids o d' none e = Loses-nothing d id o _
settle_from-Loses d id ids o d' (some x) e = ground (
  arith,
  holds-insert d id d' (record x { published = remove_all ids x.published }) o,
  holds-lookup d id d' x o e,
  contains-remove_all id ids x.published,
)

settle_desks-Loses :
    (d id : ℕ) (ids ds : List ℕ) (o : Outbox)
    → Loses d id o (bit (contains d ds && contains id ids)) (settle_desks ids ds o)
unfolding settle_desks
settle_desks-Loses d id ids [] o = Loses-nothing d id o 0
settle_desks-Loses d id ids (d' ∷ ds) o =
    let first = settle_from-Loses d id ids o d' (lookup d' o.desks) refl in
    let rest = settle_desks-Loses d id ids ds (settle_from ids d' o (lookup d' o.desks)) in
    (ground arith, rest.1 ∙ first.1)

-- What happens to an outbox, in any order: rows are handed over by operations and read by cycles,
-- publications land and fail, and groups are marked, or not where the storage's write fails.
pub data Event {ℓ} (E : Type ℓ) : Type ℓ where
  handed : Row E → Event E
  page : List (Row E) → Event E
  landing failing : ℕ → ℕ → Event E
  settling : Bool → Group → Event E

module _ {ℓ} {E : Type ℓ} where
  unfoldable pub step : Outbox → Event E → Outbox × Sent
  step o (handed r) = publish o r
  step o (page rows) = publish_rows o (recovered o rows)
  step o (landing d id) = (landed o d id, [])
  step o (failing d id) = (failed o d id, [])
  step o (settling stored g) = (settle (λ _. stored) g o, [])

  -- Everything that is sent in a run of events.
  pub sends : Outbox → List (Event E) → Sent
  sends o [] = []
  sends o (e ∷ es) = (step o e).1 ++ sends (step o e).0 es

  -- Whether an event is a failure to send this row to this destination, or its marking.
  pub releases : ℕ → ℕ → Event E → Bool
  releases d id (failing d' id') = d == d' && id == id'
  releases d id (settling stored g) = stored && contains d g.0 && contains id g.1
  releases d id _ = false

module _ {ℓ} {E : Type ℓ} (d id : ℕ) where
  step_bound :
      (o : Outbox) (e : Event E)
      → o.durable ≡ true
      → (times d id (step o e).1 + bit (holds d id o)
          ≤ bit (holds d id (step o e).0) + bit (releases d id e))
        × ((step o e).0.durable ≡ o.durable)
  unfolding step releases times
  step_bound o (handed r) dur = ground (arith, publish-Sends d id o r dur)
  step_bound o (page rows) dur = ground (arith, publish_rows-Sends d id o (recovered o rows))
  step_bound o (landing d' id') dur =
      unfold landed in
      let h = landed-Loses d id o d' id' (lookup d' o.desks) refl in (omega arith, h.1)
  step_bound o (failing d' id') dur =
      unfold failed in
      let h = failed-Loses d id o d' id' (lookup d' o.desks) refl in (omega arith, h.1)
  step_bound o (settling true g) dur =
      unfold settle in let h = settle_desks-Loses d id g.1 g.0 o in (omega arith, h.1)
  step_bound o (settling false g) dur = unfold settle in (omega arith, refl)

  sends_bound :
      (o : Outbox) (es : List (Event E))
      → o.durable ≡ true
      → times d id (sends o es) + bit (holds d id o) ≤ 1 + count_if (releases d id) es
  unfolding sends times
  sends_bound o [] dur = ground arith
  sends_bound o (e ∷ es) dur =
      let (now, same) = step_bound o e dur in
      let rest = sends_bound (step o e).0 es (same ∙ dur) in
      omega (arith, times-append d id (step o e).1 (sends (step o e).0 es))

  -- However operations, cycles, publications and markings are interleaved, a durable outbox gives a
  -- row to a destination at most once more often than sending it there failed or was marked: while
  -- a row is being sent, and from when it was sent until it is marked, it is not sent again.
  pub times-sends-le :
      (o : Outbox) (es : List (Event E))
      → o.durable ≡ true
      → times d id (sends o es) ≤ 1 + count_if (releases d id) es
  times-sends-le o es dur = omega (arith, sends_bound o es dur)
