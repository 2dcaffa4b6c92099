-- ===== src/Outbox/Invariant.antt =====
-- How much a process holds for one destination.
use toa.Prelude.{
  map, ℕ, ◌+◌, ◌≤◌, ◌≡◌, Bool, true, false, Option, none, some, List, [], ◌∷◌, arith, length, leb,
  ◌||◌, ◌==◌, not, Bool-cases, inl, inr, if◌then◌else◌,
}
use toa.Prelude.Maps.{
  lookup, insert, contains, add, remove, lookup-insert, length-add-le, length-remove-le,
  length-remove-lt,
}
use toa.Outbox.{
  Outbox, Row, Desk, Options, Environment, new, empty_desk, inflight_cap, published_cap, send_from,
  send, due, publish_to, publish_row, publish, landed_desk, failed_desk, ended_from, landed, failed,
}
use toa.Outbox.Pump.{remove_all, settle_from, settle_desks, settle, recovered, publish_rows}
use toa.Outbox.Once.{Event, handed, page, landing, failing, settling, step}

-- At most `INFLIGHT` publications are in flight, and what was sent and is not marked is bounded by
-- `PUBLISHED` and what could have been in flight as that was reached.
pub record IsCapped (x : Desk) : Type 0 where
  pub flying : length x.inflight ≤ 1000
  pub landed : length x.published + length x.inflight ≤ 10999

abbrev AllCapped : Option Desk → Type 0
AllCapped none = Unit
AllCapped (some x) = IsCapped x

abbrev pub IsBounded : Outbox → Type 0
IsBounded o = (d : ℕ) → AllCapped (lookup d o.desks)

new_desks : (ds : List ℕ) (d : ℕ) → AllCapped (lookup d (map empty_desk ds))
unfolding empty_desk
new_desks [] d = tt
new_desks (e ∷ ds) d =
    elim (d == e)
      as (λ b. AllCapped (if b then some (empty_desk e).1 else lookup d (map empty_desk ds))) [
        | true ↦ record { flying = omega arith; landed = omega arith }
        | false ↦ new_desks ds d
      ]

pub new-IsBounded :
    (ds : List ℕ) (durable : Bool) (o : Options) (env : Environment)
    → IsBounded (new ds durable o env)
unfolding new
new-IsBounded ds durable o env d = new_desks ds d

insert-IsBounded :
    (o : Outbox) (d' : ℕ) (y : Desk)
    → IsBounded o
    → IsCapped y
    → IsBounded (record o { desks = insert d' y o.desks })
insert-IsBounded o d' y h c d = rw (lookup-insert d d' y o.desks) (go (d == d'))
  where
    go : (b : Bool) → AllCapped (if b then some y else lookup d o.desks)
    go true = c
    go false = h d

sent-IsCapped :
    (id : ℕ) (x : Desk)
    → IsCapped x
    → (leb inflight_cap (length x.inflight) || leb published_cap (length x.published)) ≡ false
    → IsCapped (record x { publishing = add id x.publishing; inflight = id ∷ x.inflight })
sent-IsCapped id x c room = ground arith

send_from-IsBounded :
    (o : Outbox) (id d : ℕ) (x : Option Desk)
    → IsBounded o
    → AllCapped x
    → IsBounded (send_from o id d x).0
unfolding send_from
send_from-IsBounded o id d none h c = h
send_from-IsBounded o id d (some x) h c =
    let full = leb inflight_cap (length x.inflight) || leb published_cap (length x.published) in
    elim (Bool-cases full) [
      | inl stop ↦ rw stop h
      | inr room ↦ rw room (insert-IsBounded o d _ h (sent-IsCapped id x c room))
    ]

ended_from-IsBounded :
    (f : Desk → Desk) (o : Outbox) (d id : ℕ) (x : Option Desk)
    → ((y : Desk) → IsCapped y → contains id y.inflight ≡ true → IsCapped (f y))
    → IsBounded o
    → AllCapped x
    → IsBounded (ended_from f o d id x)
unfolding ended_from
ended_from-IsBounded f o d id none k h c = h
ended_from-IsBounded f o d id (some x) k h c = elim (Bool-cases (contains id x.inflight)) [
  | inl flying ↦ rw flying (insert-IsBounded o d (f x) h (k x c flying))
  | inr gone ↦ rw gone h
]

landed_desk-IsCapped :
    (id : ℕ) (y : Desk) → IsCapped y → contains id y.inflight ≡ true → IsCapped (landed_desk id y)
unfolding landed_desk
landed_desk-IsCapped id y c h =
    ground (arith, length-add-le id y.published, length-remove-lt id y.inflight h)

failed_desk-IsCapped :
    (id : ℕ) (y : Desk) → IsCapped y → contains id y.inflight ≡ true → IsCapped (failed_desk id y)
unfolding failed_desk
failed_desk-IsCapped id y c h = ground (arith, length-remove-lt id y.inflight h)

send-IsBounded :
    (o : Outbox) (id d : ℕ) (can : Bool)
    → IsBounded o
    → IsBounded (if can then send o id d else (o, [])).0
unfolding send
send-IsBounded o id d true h = send_from-IsBounded o id d (lookup d o.desks) h (h d)
send-IsBounded o id d false h = h

publish_to-IsBounded :
    (o : Outbox) (id : ℕ) (outstanding ds : List ℕ)
    → IsBounded o
    → IsBounded (publish_to o id outstanding ds).0
unfolding publish_to
publish_to-IsBounded o id outstanding [] h = h
publish_to-IsBounded o id outstanding (d ∷ ds) h =
    let r = if due o id outstanding d then send o id d else (o, []) in
    publish_to-IsBounded r.0 id outstanding ds (send-IsBounded o id d (due o id outstanding d) h)

length-remove_all-le : (ids s : List ℕ) → length (remove_all ids s) ≤ length s
unfolding remove_all
length-remove_all-le [] s = omega arith
length-remove_all-le (id ∷ ids) s =
    omega (arith, length-remove_all-le ids (remove id s), length-remove-le id s)

settle_desks-IsBounded :
    (ids ds : List ℕ) (o : Outbox) → IsBounded o → IsBounded (settle_desks ids ds o)
unfolding settle_desks
settle_desks-IsBounded ids [] o h = h
settle_desks-IsBounded ids (d ∷ ds) o h =
    settle_desks-IsBounded ids ds (settle_from ids d o (lookup d o.desks))
      (settled (lookup d o.desks) (h d))
  where
    settled : (x : Option Desk) → AllCapped x → IsBounded (settle_from ids d o x)
    settled none c = unfold settle_from in h
    settled (some x) c =
        unfold settle_from in
        insert-IsBounded o d _ h (record {
          flying = c.flying;
          landed = omega (arith, length-remove_all-le ids x.published, c.landed);
        })

module _ {ℓ} {E : Type ℓ} where
  publish_rows-IsBounded :
      (o : Outbox) (rs : List (Row E)) → IsBounded o → IsBounded (publish_rows o rs).0
  unfolding publish_rows publish_row
  publish_rows-IsBounded o [] h = h
  publish_rows-IsBounded o (r ∷ rs) h =
      publish_rows-IsBounded (publish_to o r.id r.outstanding o.destinations).0 rs
        (publish_to-IsBounded o r.id r.outstanding o.destinations h)

  publish-IsBounded : (o : Outbox) (r : Row E) → IsBounded o → IsBounded (publish o r).0
  unfolding publish publish_row
  publish-IsBounded o r h = elim (Bool-cases (not o.durable)) [
    | inl bare ↦ rw bare h
    | inr durable ↦ rw durable (closing_cases (o.closing || o.defer))
  ]
    where
      closing_cases :
          (b : Bool)
          → IsBounded (if b then (o, []) else publish_to o r.id r.outstanding o.destinations).0
      closing_cases true = h
      closing_cases false = publish_to-IsBounded o r.id r.outstanding o.destinations h

  step-IsBounded : (o : Outbox) (e : Event E) → IsBounded o → IsBounded (step o e).0
  unfolding step
  step-IsBounded o (handed r) h = publish-IsBounded o r h
  step-IsBounded o (page rows) h = publish_rows-IsBounded o (recovered o rows) h
  step-IsBounded o (landing d id) h =
      unfold landed in
      ended_from-IsBounded (landed_desk id) o d id (lookup d o.desks) (landed_desk-IsCapped id) h
        (h d)
  step-IsBounded o (failing d id) h =
      unfold failed in
      ended_from-IsBounded (failed_desk id) o d id (lookup d o.desks) (failed_desk-IsCapped id) h
        (h d)
  step-IsBounded o (settling true g) h = unfold settle in settle_desks-IsBounded g.1 g.0 o h
  step-IsBounded o (settling false g) h = unfold settle in h

  -- The outbox after a run of events.
  pub after : Outbox → List (Event E) → Outbox
  after o [] = o
  after o (e ∷ es) = after (step o e).0 es

  after-IsBounded : (o : Outbox) (es : List (Event E)) → IsBounded o → IsBounded (after o es)
  unfolding after
  after-IsBounded o [] h = h
  after-IsBounded o (e ∷ es) h = after-IsBounded (step o e).0 es (step-IsBounded o e h)

  -- Whatever happens to an outbox of a storage that keeps its rows, from when it is built: for no
  -- destination are there ever more than 1000 publications in flight, nor more than 10999 rows in
  -- flight or sent and not yet marked.
  pub after-new-IsBounded :
      (ds : List ℕ) (o : Options) (env : Environment) (es : List (Event E))
      → IsBounded (after (new ds true o env) es)
  after-new-IsBounded ds o env es =
      after-IsBounded (new ds true o env) es (new-IsBounded ds true o env)
