-- ===== src/State.antt =====
-- What an operation acquires and commits, and in what order the storage and the outbox are told:
-- runtime/core/source/state.ts.
--
-- The storage is not the runtime's: it is a record of functions on a state of its own, in which
-- what other processes write between two calls is contained. `World` is that state and the rows
-- that were handed to the outbox, in order. The clock, the ids that `newid` answers and what the
-- outbox puts on a row come with each call, in a `Moment`.
pub mod Commits
pub mod Tests
use Prim.Native.String.{String}
use toa.Prelude.{
  ℕ, ◌+◌, Bool, true, false, not, ◌&&◌, Option, none, some, List, [], ◌∷◌, ◌++◌, map, filter, any,
  ◌||◌, length, ltb, ◌==◌, if◌then◌else◌,
}
use toa.Entity.{
  Record, Schemas, Entity, Event, Changeset, Refusal, acquire, init, set, event, objects,
}
use toa.Entity
use toa.Outbox.{Outbox, Row, row}
use toa.Restrict.{Reply}

pub record Query : Type 0 where
  pub id : Option ℕ
  pub ids : Option (List ℕ)
  pub version : Option ℕ
  pub criteria : Option String
  -- `options.deleted`
  pub deleted : Bool
  pub projection : Option (List ℕ)

-- runtime/core/source/types/inbox.ts
pub record Call : Type 0 where
  pub id : ℕ
  pub reply : Reply
  pub retention : Option ℕ

-- The exceptions that a call may end in, by their codes.
pub data Exception : Type 0 where
  system request_contract response_contract entity_contract : Exception
  entity_guard : ℕ → Exception
  state_not_found state_precondition state_concurrency duplicate_call : Exception
  -- what a failed emission is rejected with
  emission : Exception

pub data Result {ℓ} (A : Type ℓ) : Type ℓ where
  ok : A → Result A
  raise : Exception → Result A

-- How a write ends: it was made, or lost to another one, or its call was recorded before.
pub data Written {ℓ} (A : Type ℓ) : Type ℓ where
  done : A → Written A
  duplicate : Written A

pub record Storage (S V P : Type 0) : Type 0 where
  pub get : S → Query → Option (Record V) × S
  pub find : S → Query → List (Record V) × S
  pub store : S → Record V → Option (Row (Event V)) → Option Call → Written Bool × S
  pub mass_store : S → List (Record V) → Option (List (Row (Event V))) → Bool × S
  pub upsert :
      S
      → Query
      → Changeset P
      → Option (Row (Event V))
      → Option Call
      → Written (Option (Record V)) × S
  pub ensure :
      S
      → Option Query
      → P
      → Record V
      → Option (Row (Event V))
      → Option Call
      → Written (Record V) × S
  -- `inbox?.recall`
  pub recall : S → ℕ → Option Reply × S

-- What a state is built with.
pub record Setup (S V P : Type 0) : Type 0 where
  pub storage : Storage S V P
  pub schemas : Schemas V
  pub outbox : Option Outbox
  pub associated : Bool
  -- `Object.assign` of what a request supplies to a blank
  pub assign : V → P → V

pub record Moment : Type 0 where
  pub now : ℕ
  pub fresh : ℕ
  pub pick : ℕ → ℕ
  pub owned : Option (List ℕ)
  pub hops : Option (List String)
  -- whether an emission fails of what is published inline
  pub fails : Bool

pub record World (S V : Type 0) : Type 0 where
  pub store : S
  pub handed : List (Row (Event V))

abbrev pub M : Type 0 → Type 0 → Type 0 → Type 0
M S V A = World S V → Result A × World S V

-- A call of the storage.
unfoldable pub ask {ℓ} : {S V : Type 0} → {A : Type ℓ} → (S → A × S) → World S V → A × World S V
ask f w = let (a, s) = f w.store in (a, record w { store = s })

-- `this.#outbox?.row(event)`
unfoldable pub row_of : {S V P : Type 0} → Setup S V P → Moment → Event V → Option (Row (Event V))
row_of c t e = elim c.outbox [
  | none ↦ none
  | some o ↦ some (row o t.fresh t.pick t.owned t.now t.hops e)
]

-- What is given to the outbox's `publish`; an emission that fails was given all the same.
unfoldable pub hand : {S V : Type 0} → Option (Row (Event V)) → World S V → World S V
hand none w = w
hand (some r) w = record w { handed = w.handed ++ r ∷ [] }

unfoldable pub inline_fails : Moment → Option Outbox → Bool
inline_fails t none = false
inline_fails t (some o) = not o.durable && t.fails

-- Whether `#publish` is rejected: only what is published inline is awaited.
unfoldable pub is_rejected : {S V P : Type 0} → Setup S V P → Moment → Option (Row (Event V)) → Bool
unfolding inline_fails
is_rejected c t none = false
is_rejected c t (some r) = inline_fails t c.outbox

-- What follows `await this.#publish(row)`.
unfoldable pub published {ℓ} : {A : Type ℓ} → Bool → A → Result A
published true a = raise emission
published false a = ok a

unfoldable pub is_blank : Bool → Query → Option ℕ
is_blank false q = none
is_blank true q = elim q.criteria [
  | some c ↦ none
  | none ↦ elim q.version [ some v ↦ none | none ↦ q.id ]
]

unfoldable pub missed :
    {S V P : Type 0}
    → Setup S V P
    → Moment
    → Query
    → Option ℕ
    → Option ℕ
    → Result (Option (Entity V))
missed c t q (some id) version = ok (some (init c.schemas t.now id))
missed c t q none (some v) = raise state_precondition
missed c t q none none = ok none

unfoldable pub entry_of :
    {S V P : Type 0}
    → Setup S V P
    → Moment
    → Query
    → Bool
    → Option (Record V)
    → Result (Option (Entity V))
unfolding is_blank missed
entry_of c t q mutable (some r) = ok (some (acquire c.schemas t.now r mutable))
entry_of c t q mutable none = missed c t q (is_blank c.associated q) q.version

-- scope `entry`
unfoldable pub entry :
    {S V P : Type 0} → Setup S V P → Moment → Query → Bool → M S V (Option (Entity V))
unfolding entry_of ask
entry c t q mutable w =
    let (r, w') = ask (λ s. c.storage.get s q) w in (entry_of c t q mutable r, w')

-- the ids of a query that no record of the set has
missing : {V : Type 0} → Bool → Option (List ℕ) → List (Record V) → List ℕ
missing false ids rs = []
missing true none rs = []
missing true (some ids) rs =
    if ltb (length rs) (length ids) then filter (λ id. not (any (λ r. r.id == id) rs)) ids else []

-- scope `entries`
pub entries :
    {S V P : Type 0} → Setup S V P → Moment → Query → Bool → World S V → List (Entity V) × World S V
unfolding missing ask
entries c t q mutable w =
    let (rs, w') = ask (λ s. c.storage.find s q) w in
    (objects c.schemas t.now rs (missing c.associated q.ids rs) mutable, w')

-- `recall`
unfoldable pub recall : {S V P : Type 0} → Setup S V P → ℕ → World S V → Option Reply × World S V
unfolding ask
recall c id w = ask (λ s. c.storage.recall s id) w

unfoldable pub stored :
    {S V P : Type 0}
    → Setup S V P
    → Moment
    → Option (Row (Event V))
    → Written Bool
    → World S V
    → Result Bool × World S V
unfolding hand is_rejected published
stored c t r (done true) w = (published (is_rejected c t r) true, hand r w)
stored c t r (done false) w = (ok false, w)
stored c t r duplicate w = (raise duplicate_call, w)

-- `commit`, of one entity
unfoldable pub commit :
    {S V P : Type 0} → Setup S V P → Moment → Entity V → Option ℕ → Option Call → M S V Bool
unfolding row_of ask stored
commit c t e input call w =
    let r = row_of c t (event e input) in
    let (result, w') = ask (λ s. c.storage.store s e.state r call) w in stored c t r result w'

hand_all : {S V : Type 0} → List (Row (Event V)) → World S V → World S V
unfolding hand
hand_all [] w = w
hand_all (r ∷ rs) w = hand_all rs (hand (some r) w)

rows_of : {V : Type 0} → Outbox → List Moment → List (Entity V) → Option ℕ → List (Row (Event V))
rows_of o ts [] input = []
rows_of o [] (e ∷ es) input = []
rows_of o (t ∷ ts) (e ∷ es) input =
    row o t.fresh t.pick t.owned t.now t.hops (event e input) ∷ rows_of o ts es input

pub rows :
    {S V P : Type 0}
    → Setup S V P
    → List Moment
    → List (Entity V)
    → Option ℕ
    → Option (List (Row (Event V)))
unfolding rows_of
rows c ts es input = elim c.outbox [ none ↦ none | some o ↦ some (rows_of o ts es input) ]

-- Whether one of the publications of a set is rejected.
any_rejected : {V : Type 0} → Option Outbox → List Moment → List (Row (Event V)) → Bool
unfolding inline_fails
any_rejected o ts [] = false
any_rejected o [] (r ∷ rs) = false
any_rejected o (t ∷ ts) (r ∷ rs) = inline_fails t o || any_rejected o ts rs

mass_stored :
    {S V : Type 0}
    → Option Outbox
    → List Moment
    → Option (List (Row (Event V)))
    → Bool
    → World S V
    → Result Bool × World S V
unfolding hand_all published any_rejected
mass_stored o ts rs false w = (ok false, w)
mass_stored o ts none true w = (ok true, w)
mass_stored o ts (some rs) true w = (published (any_rejected o ts rs) true, hand_all rs w)

-- `massCommit`; a row is built for each entity, at a moment of its own
pub mass_commit :
    {S V P : Type 0}
    → Setup S V P
    → List Moment
    → List (Entity V)
    → Option ℕ
    → World S V
    → Result Bool × World S V
unfolding rows mass_stored ask
mass_commit c ts [] input w = (ok true, w)
mass_commit c ts (e ∷ es) input w =
    let rs = rows c ts (e ∷ es) input in
    let (good, w') = ask (λ s. c.storage.mass_store s (map (λ x. x.state) (e ∷ es)) rs) w in
    mass_stored c.outbox ts rs good w'

-- `row.event.state ??= result` and `row.event.origin ??= null`
pub imaged : {V : Type 0} → Record V → Event V → Event V
imaged result e = elim e.state [ none ↦ record e { state = some result } | some s ↦ e ]

applied :
    {S V P : Type 0}
    → Setup S V P
    → Moment
    → Query
    → Option (Row (Event V))
    → Written (Option (Record V))
    → World S V
    → Result (Record V) × World S V
unfolding hand imaged is_rejected published
applied c t q r duplicate w = (raise duplicate_call, w)
applied c t q r (done none) w =
    (elim q.version [ none ↦ raise state_not_found | some v ↦ raise state_precondition ], w)
applied c t q none (done (some result)) w = (ok result, w)
applied c t q (some r) (done (some result)) w = (
  published (is_rejected c t (some r)) result,
  hand (some (record r { event = imaged result r.event })) w,
)

-- `apply`, an assignment's commit
pub apply :
    {S V P : Type 0}
    → Setup S V P
    → Moment
    → Query
    → Changeset P
    → Option ℕ
    → Option Call
    → M S V (Record V)
unfolding row_of applied ask
apply c t q change input call w =
    let r = row_of c t (record { origin = none; state = none; trailers = none; input = input }) in
    let (result, w') = ask (λ s. c.storage.upsert s q change r call) w in applied c t q r result w'

pub refusal : Refusal → Exception
refusal Refusal.readonly = system
refusal (Refusal.guarded name) = entity_guard name
refusal Refusal.contract = entity_contract

ensured :
    {S V P : Type 0}
    → Setup S V P
    → Moment
    → Entity V
    → Option (Row (Event V))
    → Written (Record V)
    → World S V
    → Result (Entity V) × World S V
unfolding hand is_rejected published
ensured c t e r duplicate w = (raise duplicate_call, w)
ensured c t e r (done found) w =
    if found.id == e.state.id
    then (published (is_rejected c t r) e, hand r w)
    else (ok (acquire c.schemas t.now found false), w)

ensure_set :
    {S V P : Type 0}
    → Setup S V P
    → Moment
    → Option Query
    → P
    → Option ℕ
    → Option Call
    → Entity.Result (Entity V)
    → M S V (Entity V)
unfolding row_of ask refusal ensured
ensure_set c t q ps input call (Entity.Result.err x) w = (raise (refusal x), w)
ensure_set c t q ps input call (Entity.Result.ok e) w =
    let r = row_of c t (event e input) in
    let (result, w') = ask (λ s. c.storage.ensure s q ps e.state r call) w in
    ensured c t e r result w'

-- `ensure`: get-or-create
pub ensure :
    {S V P : Type 0}
    → Setup S V P
    → Moment
    → Option Query
    → P
    → Option ℕ
    → Option Call
    → M S V (Entity V)
unfolding ensure_set
ensure c t q ps input call w =
    let e = init c.schemas t.now t.fresh in
    let blank = e.state in
    ensure_set c t q ps input call
      (set c.schemas t.now e (record blank { own = c.assign blank.own ps })) w
