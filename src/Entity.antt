-- ===== src/Entity.antt =====
-- What an operation acquires and commits: runtime/core/source/entities (entity.ts, set.ts,
-- changeset.ts and factory.ts), with the record of runtime/core/source/types/storages.ts.
--
-- The properties that a component declares of its own are one value, of type `V`. A property that
-- may be absent is an option; `DELETED` is read by `??` and `==` alone, so that `null` and an
-- absent one are both `none`. The component's schema and its guards are parameters, and so are the
-- clock and the region.
pub mod Lifecycle
mod Tests
use toa.Prelude.{
  ℕ, suc, ◌+◌, Bool, true, false, not, ◌&&◌, ◌||◌, Option, none, some, List, [], ◌∷◌, map, length,
  ◌==◌, if◌then◌else◌,
}

pub record Record (V : Type 0) : Type 0 where
  pub id : ℕ
  pub version : Option ℕ
  pub created : Option ℕ
  pub updated : Option ℕ
  pub deleted : Option ℕ
  pub region : Option ℕ
  -- `TRAILERS` and `DISCARD`, absent on a record that was not written yet
  pub trailers : Option (List ℕ)
  pub discard : Option Bool
  pub own : V

-- The images of one state change.
pub record Event (V : Type 0) : Type 0 where
  pub origin : Option (Record V)
  pub state : Option (Record V)
  pub trailers : Option (List ℕ)
  pub input : Option ℕ

-- A guard, by its name, fits a value against what it was read as.
pub record Guard (V : Type 0) : Type 0 where
  pub name : ℕ
  pub fit : Record V → Option (Record V) → Bool

-- What `Factory` holds, and the environment that a record is written in.
pub record Schemas (V : Type 0) : Type 0 where
  pub fits : Record V → Bool
  pub guards : List (Guard V)
  pub blank : V
  pub region : ℕ

pub record Entity (V : Type 0) : Type 0 where
  pub deleted : Bool
  pub origin : Option (Record V)
  pub state : Record V
  pub mutable : Bool

-- What `set` raises.
pub data Refusal : Type 0 where
  readonly : Refusal
  guarded : ℕ → Refusal
  contract : Refusal

pub data Result (A : Type 0) : Type 0 where
  ok : A → Result A
  err : Refusal → Result A

unfoldable pub or_value {ℓ} : {A : Type ℓ} → Option A → A → Option A
or_value none a = some a
or_value (some a) b = some a

unfoldable pub is_some {ℓ} : {A : Type ℓ} → Option A → Bool
is_some none = false
is_some (some a) = true

unfoldable pub or_zero : Option ℕ → ℕ
or_zero none = 0
or_zero (some n) = n

unfoldable pub same_time : Option ℕ → Option ℕ → Bool
same_time none none = true
same_time none (some b) = false
same_time (some a) none = false
same_time (some a) (some b) = a == b

module _ {V : Type 0} where
  -- The part of `#write` that fills in what a record lacks.
  unfoldable pub filled : ℕ → ℕ → Record V → Record V
  unfolding or_value
  filled region now r =
      let created = or_value r.created now in
      record r {
        trailers = or_value r.trailers [];
        discard = or_value r.discard false;
        created = created;
        updated = elim r.updated [ none ↦ created | some u ↦ some u ];
        version = or_value r.version 0;
        region = or_value r.region region;
      }

  -- The part of `#write` that says what a write did, where there was a state already.
  unfoldable pub stamped : ℕ → ℕ → Record V → Record V
  unfolding or_zero
  stamped region now r = record r {
    updated = some now;
    version = some (or_zero r.version + 1);
    region = some region;
  }

  -- `#write`, of the first state and of each one after it.
  unfoldable pub first_written : Schemas V → ℕ → Record V → Record V
  unfolding filled
  first_written s now r = filled s.region now r

  unfoldable pub written : Schemas V → ℕ → Record V → Record V
  unfolding filled stamped
  written s now r = stamped s.region now (filled s.region now r)

  -- `#acquire`
  unfoldable pub acquire : Schemas V → ℕ → Record V → Bool → Entity V
  unfolding first_written is_some
  acquire s now r mutable = record {
    deleted = is_some r.deleted;
    origin = if mutable then some r else none;
    state = first_written s now r;
    mutable = mutable;
  }

  -- `#compose`
  compose : Schemas V → ℕ → Record V
  compose s id = record {
    id = id;
    version = some 0;
    created = none;
    updated = none;
    deleted = none;
    region = some s.region;
    trailers = none;
    discard = none;
    own = s.blank;
  }

  -- `Factory.init`; the id is the one given, or what `newid` answers.
  pub init : Schemas V → ℕ → ℕ → Entity V
  unfolding compose first_written
  init s now id = record {
    deleted = false;
    origin = none;
    state = first_written s now (compose s id);
    mutable = true;
  }

  -- `#guard`: the name of the first guard that does not hold.
  unfoldable pub refused_by : List (Guard V) → Record V → Option (Record V) → Option ℕ
  refused_by [] value origin = none
  refused_by (g ∷ gs) value origin =
      let rest = refused_by gs value origin in if g.fit value origin then rest else some g.name

  -- Whether `#revive` revives: the origin is a tombstone, and the value leaves its time alone.
  unfoldable pub revives : Option (Record V) → Record V → Bool
  unfolding is_some same_time
  revives none value = false
  revives (some o) value = is_some o.deleted && same_time value.deleted o.deleted

  unfoldable pub revived : Option (Record V) → Record V → Record V
  unfolding revives
  revived origin value = if revives origin value then record value { deleted = none } else value

  -- `#write` of what `set` was given, once it is allowed.
  unfoldable pub replace : Schemas V → ℕ → Entity V → Record V → Entity V
  unfolding revived written revives is_some
  replace s now e value = record e {
    deleted =
        if is_some (revived e.origin value).deleted
        then true
        else if revives e.origin value
        then false
        else e.deleted;
    state = written s now (revived e.origin value);
  }

  unfoldable pub checked : Schemas V → ℕ → Entity V → Record V → Option ℕ → Result (Entity V)
  unfolding replace
  checked s now e value (some name) = err (guarded name)
  checked s now e value none = if s.fits value then ok (replace s now e value) else err contract

  unfoldable pub set : Schemas V → ℕ → Entity V → Record V → Result (Entity V)
  unfolding refused_by checked
  set s now e value =
      if not e.mutable
      then err readonly
      else checked s now e value (refused_by s.guards value e.origin)

  unfoldable pub event : Entity V → Option ℕ → Event V
  event e input = record {
    origin = e.origin;
    state = some e.state;
    trailers = e.state.trailers;
    input = input;
  }

-- `EntitySet`
pub data SetRefusal : Type 0 where
  modified : SetRefusal
  member : Refusal → SetRefusal

pub data SetResult (A : Type 0) : Type 0 where
  ok : A → SetResult A
  err : SetRefusal → SetResult A

unfoldable pub is_discarded : Option Bool → Bool
is_discarded none = false
is_discarded (some b) = b

module _ {V : Type 0} where
  cons_set : Entity V → SetResult (List (Entity V)) → SetResult (List (Entity V))
  cons_set e (ok es) = ok (e ∷ es)
  cons_set e (err x) = err x

  keep : Result (Entity V) → SetResult (List (Entity V)) → SetResult (List (Entity V))
  unfolding cons_set
  keep (ok e) rest = cons_set e rest
  keep (err x) rest = err (member x)

  -- The `filter` of `EntitySet.set`, of as many values as entities.
  set_each : Schemas V → ℕ → List (Entity V) → List (Record V) → SetResult (List (Entity V))
  unfolding is_discarded keep
  set_each s now [] values = ok []
  set_each s now (e ∷ es) [] = ok []
  set_each s now (e ∷ es) (v ∷ values) =
      let rest = set_each s now es values in
      if is_discarded v.discard then rest else keep (set s now e v) rest

  pub set_all : Schemas V → ℕ → List (Entity V) → List (Record V) → SetResult (List (Entity V))
  unfolding set_each
  set_all s now es values =
      if length values == length es then set_each s now es values else err modified

  prepend : Schemas V → ℕ → List ℕ → List (Entity V) → List (Entity V)
  prepend s now [] es = es
  prepend s now (id ∷ ids) es = prepend s now ids (init s now id ∷ es)

  -- `Factory.objects`: what is missing is put in front, one after another.
  pub objects : Schemas V → ℕ → List (Record V) → List ℕ → Bool → List (Entity V)
  unfolding prepend
  objects s now records missing mutable =
      prepend s now missing (map (λ r. acquire s now r mutable) records)

-- `Changeset`: what an assignment changes, of a record's properties none of which is required.
pub record Changeset (P : Type 0) : Type 0 where
  pub version : Option ℕ
  pub updated : Option ℕ
  pub own : P

pub change : {P : Type 0} → (Changeset P → Bool) → ℕ → Changeset P → Result (Changeset P)
change fits now value =
    if fits value then ok (record value { version = none; updated = some now }) else err contract
