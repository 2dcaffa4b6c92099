-- ===== src/State/Commits.antt =====
-- What is handed to the outbox by each kind of commit.
use toa.Prelude.{
  ◌⊎◌, ◌↔◌, inl, inr, if◌then◌else◌, ◌==◌, ℕ, ◌≡◌, refl, sym, ◌∙◌, Bool, true, false, Option, none,
  some, List, [], ◌∷◌, ◌++◌, map,
}
use mathlib.Core.List.{append-nil, append_assoc}
use toa.Entity
use toa.Entity.{acquire, set, init, Record, Entity, Event, Changeset, event}
use toa.Outbox.{Outbox, Row}
use toa.State.{
  ensured, ensure_set, ensure, Query, Call, state_precondition, state_not_found, Result, ok, raise,
  Written, done, duplicate, Setup, Moment, World, hand, stored, inline_fails, is_rejected,
  published, commit, row_of, hand_all, mass_stored, mass_commit, rows, applied, apply, imaged, ask,
}

-- The rows that a write puts before the outbox.
unfoldable pub told : {A : Type 0} → Result Bool → Option A → List A
told (ok true) (some r) = r ∷ []
told (ok true) none = []
told (ok false) r = []
told (raise x) r = []

-- The outbox, if there is one, keeps its rows.
abbrev pub IsDurable : Option Outbox → Type 0
IsDurable none = Unit
IsDurable (some o) = o.durable ≡ true

is_rejected-IsDurable :
    {S V P : Type 0}
    → (c : Setup S V P) (t : Moment) (r : Option (Row (Event V))) → IsDurable c.outbox
    → is_rejected c t r ≡ false
unfolding is_rejected inline_fails
is_rejected-IsDurable c t none h = refl
is_rejected-IsDurable c t (some r) h =
    elim c.outbox as (λ o. IsDurable o → inline_fails t o ≡ false) [
      | none ↦ λ _. refl
      | some o ↦ λ kept. simp kept refl
    ]
      h

stored_hands :
    {S V P : Type 0}
    → (c : Setup S V P) (t : Moment) (r : Option (Row (Event V))) (x : Written Bool) (w : World S V)
    → is_rejected c t r ≡ false
    → (stored c t r x w).1.handed ≡ w.handed ++ told (stored c t r x w).0 r
unfolding stored hand told published
stored_hands c t none (done true) w h = sym (append-nil _)
stored_hands c t (some r) (done true) w h = simp h refl
stored_hands c t r (done false) w h = sym (append-nil _)
stored_hands c t r duplicate w h = sym (append-nil _)

-- A commit hands its row to the outbox exactly when it answers that it was written, where the outbox
-- keeps its rows.
pub commit-told :
    {S V P : Type 0}
    → (c : Setup S V P) (t : Moment) (e : Entity V) (input : Option ℕ) (call : Option Call)
      (w : World S V)
    → IsDurable c.outbox
    → (commit c t e input call w).1.handed
      ≡ w.handed ++ told (commit c t e input call w).0 (row_of c t (event e input))
unfolding commit ask
commit-told c t e input call w h =
    let r = row_of c t (event e input) in
    stored_hands c t r (c.storage.store w.store e.state r call).0
      (ask (λ s. c.storage.store s e.state r call) w).1 (is_rejected-IsDurable c t r h)

-- Whether a write was made.
unfoldable pub is_made : Written Bool → Bool
is_made (done b) = b
is_made duplicate = false

-- The row of an outbox, if there is one.
unfoldable pub rows_in : {A : Type 0} → Option A → List A
rows_in none = []
rows_in (some r) = r ∷ []

published_iff : (b : Bool) → (published b true ≡ ok true) ↔ ((true ≡ true) × (b ≡ false))
unfolding published
published_iff true = (λ h. cc, λ h. cc)
published_iff false = (λ h. (refl, refl), λ h. refl)

published_true : (b : Bool) → (published b true ≡ ok false) ↔ (done true ≡ done false)
unfolding published
published_true true = (λ h. cc, λ h. cc)
published_true false = (λ h. cc, λ h. cc)

-- What a commit leaves and answers, by what the storage answered.
abbrev pub IsCommitted :
    {S V : Type 0}
    → World S V
    → Option (Row (Event V))
    → Bool
    → Written Bool × S
    → Result Bool × World S V
    → Type 0
IsCommitted w r rejected (x, s) (a, w') =
    (w'.handed ≡ w.handed ++ (if is_made x then rows_in r else []))
    × (w'.store ≡ s)
    × ((a ≡ ok true) ↔ ((is_made x ≡ true) × (rejected ≡ false)))
    × ((a ≡ ok false) ↔ (x ≡ done false))

stored-IsCommitted :
    {S V P : Type 0}
    → (c : Setup S V P) (t : Moment) (r : Option (Row (Event V))) (x : Written Bool) (s : S)
      (w : World S V)
    → IsCommitted w r (is_rejected c t r) (x, s) (stored c t r x (record w { store = s }))
unfolding stored hand is_made rows_in
stored-IsCommitted c t none (done true) s w = (
  sym (append-nil _),
  refl,
  published_iff (is_rejected c t none),
  published_true (is_rejected c t none),
)
stored-IsCommitted c t (some r) (done true) s w = (
  refl,
  refl,
  published_iff (is_rejected c t (some r)),
  published_true (is_rejected c t (some r)),
)
stored-IsCommitted c t r (done false) s w =
    (sym (append-nil _), refl, (λ h. cc, λ h. cc), (λ h. refl, λ h. refl))
stored-IsCommitted c t r duplicate s w =
    (sym (append-nil _), refl, (λ h. cc, λ h. cc), (λ h. cc, λ h. cc))

-- A commit hands its row to the outbox exactly when the storage answers that it has made the
-- write, and does nothing else. It answers that it was made exactly when it was and no emission
-- of an inline publication failed, and that it was lost exactly when the storage answers that.
pub commit_hands :
    {S V P : Type 0}
    → (c : Setup S V P) (t : Moment) (e : Entity V) (input : Option ℕ) (call : Option Call)
      (w : World S V)
    → let r = row_of c t (event e input) in
      IsCommitted w r
        (is_rejected c t r)
        (c.storage.store w.store e.state r call)
        (commit c t e input call w)
unfolding commit ask
commit_hands c t e input call w =
    let r = row_of c t (event e input) in
    let x = c.storage.store w.store e.state r call in stored-IsCommitted c t r x.0 x.1 w

hand_all_lem :
    {S V : Type 0}
    → (rs : List (Row (Event V))) (w : World S V) → (hand_all rs w).handed ≡ w.handed ++ rs
unfolding hand_all hand
hand_all_lem [] w = sym (append-nil _)
hand_all_lem (r ∷ rs) w = hand_all_lem rs (hand (some r) w) ∙ append_assoc w.handed (r ∷ []) rs

-- The rows that a write of a set puts before the outbox.
pub told_all : {A : Type 0} → Bool → Option (List A) → List A
told_all true (some rs) = rs
told_all true none = []
told_all false rs = []

mass_stored_hands :
    {S V : Type 0}
    → (o : Option Outbox) (ts : List Moment) (rs : Option (List (Row (Event V)))) (x : Bool)
      (w : World S V)
    → (mass_stored o ts rs x w).1.handed ≡ w.handed ++ told_all x rs
unfolding mass_stored told_all
mass_stored_hands o ts none true w = sym (append-nil _)
mass_stored_hands o ts (some rs) true w = hand_all_lem rs w
mass_stored_hands o ts rs false w = sym (append-nil _)

-- A commit of several entities hands the row of each of them, in their order, when the storage has
-- written them all, and none otherwise.
pub mass_commit_hands :
    {S V P : Type 0}
    → (c : Setup S V P) (ts : List Moment) (e : Entity V) (es : List (Entity V)) (input : Option ℕ)
      (w : World S V)
    → let rs = rows c ts (e ∷ es) input in
      let good = (c.storage.mass_store w.store (map (λ x. x.state) (e ∷ es)) rs).0 in
      (mass_commit c ts (e ∷ es) input w).1.handed ≡ w.handed ++ told_all good rs
unfolding mass_commit ask
mass_commit_hands c ts e es input w =
    let rs = rows c ts (e ∷ es) input in
    let r = c.storage.mass_store w.store (map (λ x. x.state) (e ∷ es)) rs in
    mass_stored_hands c.outbox ts rs r.0 (record w { store = r.1 })

-- What an assignment puts before the outbox: its row with the state that the storage answered.
unfoldable pub told_image :
    {V : Type 0} → Result (Record V) → Option (Row (Event V)) → List (Row (Event V))
told_image (ok v) (some r) = record r { event = imaged v r.event } ∷ []
told_image (ok v) none = []
told_image (raise x) r = []

applied_hands :
    {S V P : Type 0}
    → (c : Setup S V P) (t : Moment) (q : Query) (r : Option (Row (Event V)))
      (x : Written (Option (Record V))) (w : World S V)
    → is_rejected c t r ≡ false
    → (applied c t q r x w).1.handed ≡ w.handed ++ told_image (applied c t q r x w).0 r
unfolding applied told_image hand published
applied_hands c t q r duplicate w h = sym (append-nil _)
applied_hands {V = V} c t q r (done none) w h =
    elim q.version
      as (λ o.
        w.handed
        ≡ w.handed
          ++ told_image
              (elim o as (λ x. Result (Record V)) [
                | none ↦ raise state_not_found
                | some v ↦ raise state_precondition
              ])
              r) [ none ↦ sym (append-nil _) | some v ↦ sym (append-nil _) ]
applied_hands c t q none (done (some v)) w h = sym (append-nil _)
applied_hands c t q (some r) (done (some v)) w h = simp h refl

-- An assignment hands the outbox its one row, completed with the state it answers, exactly when it
-- answers a state, where the outbox keeps its rows.
pub apply_hands :
    {S V P : Type 0}
    → (c : Setup S V P) (t : Moment) (q : Query) (change : Changeset P) (input : Option ℕ)
      (call : Option Call) (w : World S V)
    → IsDurable c.outbox
    → (apply c t q change input call w).1.handed
      ≡ w.handed
        ++ told_image
            (apply c t q change input call w).0
            (row_of c t (record { origin = none; state = none; trailers = none; input = input }))
unfolding apply ask
apply_hands c t q change input call w h =
    let r = row_of c t (record { origin = none; state = none; trailers = none; input = input }) in
    let x = c.storage.upsert w.store q change r call in
    applied_hands c t q r x.0 (record w { store = x.1 }) (is_rejected-IsDurable c t r h)

-- At most one row was handed to the outbox.
unfoldable pub IsCreated : {A : Type 0} → List A → List A → Type 0
IsCreated {A} before after = (after ≡ before) ⊎ ((x : A) × (after ≡ before ++ x ∷ []))

hand-IsCreated :
    {S V : Type 0}
    → (r : Option (Row (Event V))) (w : World S V) → IsCreated w.handed (hand r w).handed
unfolding IsCreated hand
hand-IsCreated none w = inl refl
hand-IsCreated (some r) w = inr (r, refl)

ensured-IsCreated :
    {S V P : Type 0}
    → (c : Setup S V P) (t : Moment) (e : Entity V) (r : Option (Row (Event V)))
      (x : Written (Record V)) (w : World S V)
    → IsCreated w.handed (ensured c t e r x w).1.handed
unfolding ensured IsCreated
ensured-IsCreated c t e r duplicate w = inl refl
ensured-IsCreated {S = S} {V = V} c t e r (done found) w =
    elim (found.id == e.state.id)
      as (λ b.
        let res : Result (Entity V) × World S V =
          if b
          then (published (is_rejected c t r) e, hand r w)
          else (ok (acquire c.schemas t.now found false), w) in
        IsCreated w.handed res.1.handed) [ true ↦ hand-IsCreated r w | false ↦ inl refl ]

ensure_set-IsCreated :
    {S V P : Type 0}
    → (c : Setup S V P) (t : Moment) (q : Option Query) (ps : P) (input : Option ℕ)
      (call : Option Call) (x : Entity.Result (Entity V)) (w : World S V)
    → IsCreated w.handed (ensure_set c t q ps input call x w).1.handed
unfolding ensure_set IsCreated ask
ensure_set-IsCreated c t q ps input call (Entity.Result.err x) w = inl refl
ensure_set-IsCreated c t q ps input call (Entity.Result.ok e) w =
    let r = row_of c t (event e input) in
    let x = c.storage.ensure w.store q ps e.state r call in
    ensured-IsCreated c t e r x.0 (record w { store = x.1 })

-- Getting or creating an entity hands the outbox at most one row.
pub ensure-IsCreated :
    {S V P : Type 0}
    → (c : Setup S V P) (t : Moment) (q : Option Query) (ps : P) (input : Option ℕ)
      (call : Option Call) (w : World S V)
    → IsCreated w.handed (ensure c t q ps input call w).1.handed
unfolding ensure
ensure-IsCreated c t q ps input call w =
    let e = init c.schemas t.now t.fresh in
    ensure_set-IsCreated c t q ps input call
      (set c.schemas t.now e (record e.state { own = c.assign e.state.own ps })) w
