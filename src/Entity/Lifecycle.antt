-- ===== src/Entity/Lifecycle.antt =====
-- What a commit makes of a record: its version, its times, its region, and whether it is live.
use mathlib.Core.Path.{subst}
use toa.Prelude.{
  ℕ, ◌+◌, ◌≡◌, refl, inl, inr, true, false, none, some, List, [], ◌∷◌, arith, length, Bool-cases,
  ==_iff, ◌==◌, if◌then◌else◌,
}
use toa.Entity.{
  Record, Schemas, Entity, Result, ok, err, SetResult, or_zero, is_some, is_discarded, filled,
  stamped, written, refused_by, same_time, revives, revived, replace, checked, set, cons_set, keep,
  set_each, set_all,
}

module _ {V : Type 0} (s : Schemas V) (now : ℕ) where
  -- What a value that `set` accepts was held to.
  abbrev pub IsAccepted : Entity V → Record V → Type 0
  IsAccepted e v = (e.mutable ≡ true) × (refused_by s.guards v e.origin ≡ none) × (s.fits v ≡ true)

  -- What `set` makes of an entity and a value.
  abbrev pub IsWritten : Entity V → Record V → Entity V → Type 0
  IsWritten e v e' =
      (e'.state.version ≡ some (or_zero v.version + 1))
      × (e'.state.updated ≡ some now)
      × (e'.state.region ≡ some s.region)
      × (e'.state.id ≡ v.id)
      × (e'.state.own ≡ v.own)
      × (e'.origin ≡ e.origin)
      × (e'.state.deleted ≡ (if revives e.origin v then none else v.deleted))

  -- What `set` accepts, every guard and the schema hold for, and the entity may be modified. What it
  -- then writes is the value with the version one on, the time and the region of the write, and the
  -- origin as it was; a tombstone's time that the value leaves alone is cleared.
  pub set-IsWritten :
      (e e' : Entity V) (v : Record V) → set s now e v ≡ ok e' → IsAccepted e v × IsWritten e v e'
  unfolding set checked replace written filled stamped revived
  set-IsWritten e e' v h = ground arith

  -- Nothing else is asked of a value.
  pub set_accepts :
      (e : Entity V) (v : Record V) → IsAccepted e v → (e' : Entity V) × (set s now e v ≡ ok e')
  unfolding set checked
  set_accepts e v a = (replace s now e v, ground arith)

  -- A deleted record that is written over with its time of deletion left alone is live again, and
  -- says so.
  pub set_revives :
      (e e' : Entity V) (o v : Record V) (t : ℕ)
      → e.origin ≡ some o
      → o.deleted ≡ some t
      → v.deleted ≡ some t
      → set s now e v ≡ ok e'
      → (e'.state.deleted ≡ none) × (e'.deleted ≡ false)
  unfolding set checked replace written filled stamped revived revives same_time is_some
  set_revives e e' o v t eo od vd h = ground arith

  -- A record is deleted by a time of deletion that it did not have.
  pub set_deletes :
      (e e' : Entity V) (v : Record V) (t : ℕ)
      → v.deleted ≡ some t
      → revives e.origin v ≡ false
      → set s now e v ≡ ok e'
      → (e'.state.deleted ≡ some t) × (e'.deleted ≡ true)
  unfolding set checked replace written filled stamped revived is_some
  set_deletes e e' v t vd alive h = ground arith

-- What a set commits of the entities it was read as and the values an algorithm left: the entity of
-- each value that was not discarded, as `set` writes it, in their order.
pub data Commits {V : Type 0} (s : Schemas V) (now : ℕ)
    : List (Entity V) → List (Record V) → List (Entity V) → Type 0 where
  none_left : Commits s now [] [] []
  skip :
      {es rest : List (Entity V)} {vs : List (Record V)} (e : Entity V) (v : Record V)
      → is_discarded v.discard ≡ true
      → Commits s now es vs rest
      → Commits s now (e ∷ es) (v ∷ vs) rest
  write :
      {es rest : List (Entity V)} {vs : List (Record V)} (e e' : Entity V) (v : Record V)
      → is_discarded v.discard ≡ false
      → set s now e v ≡ ok e'
      → Commits s now es vs rest
      → Commits s now (e ∷ es) (v ∷ vs) (e' ∷ rest)

module _ {V : Type 0} (s : Schemas V) (now : ℕ) where
  cons_set-eq-ok :
      (e : Entity V) (r : SetResult (List (Entity V))) (out : List (Entity V))
      → cons_set e r ≡ SetResult.ok out
      → (rest : List (Entity V)) × (r ≡ SetResult.ok rest) × (e ∷ rest ≡ out)
  unfolding cons_set
  cons_set-eq-ok e (SetResult.ok rest) out h = (rest, refl, ground arith)
  cons_set-eq-ok e (SetResult.err x) out h = cc

  keep-eq-ok :
      (r : Result (Entity V)) (rs : SetResult (List (Entity V))) (out : List (Entity V))
      → keep r rs ≡ SetResult.ok out
      → (e : Entity V) × (rest : List (Entity V)) × (r ≡ ok e)
        × (rs ≡ SetResult.ok rest)
        × (e ∷ rest ≡ out)
  unfolding keep
  keep-eq-ok (ok e) rs out h = let (rest, p, q) = cons_set-eq-ok e rs out h in (e, rest, refl, p, q)
  keep-eq-ok (err x) rs out h = cc

  set_each-Commits :
      (es out : List (Entity V)) (vs : List (Record V))
      → length vs ≡ length es
      → set_each s now es vs ≡ SetResult.ok out
      → Commits s now es vs out
  unfolding set_each
  set_each-Commits [] out [] n h = subst (Commits s now [] []) (ground arith) none_left
  set_each-Commits [] out (v ∷ vs) n h = absurd (omega arith)
  set_each-Commits (e ∷ es) out [] n h = absurd (omega arith)
  set_each-Commits (e ∷ es) out (v ∷ vs) n h = elim (Bool-cases (is_discarded v.discard)) [
    | inl dropped ↦ skip e v dropped (set_each-Commits es out vs (omega arith) (rw dropped at h))
    | inr kept ↦
        let (e', rest, now', later, same) =
          keep-eq-ok (set s now e v) (set_each s now es vs) out (rw kept at h) in
        subst (Commits s now (e ∷ es) (v ∷ vs)) same
          (write e e' v kept now' (set_each-Commits es rest vs (omega arith) later))
  ]

  -- What `EntitySet.set` accepts is a value for each entity, and what is left of the set is what
  -- `Commits` says.
  pub set_all-Commits :
      (es out : List (Entity V)) (vs : List (Record V))
      → set_all s now es vs ≡ SetResult.ok out
      → (length vs ≡ length es) × Commits s now es vs out
  unfolding set_all
  set_all-Commits es out vs h = elim (Bool-cases (length vs == length es)) [
    | inl same ↦
        let n = (==_iff (length vs) (length es)).0 same in
        (n, set_each-Commits es out vs n (rw same at h))
    | inr other ↦ cc (rw other at h)
  ]
