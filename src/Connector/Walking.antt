-- ===== src/Connector/Walking.antt =====
-- What a walk over a list of connectors keeps, when the walk of each keeps it.
use toa.Prelude.{
  ℕ, ◌≡◌, refl, sym, true, Option, none, some, List, [], ◌∷◌, ◌==◌, ◌⊎◌, ==_iff, arith, Bool-cases,
  inl, inr,
}
use mathlib.Core.Path.{subst}
use toa.Prelude.Maps.{contains}
use toa.Connector.{bind, walk_all}

-- Every member of a list, by `contains`.
abbrev pub Within : List ℕ → List ℕ → Type 0
Within xs ys = (v : ℕ) → contains v xs ≡ true → contains v ys ≡ true

pub bind-eq-some {ℓ κ} :
    {A : Type ℓ} {B : Type κ} (o : Option A) (f : A → Option B) {b : B}
    → bind o f ≡ some b
    → (a : A) × (o ≡ some a) × (f a ≡ some b)
bind-eq-some none f h = cc
bind-eq-some (some a) f h = (a, refl, h)

pub some_inj {ℓ} : {A : Type ℓ} {a b : A} → some a ≡ some b → a ≡ b
some_inj h = cc

contains-cases :
    (v id : ℕ) (ids : List ℕ) → contains v (id ∷ ids) ≡ true → (v ≡ id) ⊎ (contains v ids ≡ true)
contains-cases v id ids h = elim (Bool-cases (v == id)) [
  | inl same ↦ inl ((==_iff v id).0 same)
  | inr other ↦ inr (ground arith)
]

module _ {ℓ} {S : Type ℓ} (walk : ℕ → S → Option S) where
  -- What the walk of each member keeps is kept.
  pub walk_members-keeps {κ} :
      (P : S → Type κ) (ids : List ℕ)
      → ((id : ℕ) → contains id ids ≡ true → (s s' : S) → walk id s ≡ some s' → P s → P s')
      → (s s' : S) → walk_all walk ids s ≡ some s'
      → P s
      → P s'
  unfolding walk_all
  walk_members-keeps P [] keep s s' h p = subst P (some_inj h) p
  walk_members-keeps P (id ∷ ids) keep s s' h p =
      let (s1, first, rest) = bind-eq-some (walk id s) (walk_all walk ids) h in
      let p1 = keep id (ground arith) s s1 first p in
      walk_members-keeps P ids (λ i m. keep i (ground arith)) s1 s' rest p1

  pub walk_all-keeps {κ} :
      (P : S → Type κ)
      → ((id : ℕ) (s s' : S) → walk id s ≡ some s' → P s → P s')
      → (ids : List ℕ) (s s' : S) → walk_all walk ids s ≡ some s'
      → P s
      → P s'
  walk_all-keeps P keep ids = walk_members-keeps P ids (λ id m. keep id)

  -- What each walk brings about for its own connector, and keeps, is so of each of them.
  pub walk_all-reaches {κ} :
      (Q : ℕ → S → Type κ)
      → ((id : ℕ) (s s' : S) → walk id s ≡ some s' → Q id s')
      → ((v id : ℕ) (s s' : S) → walk id s ≡ some s' → Q v s → Q v s')
      → (ids : List ℕ) (s s' : S) → walk_all walk ids s ≡ some s'
      → (v : ℕ) → contains v ids ≡ true
      → Q v s'
  unfolding walk_all
  walk_all-reaches Q own keep [] s s' h v m = cc
  walk_all-reaches Q own keep (id ∷ ids) s s' h v m =
      let (s1, first, rest) = bind-eq-some (walk id s) (walk_all walk ids) h in
      elim (contains-cases v id ids m) [
        | inl same ↦
            walk_all-keeps (Q v) (λ i a b. keep v i a b) ids s1 s' rest
              (subst (λ x. Q x s1) (sym same) (own id s s1 first))
        | inr later ↦ walk_all-reaches Q own keep ids s1 s' rest v later
      ]

  -- A walk over all of them has an answer, if the walk of each has one.
  pub walk_all-total {κ} :
      (P : S → Type κ)
      → ((id : ℕ) (s s' : S) → walk id s ≡ some s' → P s → P s')
      → (ids : List ℕ)
      → ((id : ℕ) → contains id ids ≡ true → (s : S) → P s → (s' : S) × (walk id s ≡ some s'))
      → (s : S) → P s
      → (s' : S) × (walk_all walk ids s ≡ some s')
  unfolding walk_all
  walk_all-total P keep [] total s p = (s, refl)
  walk_all-total P keep (id ∷ ids) total s p =
      let (s1, first) = total id (ground arith) s p in
      let (s2, rest) =
        walk_all-total P keep ids (λ i m. total i (ground arith)) s1 (keep id s s1 first p) in
      (s2, rw first rest)
