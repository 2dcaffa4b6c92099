-- ===== src/Connector/Halt.antt =====
-- Where a halt comes: `halt` of connector.ts and gate.ts.
use mathlib.Core.Path.{subst}
use toa.Prelude.{
  ℕ, zero, suc, ◌+◌, ◌≤◌, ◌≡◌, refl, ap, sym, ◌∙◌, true, false, Option, some, List, [], ◌∷◌, ◌++◌,
  ◌==◌, ◌||◌, ==_iff, if◌then◌else◌, arith, Bool-cases, inl, inr, ◌⊎◌, ◌↔◌, none,
}
use toa.Prelude.Maps.{contains, contains-add}
use toa.Connector.{Tree, Walk, unwalked, walk_all, stop, held, below_halt, halt}
use toa.Connector.Walking.{Within, some_inj, walk_members-keeps, walk_all-keeps, walk_all-reaches}

-- How often a connector was called.
abbrev pub times : ℕ → List ℕ → ℕ
times v [] = 0
times v (x ∷ xs) = (if v == x then 1 else 0) + times v xs

times-append : (v : ℕ) (xs ys : List ℕ) → times v (xs ++ ys) ≡ times v xs + times v ys
times-append v [] ys = omega arith
times-append v (x ∷ xs) ys = omega (arith, times-append v xs ys)

times_none : (v : ℕ) (xs : List ℕ) → contains v xs ≡ false → times v xs ≡ 0
times_none v [] h = refl
times_none v (x ∷ xs) h = ground (arith, times_none v xs)

pub contains-append :
    (v : ℕ) (xs ys : List ℕ) → contains v (xs ++ ys) ≡ (contains v xs || contains v ys)
contains-append v [] ys = refl
contains-append v (x ∷ xs) ys = ground (arith, contains-append v xs ys)

-- What a connector depends on or holds.
abbrev pub Child : Tree → ℕ → ℕ → Type 0
Child t u v = (contains v (t.dependencies u) ≡ true) ⊎ (t.live u ≡ some v)

held-eq : (o : Option ℕ) (v : ℕ) → (contains v (held o) ≡ true) ↔ (o ≡ some v)
unfolding held
held-eq none v = (λ h. cc, λ h. cc)
held-eq (some id) v = (λ h. ap some (sym ((==_iff v id).0 (ground arith))), λ h. ground arith)

pub Child-below : (t : Tree) (u v : ℕ) → Child t u v → contains v (below_halt t u) ≡ true
unfolding below_halt
Child-below t u v c =
    let both = contains-append v (t.dependencies u) (held (t.live u)) in
    elim c [
      | inl dependency ↦ ground arith
      | inr live ↦ let h = (held-eq (t.live u) v).1 live in ground arith
    ]

pub below-Child : (t : Tree) (u v : ℕ) → contains v (below_halt t u) ≡ true → Child t u v
unfolding below_halt
below-Child t u v h =
    let both = contains-append v (t.dependencies u) (held (t.live u)) in
    elim (Bool-cases (contains v (t.dependencies u))) [
      | inl dependency ↦ inl dependency
      | inr other ↦ inr ((held-eq (t.live u) v).0 (ground arith))
    ]

-- What stands under a connector.
pub data Under (t : Tree) (root : ℕ) : ℕ → Type 0 where
  here : Under t root root
  below : {u v : ℕ} → Under t root u → Child t u v → Under t root v

-- A walk that has come to a connector has come to what it depends on and to what it holds.
abbrev pub Closes : Tree → Walk → Walk → Type 0
Closes t w w' =
    (u v : ℕ)
    → contains u w'.visited ≡ true
    → contains u w.visited ≡ false
    → contains v (below_halt t u) ≡ true
    → contains v w'.visited ≡ true

pub stop-visited :
    (id v : ℕ) (w : Walk) → contains v (stop id w).visited ≡ (v == id || contains v w.visited)
unfolding stop
stop-visited id v w = ground (arith, contains-add v id w.visited)

abbrev pub Extends : Walk → Walk → Type 0
Extends w w' = Within w.visited w'.visited

module _ (t : Tree) where
  -- What is known of a walk that has an answer.
  abbrev pub Walked : ℕ → Walk → Walk → Type 0
  Walked id w w' = Extends w w' × (contains id w'.visited ≡ true) × Closes t w w'

  Closes-trans : (u w w' : Walk) → Extends w w' → Closes t u w → Closes t w w' → Closes t u w'
  Closes-trans u w w' more first next a b came new child =
      elim (Bool-cases (contains a w.visited)) [
        | inl early ↦ more b (first a b early new child)
        | inr late ↦ next a b came late child
      ]

  Walked-below :
      (walk : ℕ → Walk → Option Walk)
      → ((id : ℕ) (w w' : Walk) → walk id w ≡ some w' → Walked id w w')
      → (id : ℕ) (w w' : Walk) → walk_all walk (below_halt t id) (stop id w) ≡ some w'
      → Walked id w w'
  Walked-below walk known id w w' h =
      let entered = stop id w in
      let more : Extends entered w' =
        walk_all-keeps walk (Extends entered) (λ i a b k p v m. (known i a b k).0 v (p v m))
          (below_halt t id) entered w' h (λ v m. m) in
      let closed : Closes t entered w' =
        (walk_all-keeps walk (λ b. Extends entered b × Closes t entered b)
          (λ i a b k p. (
            λ v m. (known i a b k).0 v (p.0 v m),
            Closes-trans entered a b (known i a b k).0 p.1 (known i a b k).2,
          ))
          (below_halt t id) entered w' h (λ v m. m, λ x y came new child. cc)).1 in
      let children : (v : ℕ) → contains v (below_halt t id) ≡ true → contains v w'.visited ≡ true =
        walk_all-reaches walk (λ v b. contains v b.visited ≡ true) (λ i a b k. (known i a b k).1)
          (λ v i a b k. (known i a b k).0 v) (below_halt t id) entered w' h in
      (
        λ v m. more v (ground (arith, stop-visited id v w)),
        more id (ground (arith, stop-visited id id w)),
        λ a b came new child. elim (Bool-cases (a == id)) [
          | inl same ↦
              children b
                (subst (λ x. contains b (below_halt t x) ≡ true) ((==_iff a id).0 same) child)
          | inr other ↦ closed a b came (ground (arith, stop-visited id a w)) child
        ],
      )

  pub halt-Walked : (fuel id : ℕ) (w w' : Walk) → halt t fuel id w ≡ some w' → Walked id w w'
  unfolding halt
  halt-Walked zero id w w' h = cc
  halt-Walked (suc fuel) id w w' h = elim (Bool-cases (contains id w.visited)) [
    | inl before ↦
        let same : w ≡ w' = some_inj (rw before at h) in
        subst (Walked id w) same (λ v m. m, before, λ a b came new child. cc)
    | inr new ↦
        let h' : walk_all (halt t fuel) (below_halt t id) (stop id w) ≡ some w' = rw new at h in
        Walked-below (halt t fuel) (halt-Walked fuel) id w w' h'
  ]

  -- What is kept where a walk comes to a connector is kept by the walk.
  halt-keeps {κ} :
      (root : ℕ) (P : Walk → Type κ)
      → ((id : ℕ) (w : Walk)
          → Under t root id
          → contains id w.visited ≡ false
          → P w
          → P (stop id w))
      → (fuel id : ℕ) → Under t root id
      → (w w' : Walk) → halt t fuel id w ≡ some w'
      → P w
      → P w'
  unfolding halt
  halt-keeps root P keep zero id u w w' h p = cc
  halt-keeps root P keep (suc fuel) id u w w' h p = elim (Bool-cases (contains id w.visited)) [
    | inl before ↦ let same : w ≡ w' = some_inj (rw before at h) in subst P same p
    | inr new ↦
        let h' : walk_all (halt t fuel) (below_halt t id) (stop id w) ≡ some w' = rw new at h in
        walk_members-keeps (halt t fuel) P (below_halt t id)
          (λ i m a b k q. halt-keeps root P keep fuel i (below u (below-Child t id i m)) a b k q)
          (stop id w) w' h' (keep id w u new p)
  ]

  -- What is so of a walk from `root`, where the connectors of `before` were halted.
  pub record IsFaithful (root : ℕ) (before : List ℕ) (w : Walk) : Type 0 where
    pub halts : Within w.visited w.halted
    pub told : (v : ℕ) → contains v w.halted ≡ (contains v before || contains v w.called)
    pub under : (v : ℕ) → contains v w.called ≡ true → Under t root v
    pub once : (v : ℕ) → times v w.called + (if contains v before then 1 else 0) ≤ 1

  stop-IsFaithful :
      (root : ℕ) (before : List ℕ) (id : ℕ) (w : Walk)
      → Under t root id
      → IsFaithful root before w
      → IsFaithful root before (stop id w)
  unfolding stop
  stop-IsFaithful root before id w u f = elim (Bool-cases (contains id w.halted)) [
    | inl again ↦ record {
      halts = λ v m. ground (arith, contains-add v id w.visited, halts v, ==_iff v id);
      told = λ v. ground (arith, told v);
      under = λ v m. under v (ground arith);
      once = λ v. ground (arith, once v);
    }
    | inr awake ↦ record {
      halts =
          λ v m. ground (arith, contains-add v id w.visited, contains-add v id w.halted, halts v);
      told = λ v.
          ground (arith, told v, contains-add v id w.halted, contains-append v w.called (id ∷ []));
      under = λ v m. elim (Bool-cases (v == id)) [
        | inl same ↦ subst (Under t root) (sym ((==_iff v id).0 same)) u
        | inr other ↦ under v (ground (arith, contains-append v w.called (id ∷ [])))
      ];
      once = λ v. elim (Bool-cases (v == id)) [
        | inl same ↦
            let asleep : contains v w.halted ≡ false =
              ap (λ x. contains x w.halted) ((==_iff v id).0 same) ∙ awake in
            ground (arith, told v, times-append v w.called (id ∷ []), times_none v w.called)
        | inr other ↦ ground (arith, once v, times-append v w.called (id ∷ []))
      ];
    }
  ]
    where
      open f use {halts, told, under, once}

  pub halt-IsFaithful :
      (fuel root : ℕ) (before : List ℕ) (w : Walk)
      → halt t fuel root (unwalked before) ≡ some w
      → IsFaithful root before w
  unfolding unwalked
  halt-IsFaithful fuel root before w h =
      halt-keeps root (IsFaithful root before) (λ i a u new f. stop-IsFaithful root before i a u f)
        fuel root here (unwalked before) w h
        (record {
          halts = λ v m. cc;
          told = λ v. ground arith;
          under = λ v m. cc;
          once = λ v. ground arith;
        })

  -- Where a halt has an answer, everything under its root is halted.
  pub halted_under :
      (fuel root : ℕ) (before : List ℕ) (w : Walk)
      → halt t fuel root (unwalked before) ≡ some w
      → (v : ℕ) → Under t root v
      → contains v w.visited ≡ true
  unfolding unwalked
  halted_under fuel root before w h v here = (halt-Walked fuel root (unwalked before) w h).1
  halted_under fuel root before w h v (below {u} way child) =
      let came = halted_under fuel root before w h u way in
      (halt-Walked fuel root (unwalked before) w h).2 u v came refl (Child-below t u v child)
