-- ===== src/Connector/Restore/Order.antt =====
-- A restore of a tree without cycles, from the bottom up: `restore` of connector.ts and gate.ts.
use toa.Prelude.{
  ℕ, zero, suc, ◌<◌, ◌≡◌, refl, sym, true, false, Option, some, List, [], ◌∷◌, ◌==◌, ==_iff, arith,
  Bool-cases, inl, inr,
}
use mathlib.Core.Path.{subst}
use toa.Prelude.Maps.{contains, add, contains-add}
use toa.Connector.{Tree, Walk, unwalked, walk_all, held, below_halt, start, restore_self, restore}
use toa.Connector.Halt.{Child, Child-below, below-Child, Under, contains-append}
use toa.Connector.Restore.{
  Wakes, done, Wakes-append, Passes, Passes-refl, Passes-trans, asleep, start-visited, start-halted,
  Passes-start, Under-visited,
}

module _ (t : Tree) (rank : ℕ → ℕ) (acyclic : (u v : ℕ) → Child t u v → rank v < rank u)
    (before : List ℕ) where
  less_below : (u v : ℕ) → contains v (below_halt t u) ≡ true → rank v < rank u
  less_below u v m = acyclic u v (below-Child t u v m)

  abbrev Awake : ℕ → Walk → Type 0
  Awake r w = (v : ℕ) → contains v w.visited ≡ true → rank v < r → contains v w.halted ≡ false

  Passes-Awake : (r : ℕ) (w w' : Walk) → Passes t w w' → Awake r w → Awake r w'
  Passes-Awake r w w' p a v m less = elim (Bool-cases (contains v w.visited)) [
    | inl early ↦ asleep t p v (a v early less)
    | inr late ↦ p.wakes v m late
  ]

  abbrev IsUp : ℕ → Walk → Type 0
  IsUp v w = (contains v w.visited ≡ true) × (contains v w.halted ≡ false)

  Passes-IsUp : (v : ℕ) (w w' : Walk) → Passes t w w' → IsUp v w → IsUp v w'
  Passes-IsUp v w w' p (m, h) = (p.grows v m, asleep t p v h)

  abbrev Ordered : Walk → Type 0
  Ordered w = Wakes t before w.called w.halted

  abbrev Restores : Option Walk → Walk → (Walk → Type 0) → Type 0
  Restores o w Q = (w' : Walk) × (o ≡ some w') × Passes t w w' × Ordered w' × Q w'

  abbrev Restoring : ℕ → (ℕ → Walk → Option Walk) → Type 0
  Restoring r walk =
      (id : ℕ)
      → rank id < r
      → (w : Walk) → Awake (suc (rank id)) w
      → Ordered w
      → Restores (walk id w) w (IsUp id)

  restores_all :
      (r : ℕ) (walk : ℕ → Walk → Option Walk)
      → Restoring r walk
      → (ids : List ℕ) → ((v : ℕ) → contains v ids ≡ true → rank v < r)
      → (w : Walk) → Awake r w
      → Ordered w
      → Restores (walk_all walk ids w) w (λ w'. (v : ℕ) → contains v ids ≡ true → IsUp v w')
  unfolding walk_all
  restores_all r walk each [] less w a o = (w, refl, Passes-refl t w, o, λ v m. cc)
  restores_all r walk each (id ∷ ids) less w a o =
      let own : rank id < r = less id (ground arith) in
      let (w1, first, p1, o1, up) = each id own w (λ v m k. a v m (omega arith)) o in
      let (w2, rest, p2, o2, ups) =
        restores_all r walk each ids (λ v m. less v (ground arith)) w1 (Passes-Awake r w w1 p1 a)
          o1 in
      (
        w2,
        rw first rest,
        Passes-trans t w w1 w2 p1 p2,
        o2,
        λ v m. elim (Bool-cases (v == id)) [
          | inl same ↦
              subst (λ x. IsUp x w2) (sym ((==_iff v id).0 same)) (Passes-IsUp id w1 w2 p2 up)
          | inr other ↦ ups v (ground arith)
        ],
      )

  start-Ordered :
      (id : ℕ) (w : Walk)
      → Ordered w
      → ((v : ℕ) → contains v (below_halt t id) ≡ true → contains v w.halted ≡ false)
      → Ordered (start id w)
  unfolding start
  start-Ordered id w o up = elim (Bool-cases (contains id w.halted)) [
    | inl halted ↦ simp halted (Wakes-append id o halted (λ v c. up v (Child-below t id v c)))
    | inr awake ↦ simp awake o
  ]

  self_restores :
      (id : ℕ) (walk : ℕ → Walk → Option Walk)
      → Restoring (rank id) walk
      → (w : Walk) → Awake (suc (rank id)) w
      → Ordered w
      → ((v : ℕ) → contains v (held (t.live id)) ≡ true → IsUp v w)
      → Restores (restore_self walk t id w) w (IsUp id)
  unfolding restore_self below_halt
  self_restores id walk each w a o live = elim (Bool-cases (contains id w.visited)) [
    | inl before ↦ (w, rw before refl, Passes-refl t w, o, (before, a id before (omega arith)))
    | inr new ↦
        let w1 = record w { visited = add id w.visited } in
        let a1 : Awake (rank id) w1 = λ v m less.
          a v (ground (arith, contains-add v id w.visited, ==_iff v id)) (omega arith) in
        let (w2, walked, p, o2, ups) =
          restores_all (rank id) walk each (t.dependencies id)
            (λ v m.
              acyclic id v
                (ground (arith, contains-append v (t.dependencies id) (held (t.live id)))))
            w1 a1 o in
        let all_up : (v : ℕ) → contains v (below_halt t id) ≡ true → IsUp v w2 = λ v m.
          elim (Bool-cases (contains v (t.dependencies id))) [
            | inl dependency ↦ ups v dependency
            | inr other ↦
                let (m', h') =
                  live v
                    (ground (arith, contains-append v (t.dependencies id) (held (t.live id)))) in
                (p.grows v (ground (arith, contains-add v id w.visited)), asleep t p v h')
          ] in
        (
          start id w2,
          rw (new, walked) refl,
          Passes-start t id w w2 p (λ v m. (all_up v m).0),
          start-Ordered id w2 o2 (λ v m. (all_up v m).1),
          (
            rw (start-visited id w2) (p.grows id (ground (arith, contains-add id id w.visited))),
            ground (arith, start-halted id id w2),
          ),
        )
  ]

  restores : (fuel : ℕ) → Restoring fuel (restore t fuel)
  unfolding restore below_halt
  restores zero id less w a o = elim less [ ]
  restores (suc fuel) id less w a o = elim (Bool-cases (contains id w.visited)) [
    | inl before ↦ (w, rw before refl, Passes-refl t w, o, (before, a id before (omega arith)))
    | inr new ↦
        let each : Restoring (rank id) (restore t fuel) =
          λ i l x k q. restores fuel i (omega arith) x k q in
        let (w1, gate, p1, o1, ups) =
          restores_all (rank id) (restore t fuel) each (held (t.live id))
            (λ v m.
              acyclic id v
                (ground (arith, contains-append v (t.dependencies id) (held (t.live id)))))
            w (λ v m l. a v m (omega arith)) o in
        let (w2, self, p2, o2, up) =
          self_restores id (restore t fuel) each w1 (Passes-Awake (suc (rank id)) w w1 p1 a) o1
            ups in
        (w2, rw (new, gate) self, Passes-trans t w w1 w2 p1 p2, o2, up)
  ]

  -- In a tree without cycles a restore ends, with as many calls one inside another as the tree is
  -- deep. Then nothing under its root is halted, and each connector was restored when nothing that
  -- it depends on or holds was halted any longer.
  pub restore-Wakes :
      (root : ℕ)
      → (w : Walk) × (restore t (suc (rank root)) root (unwalked before) ≡ some w)
        × ((v : ℕ) → Under t root v → contains v w.halted ≡ false)
        × Wakes t before w.called w.halted
  unfolding unwalked
  restore-Wakes root =
      let (w, walked, p, o, up) =
        restores (suc (rank root)) root (omega arith) (unwalked before) (λ v m l. cc) done in
      let came : (v : ℕ) → Under t root v → contains v w.visited ≡ true =
        λ v u. Under-visited before root w up.0 p v u in
      (w, walked, λ v u. p.wakes v (came v u) refl, o)
