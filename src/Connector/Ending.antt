-- ===== src/Connector/Ending.antt =====
-- That a halt ends, whatever the tree: `halt` of connector.ts and gate.ts.
use toa.Prelude.{
  ℕ, zero, suc, ◌+◌, ◌≤◌, ◌<◌, ◌≡◌, refl, ap, sym, ◌∙◌, true, false, some, List, [], ◌∷◌, ◌==◌,
  ==_iff, if◌then◌else◌, length, arith, Bool-cases, inl, inr,
}
use toa.Prelude.Maps.{contains}
use toa.Connector.{Tree, Walk, unwalked, stop, below_halt, halt}
use toa.Connector.Walking.{Within, walk_all-total}
use toa.Connector.Halt.{
  Child, below-Child, Under, IsFaithful, stop-visited, halt-Walked, halt-IsFaithful, halted_under,
}

-- How many of some connectors a walk has not come to.
abbrev missing : List ℕ → List ℕ → ℕ
missing [] visited = 0
missing (x ∷ xs) visited = (if contains x visited then 0 else 1) + missing xs visited

missing-le : (xs vs ws : List ℕ) → Within vs ws → missing xs ws ≤ missing xs vs
missing-le [] vs ws h = omega arith
missing-le (x ∷ xs) vs ws h = ground (arith, missing-le xs vs ws h, h x)

missing-le-length : (xs vs : List ℕ) → missing xs vs ≤ length xs
missing-le-length [] vs = omega arith
missing-le-length (x ∷ xs) vs = ground (arith, missing-le-length xs vs)

missing-lt :
    (xs vs ws : List ℕ) (id : ℕ)
    → Within vs ws
    → contains id xs ≡ true
    → contains id vs ≡ false
    → contains id ws ≡ true
    → missing xs ws < missing xs vs
missing-lt [] vs ws id more m new now = cc
missing-lt (x ∷ xs) vs ws id more m new now = elim (Bool-cases (id == x)) [
  | inl same ↦
      let e : id ≡ x = (==_iff id x).0 same in
      let new' : contains x vs ≡ false = ap (λ y. contains y vs) (sym e) ∙ new in
      let now' : contains x ws ≡ true = ap (λ y. contains y ws) (sym e) ∙ now in
      ground (arith, missing-le xs vs ws more)
  | inr other ↦ ground (arith, missing-lt xs vs ws id more, more x)
]

module _ (t : Tree) (nodes : List ℕ)
    (finite : (u v : ℕ) → contains u nodes ≡ true → Child t u v → contains v nodes ≡ true) where
  halt-total :
      (fuel id : ℕ)
      → contains id nodes ≡ true
      → (w : Walk) → missing nodes w.visited < fuel
      → (w' : Walk) × (halt t fuel id w ≡ some w')
  unfolding halt
  halt-total zero id m w h = absurd (omega arith)
  halt-total (suc fuel) id m w h = elim (Bool-cases (contains id w.visited)) [
    | inl before ↦ (w, rw before refl)
    | inr new ↦
        let less : missing nodes (stop id w).visited < missing nodes w.visited =
          missing-lt nodes w.visited (stop id w).visited id
            (λ v k. ground (arith, stop-visited id v w)) m new
            (ground (arith, stop-visited id id w)) in
        let (w', below) =
          walk_all-total (halt t fuel) (λ a. missing nodes a.visited < fuel)
            (λ i a b k p.
              let more = missing-le nodes a.visited b.visited (halt-Walked t fuel i a b k).0 in
              omega arith)
            (below_halt t id)
            (λ i child a p. halt-total fuel i (finite id i m (below-Child t id i child)) a p)
            (stop id w) (omega arith) in
        (w', rw new below)
  ]

  -- In a tree of finitely many connectors, cycles and shared ones among them, a halt ends, with no
  -- more calls one inside another than there are connectors and one more. Then all that stands
  -- under its root is halted, and so is what was before and nothing else; what it paused stands
  -- under the root, was not halted, and was paused once.
  pub halt_stops :
      (root : ℕ) (before : List ℕ)
      → contains root nodes ≡ true
      → (w : Walk) × (halt t (suc (length nodes)) root (unwalked before) ≡ some w)
        × ((v : ℕ) → Under t root v → contains v w.halted ≡ true)
        × IsFaithful t root before w
  unfolding unwalked
  halt_stops root before m =
      let (w, done) =
        halt-total (suc (length nodes)) root m (unwalked before)
          (omega (arith, missing-le-length nodes [])) in
      let f = halt-IsFaithful t (suc (length nodes)) root before w done in
      (w, done, λ v u. f.halts v (halted_under t (suc (length nodes)) root before w done v u), f)
