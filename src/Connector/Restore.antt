-- ===== src/Connector/Restore.antt =====
-- In what order a tree is restored: `restore` of connector.ts and gate.ts.
pub mod Order
use toa.Prelude.{
  ℕ, zero, suc, ◌+◌, ◌≤◌, ◌<◌, ◌≡◌, refl, ap, sym, ◌∙◌, Bool, true, false, Option, none, some, List,
  [], ◌∷◌, ◌++◌, ◌==◌, ◌||◌, ==_iff, if◌then◌else◌, arith, Bool-cases, inl, inr,
}
use mathlib.Core.Path.{subst}
use toa.Prelude.Maps.{contains, add, remove, contains-add, contains-remove}
use toa.Connector.{
  Tree, Walk, unwalked, bind, walk_all, held, below_halt, start, restore_self, restore,
}
use toa.Connector.Walking.{Within}
use toa.Connector.Halt.{Child, Child-below, Under, here, below, contains-append}

-- Connectors that are restored one after another: each was halted, and nothing that it depends on
-- or holds was halted any longer.
pub data Wakes (t : Tree) : List ℕ → List ℕ → List ℕ → Type 0 where
  done : {hs : List ℕ} → Wakes t hs [] hs
  next :
      {hs ids last : List ℕ} (id : ℕ)
      → contains id hs ≡ true
      → ((v : ℕ) → Child t id v → contains v hs ≡ false)
      → Wakes t (remove id hs) ids last
      → Wakes t hs (id ∷ ids) last

pub Wakes-append :
    {t : Tree} {hs ids last : List ℕ} (id : ℕ)
    → Wakes t hs ids last
    → contains id last ≡ true
    → ((v : ℕ) → Child t id v → contains v last ≡ false)
    → Wakes t hs (ids ++ id ∷ []) (remove id last)
Wakes-append id done h b = next id h b done
Wakes-append id (next i hi bi more) h b = next i hi bi (Wakes-append id more h b)

-- What a walk, or a part of one, does.
pub record Passes (t : Tree) (w w' : Walk) : Type 0 where
  pub grows : Within w.visited w'.visited
  pub sleeps : Within w'.halted w.halted
  pub wakes :
      (v : ℕ)
      → contains v w'.visited ≡ true
      → contains v w.visited ≡ false
      → contains v w'.halted ≡ false
  pub closes :
      (u v : ℕ)
      → contains u w'.visited ≡ true
      → contains u w.visited ≡ false
      → contains v (below_halt t u) ≡ true
      → contains v w'.visited ≡ true

pub Passes-refl : (t : Tree) (w : Walk) → Passes t w w
Passes-refl t w = record {
  grows = λ v m. m;
  sleeps = λ v m. m;
  wakes = λ v m n. cc;
  closes = λ u v m n c. cc;
}

pub asleep :
    {w w' : Walk} (t : Tree)
    → Passes t w w'
    → (v : ℕ) → contains v w.halted ≡ false
    → contains v w'.halted ≡ false
asleep t p v h = ground (arith, p.sleeps v)

pub Passes-trans : (t : Tree) (u v w : Walk) → Passes t u v → Passes t v w → Passes t u w
Passes-trans t u v w p q = record {
  grows = λ x m. q.grows x (p.grows x m);
  sleeps = λ x m. p.sleeps x (q.sleeps x m);
  wakes = λ x m n. elim (Bool-cases (contains x v.visited)) [
    | inl early ↦ asleep t q x (p.wakes x early n)
    | inr late ↦ q.wakes x m late
  ];
  closes = λ x y m n c. elim (Bool-cases (contains x v.visited)) [
    | inl early ↦ q.grows y (p.closes x y early n c)
    | inr late ↦ q.closes x y m late c
  ];
}

pub start-visited : (id : ℕ) (w : Walk) → (start id w).visited ≡ w.visited
unfolding start
start-visited id w = ground arith

pub start-halted :
    (id v : ℕ) (w : Walk)
    → contains v (start id w).halted ≡ (if v == id then false else contains v w.halted)
unfolding start
start-halted id v w = elim (Bool-cases (contains id w.halted)) [
  | inl halted ↦ ground (arith, contains-remove v id w.halted)
  | inr up ↦ elim (Bool-cases (v == id)) [
    | inl same ↦
        let e : contains v w.halted ≡ false =
          ap (λ x. contains x w.halted) ((==_iff v id).0 same) ∙ up in
        ground arith
    | inr other ↦ ground arith
  ]
]

-- What a connector that was come to, and its dependencies walked, passes on when it is unpaused.
pub Passes-start :
    (t : Tree) (id : ℕ) (w w' : Walk)
    → Passes t (record w { visited = add id w.visited }) w'
    → ((v : ℕ) → contains v (below_halt t id) ≡ true → contains v w'.visited ≡ true)
    → Passes t w (start id w')
Passes-start t id w w' p children = record {
  grows = λ v m. rw (start-visited id w') (p.grows v (ground (arith, contains-add v id w.visited)));
  sleeps = λ v m. p.sleeps v (ground (arith, start-halted id v w'));
  wakes = λ v m n.
      ground
        (arith, start-visited id w', start-halted id v w', p.wakes v, contains-add v id w.visited);
  closes = λ u v m n c. elim (Bool-cases (u == id)) [
    | inl same ↦
        let c' = subst (λ x. contains v (below_halt t x) ≡ true) ((==_iff u id).0 same) c in
        rw (start-visited id w') (children v c')
    | inr other ↦
        let m' : contains u w'.visited ≡ true = rw (start-visited id w') at m in
        rw (start-visited id w') (p.closes u v m' (ground (arith, contains-add u id w.visited)) c)
  ];
}

pub Under-visited :
    {t : Tree} (halted : List ℕ) (root : ℕ) (w : Walk)
    → contains root w.visited ≡ true
    → Passes t (unwalked halted) w
    → (v : ℕ) → Under t root v
    → contains v w.visited ≡ true
unfolding unwalked
Under-visited halted root w m p v here = m
Under-visited {t} halted root w m p v (below {u} way child) =
    p.closes u v (Under-visited halted root w m p u way) refl (Child-below t u v child)
