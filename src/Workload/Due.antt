-- ===== src/Workload/Due.antt =====
-- How long a workload that comes back by a time is yet to wait: `#cycle` and `#resume`.
use toa.Prelude.{
  ℕ, zero, suc, ◌+◌, ◌-◌, ◌≤◌, ◌<◌, ◌≡◌, refl, ap, sym, ◌∙◌, Option, none, some, List, [], ◌∷◌, map,
  All, length, leb, if◌then◌else◌, arith, Bool-cases, inl, inr,
}
use mathlib.Core.Path.{subst}
use toa.Workload.{
  Gate, down, rise, hold, Phase, idle, called, pausing, lowering, waiting, raising, restoring,
  ended, Workload, change, raise_from, resume, halted, woken, lower, resolves, onward, fires, step,
  run,
}

length-change : (f : Gate → Gate) (i : ℕ) (gs : List Gate) → length (change f i gs) ≡ length gs
unfolding change
length-change f i [] = refl
length-change f zero (g ∷ gs) = refl
length-change f (suc i) (g ∷ gs) = ap suc (length-change f i gs)

-- How many times at most, with so many gates, what a phase awaits is to end before all is done.
unfoldable pub left : ℕ → Phase → ℕ
left n idle = 0
left n restoring = 1
left n (raising i) = 1 + (n - i)
left n waiting = n + 2
left n (lowering seconds at i) = n + 3 + i
left n (pausing seconds at) = n + n + 4
left n (called seconds) = n + n + 5
left n ended = 0

abbrev pub IsTimed : ℕ → Option ℕ → Type 0
IsTimed late none = ⊥
IsTimed late (some at) = at ≤ late

-- A workload that comes back by a time, in a phase.
abbrev pub IsDue : ℕ → Phase → Workload → Type 0
IsDue late idle w = Unit
IsDue late (called seconds) w = ⊥
IsDue late (pausing seconds at) w = at ≤ late
IsDue late (lowering seconds at i) w = at ≤ late
IsDue late waiting w = IsTimed late w.timer
IsDue late (raising i) w = i < length w.gates
IsDue late restoring w = Unit
IsDue late ended w = ⊥

woken-le : (at now late : ℕ) → now < at → at ≤ late → woken at now ≤ late
unfolding woken
woken-le at now late early le = ground arith

module _ (late n : ℕ) where
  pub record Comes (k : ℕ) (w : Workload) : Type 0 where
    pub due : IsDue late w.phase w
    pub many : length w.gates ≡ n
    pub within : left n w.phase ≤ k

  sooner : (k l : ℕ) (w : Workload) → k ≤ l → Comes k w → Comes l w
  sooner k l w le c = record { due = c.due; many = c.many; within = omega (arith, c.within) }

  pub stays-Comes :
      (k : ℕ) (w : Workload) (p : Phase)
      → w.phase ≡ p
      → IsDue late p w
      → length w.gates ≡ n
      → left n p ≤ k
      → Comes k w
  stays-Comes k w p same due many le = record {
    due = subst (λ x. IsDue late x w) (sym same) due;
    many = many;
    within = subst (λ x. left n x ≤ k) (sym same) le;
  }

  raise_from-Comes :
      (i : ℕ) (w : Workload) → length w.gates ≡ n → Comes (1 + (n - i)) (raise_from i w)
  unfolding raise_from left
  raise_from-Comes i w many = elim (Bool-cases (leb (length w.gates) i)) [
    | inl past ↦ simp past (record { due = tt; many = many; within = omega arith })
    | inr more ↦
        let same = length-change rise i w.gates in
        simp more (record { due = ground (arith, same); many = same ∙ many; within = omega arith })
  ]

  halted-Comes :
      (at now : ℕ) (w : Workload) → at ≤ late → length w.gates ≡ n → Comes (n + 2) (halted at now w)
  unfolding halted resume left
  halted-Comes at now w le many = elim (Bool-cases (leb at now)) [
    | inl past ↦ simp past (
        sooner (1 + (n - 0)) (n + 2) _ (omega arith)
          (raise_from-Comes 0 (record w { timer = none }) many))
    | inr early ↦
        simp early (record {
          due = woken-le at now late (ground arith) le;
          many = many;
          within = omega arith;
        })
  ]

  lower-Comes :
      (seconds at now i : ℕ) (w : Workload)
      → at ≤ late
      → length w.gates ≡ n
      → Comes (n + 2 + i) (lower seconds at now i w)
  unfolding lower left
  lower-Comes seconds at now zero w le many =
      sooner (n + 2) (n + 2 + 0) _ (omega arith) (halted-Comes at now w le many)
  lower-Comes seconds at now (suc i) w le many = record {
    due = le;
    many = length-change (down seconds now) i w.gates ∙ many;
    within = omega arith;
  }

  fires-Comes :
      (now : ℕ) (w : Workload) (o : Option ℕ)
      → w.phase ≡ waiting
      → w.timer ≡ o
      → IsTimed late o
      → length w.gates ≡ n
      → Comes (n + 2 - (if leb late now then 1 else 0)) (fires now w o)
  unfolding fires resume left
  fires-Comes now w none p o le many = elim le [ ]
  fires-Comes now w (some at) p o le many = elim (Bool-cases (leb at now)) [
    | inl past ↦ simp past (
        sooner (1 + (n - 0)) _ _ (ground arith)
          (raise_from-Comes 0 (record w { timer = none }) many))
    | inr early ↦
        simp early (stays-Comes _ w waiting p (subst (IsTimed late) (sym o) le) many (ground arith))
  ]

  onward-Comes :
      (now : ℕ) (w : Workload) (p : Phase)
      → w.phase ≡ p
      → IsDue late p w
      → length w.gates ≡ n
      → Comes (left n p - (if leb late now then 1 else 0)) (onward now w p)
  unfolding onward left
  onward-Comes now w idle p d many = stays-Comes _ w idle p tt many (ground arith)
  onward-Comes now w (called seconds) p d many = elim d [ ]
  onward-Comes now w (pausing seconds at) p d many =
      sooner (n + 2 + length w.gates) _ _ (ground arith)
        (lower-Comes seconds at now (length w.gates) w d many)
  onward-Comes now w (lowering seconds at i) p d many =
      sooner (n + 2 + i) _ _ (ground arith) (lower-Comes seconds at now i w d many)
  onward-Comes now w waiting p d many = fires-Comes now w w.timer p refl d many
  onward-Comes now w (raising i) p d many = sooner (1 + (n - suc i)) _ _ (ground arith) (
      raise_from-Comes (suc i) (record w { gates = change hold i w.gates })
        (length-change hold i w.gates ∙ many))
  onward-Comes now w restoring p d many = record { due = tt; many = many; within = ground arith }
  onward-Comes now w ended p d many = elim d [ ]

  -- What is resolved at any times does not put it off.
  pub any-Comes :
      (ts : List ℕ) (k : ℕ) (w : Workload) → Comes k w → Comes k (run (map resolves ts) w)
  unfolding run step
  any-Comes [] k w c = c
  any-Comes (t ∷ ts) k w c =
      any-Comes ts k (onward t w w.phase)
        (sooner _ k _ (ground (arith, c.within)) (onward-Comes t w w.phase refl c.due c.many))

  pub late-Comes :
      (ts : List ℕ) (k : ℕ) (w : Workload)
      → All (λ t. late ≤ t) ts
      → k ≤ length ts
      → Comes k w
      → Comes 0 (run (map resolves ts) w)
  unfolding run step
  late-Comes [] k w a le c = sooner k 0 w le c
  late-Comes (t ∷ ts) k w a le c = late-Comes ts (k - 1) (onward t w w.phase) a.1 (omega arith) (
      sooner _ (k - 1) _ (ground (arith, c.within, a.0))
        (onward-Comes t w w.phase refl c.due c.many))

  pub done : (w : Workload) (p : Phase) → IsDue late p w → left n p ≤ 0 → p ≡ idle
  unfolding left
  done w idle d le = refl
  done w (called seconds) d le = elim d [ ]
  done w (pausing seconds at) d le = let no : ⊥ = omega arith in absurd no
  done w (lowering seconds at i) d le = let no : ⊥ = omega arith in absurd no
  done w waiting d le = let no : ⊥ = omega arith in absurd no
  done w (raising i) d le = let no : ⊥ = omega arith in absurd no
  done w restoring d le = let no : ⊥ = omega arith in absurd no
  done w ended d le = elim d [ ]
