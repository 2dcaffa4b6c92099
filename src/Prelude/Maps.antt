-- ===== src/Prelude/Maps.antt =====
-- The source's `Map` and `Set` by number keys, in insertion order as the source iterates them.
-- Identifiers that the program only compares are numbers here.
use mathlib.Core.Path.{◌≡◌, refl}
use mathlib.Core.Bool.{Bool, true, false, ◌||◌}
use mathlib.Core.Option.{Option, none, some}
use mathlib.Core.List.{List, [], ◌∷◌}
use Prim.Native.Nat.{ℕ, ◌≤◌, ◌+◌}
use native.Mathlib.Omega.{arith}
use toa.Prelude.Tests.{◌==◌, if◌then◌else◌}
use toa.Prelude.Lists.{length}

module _ {ℓ} {V : Type ℓ} where
  -- `map.get(key)`
  abbrev pub lookup : ℕ → List (ℕ × V) → Option V
  lookup k [] = none
  lookup k ((j, v) ∷ m) = if k == j then some v else lookup k m

  -- `map.set(key, value)`: an old key keeps its place
  abbrev pub insert : ℕ → V → List (ℕ × V) → List (ℕ × V)
  insert k v [] = (k, v) ∷ []
  insert k v (e ∷ m) = if k == e.0 then (k, v) ∷ m else e ∷ insert k v m

  -- `map.delete(key)`, on a map, whose keys are distinct
  abbrev pub erase : ℕ → List (ℕ × V) → List (ℕ × V)
  erase k [] = []
  erase k (e ∷ m) = if k == e.0 then erase k m else e ∷ erase k m

  pub lookup-insert :
      (j k : ℕ) (v : V) (m : List (ℕ × V))
      → lookup j (insert k v m) ≡ (if j == k then some v else lookup j m)
  lookup-insert j k v [] = refl
  lookup-insert j k v (e ∷ m) = ground (arith, lookup-insert j k v m)

  pub lookup-erase :
      (j k : ℕ) (m : List (ℕ × V)) → lookup j (erase k m) ≡ (if j == k then none else lookup j m)
  lookup-erase j k [] = ground arith
  lookup-erase j k (e ∷ m) = ground (arith, lookup-erase j k m)

-- `set.has(key)`, and `list.includes(key)`
abbrev pub contains : ℕ → List ℕ → Bool
contains k [] = false
contains k (j ∷ s) = k == j || contains k s

-- `set.add(key)`
abbrev pub add : ℕ → List ℕ → List ℕ
add k [] = k ∷ []
add k (j ∷ s) = if k == j then j ∷ s else j ∷ add k s

-- `set.delete(key)`
abbrev pub remove : ℕ → List ℕ → List ℕ
remove k [] = []
remove k (j ∷ s) = if k == j then remove k s else j ∷ remove k s

pub contains-add : (j k : ℕ) (s : List ℕ) → contains j (add k s) ≡ (j == k || contains j s)
contains-add j k [] = refl
contains-add j k (i ∷ s) = ground (arith, contains-add j k s)

pub contains-remove :
    (j k : ℕ) (s : List ℕ) → contains j (remove k s) ≡ (if j == k then false else contains j s)
contains-remove j k [] = ground arith
contains-remove j k (i ∷ s) = ground (arith, contains-remove j k s)

pub length-add-le : (k : ℕ) (s : List ℕ) → length (add k s) ≤ length s + 1
length-add-le k [] = omega arith
length-add-le k (j ∷ s) = ground (arith, length-add-le k s)

pub length-remove-le : (k : ℕ) (s : List ℕ) → length (remove k s) ≤ length s
length-remove-le k [] = omega arith
length-remove-le k (j ∷ s) = ground (arith, length-remove-le k s)

pub length-remove-lt :
    (k : ℕ) (s : List ℕ) → contains k s ≡ true → length (remove k s) + 1 ≤ length s
length-remove-lt k [] h = cc
length-remove-lt k (j ∷ s) h = ground (arith, length-remove-lt k s, length-remove-le k s)

-- Keys that are not there twice.
abbrev pub IsKeyed : {V : Type 0} → List (ℕ × V) → Type 0
IsKeyed [] = Unit
IsKeyed ((k, v) ∷ m) = (lookup k m ≡ none) × IsKeyed m
