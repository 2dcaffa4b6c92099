-- ===== src/Entity/Tests.antt =====
-- A pot and its volume: a schema that keeps it at most ten, and a guard that does not let it fall.
use toa.Prelude.{ℕ, ◌≡◌, refl, Bool, true, false, Option, none, some, List, [], ◌∷◌, leb}
use toa.Entity.{
  Record, Schemas, Entity, ok, set, checked, replace, refused_by, is_discarded, set_all, set_each,
  SetResult, keep, cons_set,
}

fills : Record ℕ → Option (Record ℕ) → Bool
fills v none = true
fills v (some o) = leb o.own v.own

abbrev pots : Schemas ℕ
pots = record {
  fits = λ r. leb r.own 10;
  guards = record { name = 1; fit = fills } ∷ [];
  blank = 0;
  region = 3;
}

abbrev stored : Record ℕ
stored = record {
  id = 7;
  version = some 2;
  created = some 10;
  updated = some 20;
  deleted = none;
  region = some 3;
  trailers = none;
  discard = none;
  own = 4;
}

abbrev pot : Entity ℕ
pot = record { deleted = false; origin = some stored; state = stored; mutable = true }

abbrev filled_pot : Record ℕ
filled_pot = record stored { own = 9 }

abbrev tombstone : Record ℕ
tombstone = record stored { deleted = some 30 }

abbrev buried : Entity ℕ
buried = record { deleted = true; origin = some tombstone; state = tombstone; mutable = true }

set-pot : set pots 40 pot filled_pot ≡ ok (replace pots 40 pot filled_pot)
unfolding set checked refused_by fills
set-pot = refl

set-buried : set pots 40 buried tombstone ≡ ok (replace pots 40 buried tombstone)
unfolding set checked refused_by fills
set-buried = refl

set-dead : set pots 40 pot tombstone ≡ ok (replace pots 40 pot tombstone)
unfolding set checked refused_by fills
set-dead = refl

abbrev left : List (Record ℕ)
left = filled_pot ∷ record stored { discard = some true } ∷ []

set_all-left :
    set_all pots 40 (pot ∷ pot ∷ []) left ≡ SetResult.ok (replace pots 40 pot filled_pot ∷ [])
unfolding set_all set_each is_discarded keep cons_set set checked refused_by fills
set_all-left = refl
