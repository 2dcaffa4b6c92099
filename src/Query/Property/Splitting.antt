-- ===== src/Query/Property/Splitting.antt =====
-- Texts that are split at a character: `String.split` as query/property.ts and query/options.ts use
-- it.
use toa.Prelude.{ℕ, ◌≡◌, refl, false, [], ◌∷◌, ◌++◌, arith}
use toa.Prelude.Texts.{Text}
use toa.Query.Property.{split, push, includes}

pub split_whole : (c : ℕ) (s : Text) → includes c s ≡ false → split c s ≡ s ∷ []
unfolding includes split push
split_whole c [] h = refl
split_whole c (d ∷ s) h = ground (arith, split_whole c s)

pub split-append :
    (c : ℕ) (s t : Text) → includes c s ≡ false → split c (s ++ c ∷ t) ≡ s ∷ split c t
unfolding includes split push
split-append c [] t h = ground arith
split-append c (d ∷ s) t h = ground (arith, split-append c s t)
