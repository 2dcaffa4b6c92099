-- ===== src/Query/Options.antt =====
-- The sorting and the projection of a query: query/options.ts.
pub mod Sorting
pub mod Projection
pub mod Declared
use toa.Prelude.{ℕ, Bool, true, false, Option, none, some, List, [], ◌∷◌, ◌++◌, ◌||◌, if◌then◌else◌}
use toa.Prelude.Texts.{Text, codes, same_text}
use toa.Query.Property.{Property, Properties, property, split}

unfoldable pub has : Text → List Text → Bool
has n [] = false
has n (m ∷ ms) = same_text n m || has n ms

unfoldable pub is_some : Option Property → Bool
is_some none = false
is_some (some p) = true

-- `find(properties, property) !== undefined`
unfoldable pub is_defined : Properties → Text → Bool
unfolding is_some
is_defined ps name = is_some (property ps name)

abbrev pub colon : ℕ
colon = b':'

-- `const [property, direction] = sorting.split(':')`, with `direction ?? 'asc'`. A split is never
-- empty.
unfoldable pub sorted_by : List Text → Text × Text
sorted_by [] = ([], codes "asc")
sorted_by (name ∷ []) = (name, codes "asc")
sorted_by (name ∷ direction ∷ more) = (name, direction)

unfoldable pub also : (Text × Text) → Option (List (Text × Text)) → Option (List (Text × Text))
also s none = none
also s (some more) = some (s ∷ more)

-- `sort`, which raises where it answers `none`
unfoldable pub sort : Properties → List Text → Option (List (Text × Text))
unfolding sorted_by also is_defined
sort ps [] = some []
sort ps (sorting ∷ sortings) =
    let rest = sort ps sortings in
    let by = sorted_by (split colon sorting) in if is_defined ps by.0 then also by rest else none

unfoldable pub are_defined : Properties → List Text → Bool
unfolding is_defined
are_defined ps [] = true
are_defined ps (name ∷ names) =
    let rest = are_defined ps names in if is_defined ps name then rest else false

abbrev pub system : List Text
system = codes "VERSION" ∷ codes "CREATED" ∷ codes "UPDATED" ∷ codes "DELETED" ∷ codes "REGION" ∷ []

unfoldable pub push_all : List Text → List Text → List Text
unfolding has
push_all [] out = out
push_all (name ∷ names) out = push_all names (if has name out then out else out ++ name ∷ [])

-- `projection`, which raises where it answers `none`
unfoldable pub projection : Properties → List Text → Option (List Text)
unfolding are_defined push_all
projection ps declared = if are_defined ps declared then some (push_all system declared) else none

pub record Given : Type 0 where
  pub sort : Option (List Text)
  pub projection : Option (List Text)

pub record Options : Type 0 where
  pub sort : Option (List (Text × Text))
  pub projection : Option (List Text)

unfoldable pub both :
    Option (Option (List (Text × Text))) → Option (Option (List Text)) → Option Options
both none projected = none
both (some sorted) none = none
both (some sorted) (some projected) = some (record { sort = sorted; projection = projected })

-- `if (given.sort !== undefined)`, and the same of a projection
unfoldable pub if_given : {A B : Type 0} → (A → Option B) → Option A → Option (Option B)
if_given read none = some none
if_given read (some given) = elim (read given) [ none ↦ none | some b ↦ some (some b) ]

-- `options`, of the two that it reads: the others are passed on as they are.
unfoldable pub options : Properties → Given → Option Options
unfolding both if_given
options ps given = both (if_given (sort ps) given.sort) (if_given (projection ps) given.projection)
