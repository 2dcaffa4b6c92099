-- ===== src/Query/Options/Sorting.antt =====
-- How the order of a read is spelled: `sort` of query/options.ts.
use toa.Prelude.{◌≡◌, refl, ap, ◌∙◌, true, false, some, List, [], ◌∷◌, ◌++◌, map, All}
use toa.Prelude.Texts.{Text}
use toa.Query.Property.{Properties, includes}
use toa.Query.Property.Splitting.{split_whole, split-append}
use toa.Query.Options.{sort, sorted_by, also, is_defined, colon}

-- A property and a direction, as a request spells them.
abbrev pub spelled : Text × Text → Text
spelled (name, direction) = name ++ colon ∷ direction

abbrev pub IsSortable : Properties → Text × Text → Type 0
IsSortable ps (name, direction) =
    (includes colon name ≡ false)
    × ((includes colon direction ≡ false) × (is_defined ps name ≡ true))

-- Properties that are declared, each with a direction, are sorted by as they were spelled, if no
-- colon is in them.
pub sort-spelled :
    (ps : Properties) (by : List (Text × Text))
    → All (IsSortable ps) by
    → sort ps (map spelled by) ≡ some by
unfolding sort sorted_by also
sort-spelled ps [] h = refl
sort-spelled ps ((name, direction) ∷ by) ((plain, (whole, defined)), hs) =
    let parts =
      split-append colon name direction plain
      ∙ ap (λ w. name ∷ w) (split_whole colon direction whole) in
    simp (parts, defined, sort-spelled ps by hs) refl
