-- ===== src/Restrict/Exact.antt =====
-- What is left of an output, by its properties.
use toa.Prelude.{
  ℕ, ◌≡◌, refl, ap, true, false, Option, none, some, List, [], ◌∷◌, map, arith, All, if◌then◌else◌,
}
use toa.Prelude.Maps.{contains, lookup}
use toa.Restrict.{
  Fields, Item, scalar, removed, token, object, entry, Output, absent, value, record_of, array,
  stream, Answer, null, replied, bare, blank, fit, fitted, restrict_output, restrict,
}

-- Only what is allowed is kept, and of what is allowed everything is, with its value.
lookup-fit :
    (k : ℕ) (allowed : List ℕ) (fs : Fields)
    → lookup k (fit allowed fs) ≡ (if contains k allowed then lookup k fs else none)
unfolding fit
lookup-fit k allowed [] = ground arith
lookup-fit k allowed ((j, v) ∷ fs) =
    ground (arith, lookup-fit k allowed fs, ap (λ i. contains i allowed) {x = k} {y = j})

-- The property of a name that an item shows.
shown_item : ℕ → Item → Option ℕ
shown_item k (object fs) = lookup k fs
shown_item k (entry fs) = lookup k fs
shown_item k _ = none

shown_items : ℕ → List Item → List (Option ℕ)
shown_items k [] = []
shown_items k (x ∷ xs) = shown_item k x ∷ shown_items k xs

-- The values of a property in an answer: of the object it is, of each one in its array, and of each
-- one that its stream of objects yields.
shown_output : ℕ → Output → List (Option ℕ)
unfolding shown_items
shown_output k (record_of fs) = lookup k fs ∷ []
shown_output k (array xs) = shown_items k xs
shown_output k (stream true xs) = shown_items k xs
shown_output k _ = []

pub shown : ℕ → Answer → List (Option ℕ)
unfolding shown_output
shown k (replied r) = shown_output k r.output
shown k (bare true xs) = shown_items k xs
shown k _ = []

items_fitted :
    (k : ℕ) (allowed : List ℕ) (xs : List Item)
    → contains k allowed ≡ true
    → shown_items k (map (fitted allowed) xs) ≡ shown_items k xs
unfolding shown_items shown_item fitted
items_fitted k allowed [] h = refl
items_fitted k allowed (object fs ∷ xs) h =
    ground (arith, lookup-fit k allowed fs, items_fitted k allowed xs h)
items_fitted k allowed (entry fs ∷ xs) h =
    ground (arith, lookup-fit k allowed fs, items_fitted k allowed xs h)
items_fitted k allowed (scalar n ∷ xs) h = ground (arith, items_fitted k allowed xs h)
items_fitted k allowed (removed n ∷ xs) h = ground (arith, items_fitted k allowed xs h)
items_fitted k allowed (token n ∷ xs) h = ground (arith, items_fitted k allowed xs h)

-- Whether nothing is shown of a property.
abbrev pub IsHidden : Option ℕ → Type 0
IsHidden o = o ≡ none

items-IsHidden :
    (k : ℕ) (allowed : List ℕ) (xs : List Item)
    → contains k allowed ≡ false
    → All IsHidden (shown_items k (map (fitted allowed) xs))
unfolding shown_items shown_item fitted
items-IsHidden k allowed [] h = tt
items-IsHidden k allowed (object fs ∷ xs) h =
    (ground (arith, lookup-fit k allowed fs), items-IsHidden k allowed xs h)
items-IsHidden k allowed (entry fs ∷ xs) h =
    (ground (arith, lookup-fit k allowed fs), items-IsHidden k allowed xs h)
items-IsHidden k allowed (scalar n ∷ xs) h = (refl, items-IsHidden k allowed xs h)
items-IsHidden k allowed (removed n ∷ xs) h = (refl, items-IsHidden k allowed xs h)
items-IsHidden k allowed (token n ∷ xs) h = (refl, items-IsHidden k allowed xs h)

output_kept :
    (k : ℕ) (allowed : List ℕ) (o : Output)
    → contains k allowed ≡ true
    → shown_output k (restrict_output allowed o) ≡ shown_output k o
unfolding restrict_output shown_output
output_kept k [] o h = cc
output_kept k (j ∷ js) absent h = refl
output_kept k (j ∷ js) (value n) h = refl
output_kept k (j ∷ js) (record_of fs) h = ground (arith, lookup-fit k (j ∷ js) fs)
output_kept k (j ∷ js) (array xs) h = items_fitted k (j ∷ js) xs h
output_kept k (j ∷ js) (stream true xs) h = items_fitted k (j ∷ js) xs h
output_kept k (j ∷ js) (stream false xs) h = refl

output-IsHidden :
    (k : ℕ) (allowed : List ℕ) (o : Output)
    → contains k allowed ≡ false
    → All IsHidden (shown_output k (restrict_output allowed o))
unfolding restrict_output shown_output
output-IsHidden k [] absent h = tt
output-IsHidden k [] (value n) h = tt
output-IsHidden k [] (record_of fs) h = tt
output-IsHidden k [] (array xs) h = tt
output-IsHidden k [] (stream b xs) h = tt
output-IsHidden k (j ∷ js) absent h = tt
output-IsHidden k (j ∷ js) (value n) h = tt
output-IsHidden k (j ∷ js) (record_of fs) h = (ground (arith, lookup-fit k (j ∷ js) fs), tt)
output-IsHidden k (j ∷ js) (array xs) h = items-IsHidden k (j ∷ js) xs h
output-IsHidden k (j ∷ js) (stream true xs) h = items-IsHidden k (j ∷ js) xs h
output-IsHidden k (j ∷ js) (stream false xs) h = tt

-- A property that the request names is answered as it was, of every object the output is or holds
-- or yields.
pub restrict_kept :
    (k : ℕ) (allowed : List ℕ) (a : Answer)
    → contains k allowed ≡ true
    → shown k (restrict a (some allowed)) ≡ shown k a
unfolding restrict shown
restrict_kept k allowed null h = refl
restrict_kept k allowed (replied r) h = output_kept k allowed r.output h
restrict_kept k [] (bare b xs) h = cc
restrict_kept k (j ∷ js) (bare true xs) h = items_fitted k (j ∷ js) xs h
restrict_kept k (j ∷ js) (bare false xs) h = refl
restrict_kept k allowed blank h = refl

-- Where a request gives the properties that it is to receive, a property that is not one of them
-- is answered of no object that the output is, holds or yields.
pub restrict-IsHidden :
    (k : ℕ) (allowed : List ℕ) (a : Answer)
    → contains k allowed ≡ false
    → All IsHidden (shown k (restrict a (some allowed)))
unfolding restrict shown
restrict-IsHidden k allowed null h = tt
restrict-IsHidden k allowed (replied r) h = output-IsHidden k allowed r.output h
restrict-IsHidden k [] (bare b xs) h = tt
restrict-IsHidden k (j ∷ js) (bare true xs) h = items-IsHidden k (j ∷ js) xs h
restrict-IsHidden k (j ∷ js) (bare false xs) h = tt
restrict-IsHidden k allowed blank h = tt
