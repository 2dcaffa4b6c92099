-- ===== src/Query/Tests.antt =====
-- A read of a pot, which has a volume and a size of an array of objects.
use toa.Prelude.{
  ℕ, ◌≤◌, Option, length, if◌then◌else◌, ◌≡◌, refl, none, some, List, [], ◌∷◌, map, All, true,
  false,
}
use toa.Prelude.Texts.{Text, codes}
use toa.Query.Property.{
  Properties, plain, holding, undeclared, nothing, declaring, property, walk, along, own, held,
  fields, is_type, split, push, includes,
}
use toa.Query.Property
use toa.Query.Criteria.{
  Literal, Number, Value, number, Result, ok, refused, mistyped, undefined, read, type_of,
}
use toa.Query.Criteria.Typed.{Reads, read-Reads}
use toa.Query.Cache.{limit}
use toa.Query.Parse.{
  Passed, Requested, parse, parsed, parse_all, options_of, is_empty, is_given, wanted,
}
use toa.Query.Parse.Alone.{IsDeclared, parse_all-alone}
use toa.Query.Options.{
  has, push_all, are_defined, is_defined, is_some, projection, Given, options, if_given, both, sort,
  sorted_by, also,
}

abbrev pot : Properties
pot = declaring (codes "volume") (plain (some (codes "number")) undeclared) (
    declaring (codes "sizes")
      (holding (some (codes "array")) undeclared (
        plain (some (codes "object"))
          (declaring (codes "width") (plain (some (codes "number")) undeclared) nothing)))
      nothing)

of_a_path : property pot (codes "sizes.width") ≡ some (plain (some (codes "number")) undeclared)
unfolding property along own walk held fields is_type split push includes
of_a_path = refl

not_declared : property pot (codes "sizes.depth") ≡ none
unfolding property along own walk held fields is_type split push includes
not_declared = refl

defined_path : is_defined pot (codes "sizes.width") ≡ true
unfolding is_defined is_some property along own walk held fields is_type split push includes
defined_path = refl

defined_volume : is_defined pot (codes "volume") ≡ true
unfolding is_defined is_some property along own walk held fields is_type split push includes
defined_volume = refl

abbrev order : List (Text × Text)
order = (codes "volume", codes "desc") ∷ (codes "sizes.width", codes "asc") ∷ []

answered :
    projection pot (codes "volume" ∷ codes "sizes" ∷ [])
    ≡ some (
        codes "volume"
        ∷ codes "sizes"
        ∷ codes "VERSION"
        ∷ codes "CREATED"
        ∷ codes "UPDATED"
        ∷ codes "DELETED"
        ∷ codes "REGION"
        ∷ [])
unfolding projection are_defined push_all has is_defined is_some property along own walk held fields
    is_type split push includes
answered = refl

abbrev dozen : Text → Option Number
dozen t = some (record { value = 12; whole = true })

abbrev by_volume : Literal
by_volume = record {
  text = codes "12";
  quoted = false;
  selector = codes "volume";
  operator = codes ">=";
}

abbrev twelve : Value
twelve = number (record { value = 12; whole = true })

volume_read : read dozen (some pot) by_volume ≡ ok twelve
unfolding read property held
volume_read = refl

read-Reads_example :
    (p : Property.Property) × (property pot (codes "volume") ≡ some p)
    × Reads dozen (type_of p) by_volume twelve
read-Reads_example = read-Reads dozen pot by_volume twelve volume_read

abbrev length_of : Text → Result ℕ
length_of t = if includes b';' t then refused mistyped else ok (length t)

abbrev nothing_passed : Passed
nothing_passed = record {
  omit = none;
  limit = none;
  sample = none;
  deleted = none;
  token = none;
  stop = none;
}

abbrev asked : Option Text → Given → Requested
asked expression g = record {
  id = none;
  ids = none;
  version = none;
  criteria = expression;
  search = none;
  given = g;
  passed = nothing_passed;
}

abbrev by_width : Given
by_width = record {
  sort = some (codes "volume:desc" ∷ codes "sizes.width" ∷ []);
  projection = some (codes "volume" ∷ []);
}

abbrev by_depth : Given
by_depth = record { sort = some (codes "sizes.depth" ∷ []); projection = none }

abbrev queries : List Requested
queries =
    asked (some (codes "a==1")) by_width
    ∷ asked (some (codes "a==1")) by_depth
    ∷ asked (some (codes "a==1;")) (record { sort = none; projection = none })
    ∷ asked none by_width
    ∷ []

-- A sorting by what is not declared is refused, and nothing is kept.
depth_refused :
    parse length_of pot (asked (some (codes "a==1")) by_depth) [] ≡ (refused undefined, [])
unfolding parse parsed options_of is_empty is_given wanted options if_given both sort sorted_by also
    is_defined is_some property along own walk held fields is_type split push includes
depth_refused = refl

parse_all-alone_example :
    ((parse_all length_of pot queries []).0 ≡ map (λ q. (parse length_of pot q []).0) queries)
    × ((length (parse_all length_of pot queries []).1 ≤ limit)
        × All (IsDeclared pot) (parse_all length_of pot queries []).0)
parse_all-alone_example = parse_all-alone length_of pot queries
