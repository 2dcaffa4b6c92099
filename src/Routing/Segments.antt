-- ===== src/Routing/Segments.antt =====
-- Paths and templates: RTD/segment.ts.
pub mod Spelling
use toa.Prelude.{
  ℕ, Bool, true, false, Option, none, some, List, [], ◌∷◌, ◌++◌, map, ◌==◌, if◌then◌else◌,
}
use toa.Prelude.Texts.{Text, same_text}

-- A literal has a `fragment`; the others have none. A placeholder may have no name.
pub data Segment : Type 0 where
  literal : Text → Segment
  placeholder : Option Text → Segment
  wildcard : Segment

abbrev pub slash : ℕ
slash = b'/'

push : ℕ → List Text → List Text
push c [] = (c ∷ []) ∷ []
push c (p ∷ ps) = (c ∷ p) ∷ ps

-- `path.split('/')`
split : Text → List Text
unfolding push
split [] = [] ∷ []
split (c ∷ s) = let rest = split s in if c == slash then [] ∷ rest else push c rest

-- `if (parts[parts.length - 1] === '') parts.length--`
trim : List Text → List Text
trim [] = []
trim ([] ∷ []) = []
trim ((c ∷ p) ∷ []) = (c ∷ p) ∷ []
trim (p ∷ q ∷ ps) = p ∷ trim (q ∷ ps)

-- `parts.splice(1)`
rest : List Text → List Text
rest [] = []
rest (p ∷ ps) = ps

unfoldable pub fragment : Text → List Text
unfolding split trim rest
fragment path = rest (trim (split path))

abbrev star : Text
star = b'*' ∷ []

abbrev pub stars : Text
stars = b'*' ∷ b'*' ∷ []

parse : Text → Segment
parse [] = literal []
parse (c ∷ s) =
    if c == b':'
    then placeholder (some s)
    else if same_text (c ∷ s) star
    then placeholder none
    else if same_text (c ∷ s) stars
    then wildcard
    else literal (c ∷ s)

pub segment : Text → List Segment
unfolding fragment parse
segment path = map parse (fragment path)

piece : Segment → Text
piece (literal s) = s
piece wildcard = stars
piece (placeholder none) = star
piece (placeholder (some name)) = b':' ∷ name

-- `join('/')`
pub join : List Text → Text
join [] = []
join (p ∷ []) = p
join (p ∷ q ∷ ps) = p ++ slash ∷ join (q ∷ ps)

pub template : List Segment → Text
unfolding piece join
template segments = slash ∷ join (map piece segments)

-- `variables`: what a template takes, by name.
pub variables : List Segment → List (Text × Text)
variables [] = []
variables (literal s ∷ ss) = variables ss
variables (wildcard ∷ ss) = (stars, []) ∷ variables ss
variables (placeholder none ∷ ss) = variables ss
variables (placeholder (some name) ∷ ss) = (name, []) ∷ variables ss
