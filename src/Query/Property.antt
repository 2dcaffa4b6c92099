-- ===== src/Query/Property.antt =====
-- What an entity declares for the property a query names: query/property.ts.
--
-- An object of properties is an association list, in which `undeclared` is `undefined`.
pub mod Splitting
use toa.Prelude.{
  ℕ, ◌≡◌, Bool, true, false, Option, none, some, List, [], ◌∷◌, ◌==◌, ◌||◌, if◌then◌else◌,
}
use toa.Prelude.Texts.{Text, codes, same_text}

mutual
  pub data Property : Type 0 where
    -- a property without `items`, and one with them
    plain : Option Text → Properties → Property
    holding : Option Text → Properties → Property → Property

  pub data Properties : Type 0 where
    undeclared : Properties
    nothing : Properties
    declaring : Text → Property → Properties → Properties

unfoldable pub is_type : Text → Option Text → Bool
is_type name none = false
is_type name (some type) = same_text type name

unfoldable pub held : Property → Property
unfolding is_type
held (plain type fields) = plain type fields
held (holding type fields item) =
    let inner = held item in
    if is_type (codes "array") type then inner else holding type fields item

-- `Object.hasOwn`, with what is held
unfoldable pub own : Properties → Text → Option Property
own undeclared name = none
own nothing name = none
own (declaring n p ps) name = if same_text n name then some p else own ps name

-- `found?.type === 'object' ? found.properties : undefined`
unfoldable pub fields : Property → Properties
unfolding is_type
fields (plain type fs) = if is_type (codes "object") type then fs else undeclared
fields (holding type fs item) = if is_type (codes "object") type then fs else undeclared

unfoldable pub push : ℕ → List Text → List Text
push c [] = (c ∷ []) ∷ []
push c (p ∷ ps) = (c ∷ p) ∷ ps

-- `text.split(at)`
unfoldable pub split : ℕ → Text → List Text
unfolding push
split at [] = [] ∷ []
split at (c ∷ s) = let rest = split at s in if c == at then [] ∷ rest else push c rest

-- `text.includes(c)`, of a character
unfoldable pub includes : ℕ → Text → Bool
includes c [] = false
includes c (d ∷ s) = d == c || includes c s

abbrev dot : ℕ
dot = b'.'

-- The loop of `property`: what is declared where a path has come to, and what was found there.
unfoldable pub walk : List Text → Properties → Option Property → Option Property
walk [] ps found = found
walk (name ∷ names) ps found = elim (own ps name) [
  | none ↦ none
  | some p ↦ walk names (fields (held p)) (some (held p))
]

unfoldable pub along : Properties → Text → Option Property → Option Property
unfolding walk split includes
along ps path (some p) = some (held p)
along ps path none = if includes dot path then walk (split dot path) ps none else none

unfoldable pub property : Properties → Text → Option Property
unfolding along own
property ps path = along ps path (own ps path)
