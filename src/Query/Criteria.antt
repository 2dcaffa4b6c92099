-- ===== src/Query/Criteria.antt =====
-- The values of a criteria: query/criteria.ts.
--
-- The parser of expressions is another package's: of an expression it says what literals stand in
-- it and what it makes of their values, or that it is malformed. So is `Number`, the language's: of
-- a text it says which number it is, if it is a finite one.
pub mod Typed
use toa.Prelude.{
  ℕ, Bool, true, false, not, ◌&&◌, ◌||◌, Option, none, some, List, [], ◌∷◌, ◌==◌, leb,
  if◌then◌else◌,
}
use toa.Prelude.Texts.{Text, codes, same_text}
use toa.Query.Property.{Property, Properties, plain, holding, property}

pub record Literal : Type 0 where
  pub text : Text
  pub quoted : Bool
  pub selector : Text
  pub operator : Text

pub record Number : Type 0 where
  -- which number it is, and whether it is whole
  pub value : ℕ
  pub whole : Bool

pub data Value : Type 0 where
  null : Value
  text : Text → Value
  number : Number → Value
  truth : Bool → Value

pub data Refusal : Type 0 where
  -- the selector is not defined, no value is compared by an order, a value is not of the type
  undefined ordered mistyped : Refusal
  -- what the parser raises
  malformed : Refusal

pub data Result {ℓ} (A : Type ℓ) : Type ℓ where
  ok : A → Result A
  refused : Refusal → Result A

pub one_of : Text → List Text → Bool
one_of t [] = false
one_of t (s ∷ ts) = same_text t s || one_of t ts

abbrev pub equality : List Text
equality = codes "==" ∷ codes "!=" ∷ codes "=in=" ∷ codes "=out=" ∷ []

-- What `trim` takes off.
abbrev is_space : ℕ → Bool
is_space c =
    leb 9 c && leb c 13
    || c == 32
    || c == 160
    || c == 5760
    || leb 8192 c && leb c 8202
    || c == 8232
    || c == 8233
    || c == 8239
    || c == 8287
    || c == 12288
    || c == 65279

-- `value.trim() === ''`
is_blank : Text → Bool
is_blank [] = true
is_blank (c ∷ t) = is_space c && is_blank t

pub type_of : Property → Option Text
type_of (plain type fields) = type
type_of (holding type fields item) = type

module _ (numeric : Text → Option Number) where
  -- `finite`
  finite : Text → Option Number
  unfolding is_blank
  finite t = if is_blank t then none else numeric t

  numbered : Option Number → Result Value
  numbered none = refused mistyped
  numbered (some n) = ok (number n)

  integral : Option Number → Result Value
  integral none = refused mistyped
  integral (some n) = if n.whole then ok (number n) else refused mistyped

  boolean : Text → Result Value
  boolean t =
      if same_text t (codes "true")
      then ok (truth true)
      else if same_text t (codes "false")
      then ok (truth false)
      else refused mistyped

  -- `CAST[property.type]`, and its call
  cast : Option Text → Text → Result Value
  unfolding finite numbered integral boolean
  cast none t = ok (text t)
  cast (some type) t =
      if same_text type (codes "number")
      then numbered (finite t)
      else if same_text type (codes "integer")
      then integral (finite t)
      else if same_text type (codes "boolean")
      then boolean t
      else ok (text t)

  is_nothing : Literal → Bool
  is_nothing l =
      not l.quoted && (same_text l.text (codes "null") || same_text l.text (codes "undefined"))

  -- A literal, by the type of what it is compared with.
  read_as : Option Text → Literal → Result Value
  unfolding is_nothing cast one_of
  read_as type l =
      if is_nothing l
      then (if one_of l.operator equality then ok null else refused ordered)
      else cast type l.text

  read_found : Option Property → Literal → Result Value
  unfolding read_as type_of
  read_found none l = refused undefined
  read_found (some p) l = read_as (type_of p) l

  -- `read`, where an entity's properties are declared, and where they are not
  unfoldable pub read : Option Properties → Literal → Result Value
  unfolding read_found
  read none l = read_as none l
  read (some ps) l = read_found (property ps l.selector) l

  read_all : Option Properties → List Literal → Result (List Value)
  unfolding read
  read_all ps [] = ok []
  read_all ps (l ∷ ls) =
      let rest = read_all ps ls in
      elim (read ps l) [
        | refused e ↦ refused e
        | ok v ↦ elim rest [ refused e ↦ refused e | ok vs ↦ ok (v ∷ vs) ]
      ]

  built : {N : Type 0} → (List Value → N) → Result (List Value) → Result N
  built make (refused e) = refused e
  built make (ok vs) = ok (make vs)

  -- `criteria`
  pub criteria :
      {N : Type 0}
      → (Text → Option (List Literal × (List Value → N)))
      → Option Properties
      → Text
      → Result N
  unfolding read_all built
  criteria parse ps expression = elim (parse expression) [
    | none ↦ refused malformed
    | some (literals, make) ↦ built make (read_all ps literals)
  ]
