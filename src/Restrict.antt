-- ===== src/Restrict.antt =====
-- What a caller receives of the output it asked for: `restrict`, `restricted`, `fitted` and `fit` of
-- runtime/core/source/operation.ts.
--
-- A property's name and its value are numbers. A stream is the values it yields, and whether it is
-- one of objects; that a stream which nobody reads is destroyed is not modelled.
pub mod Exact
mod Tests
use toa.Prelude.{ℕ, Bool, true, false, Option, none, some, List, [], ◌∷◌, map, if◌then◌else◌}
use toa.Prelude.Maps.{contains}

abbrev pub Fields : Type 0
Fields = List (ℕ × ℕ)

-- A value of an array or of a stream: a part of a stream is an entry, a removal or a token.
pub data Item : Type 0 where
  scalar removed token : ℕ → Item
  object entry : Fields → Item

pub data Output : Type 0 where
  absent : Output
  value : ℕ → Output
  record_of : Fields → Output
  array : List Item → Output
  -- whether it is a stream of objects
  stream : Bool → List Item → Output

-- `error` is a code; a reply may be `null`, and a stream may be answered bare.
pub record Reply : Type 0 where
  pub output : Output
  pub error : Option ℕ

pub data Answer : Type 0 where
  null : Answer
  replied : Reply → Answer
  bare : Bool → List Item → Answer
  -- `{}`, where nothing is left of a bare stream
  blank : Answer

pub fit : List ℕ → Fields → Fields
fit allowed [] = []
fit allowed ((k, v) ∷ fs) = if contains k allowed then (k, v) ∷ fit allowed fs else fit allowed fs

pub fitted : List ℕ → Item → Item
unfolding fit
fitted allowed (object fs) = object (fit allowed fs)
fitted allowed (entry fs) = entry (fit allowed fs)
fitted allowed (scalar n) = scalar n
fitted allowed (removed n) = removed n
fitted allowed (token n) = token n

-- `output` names no property, or some.
restrict_output : List ℕ → Output → Output
unfolding fit fitted
restrict_output allowed absent = absent
restrict_output [] output = absent
restrict_output (k ∷ ks) (value n) = value n
restrict_output (k ∷ ks) (record_of fs) = record_of (fit (k ∷ ks) fs)
restrict_output (k ∷ ks) (array xs) = array (map (fitted (k ∷ ks)) xs)
restrict_output (k ∷ ks) (stream true xs) = stream true (map (fitted (k ∷ ks)) xs)
restrict_output (k ∷ ks) (stream false xs) = stream false xs

unwrapped : Output → Answer
unwrapped (stream b xs) = bare b xs
unwrapped _ = blank

pub restrict : Answer → Option (List ℕ) → Answer
unfolding restrict_output unwrapped
restrict answer none = answer
restrict null (some allowed) = null
restrict (replied r) (some allowed) =
    replied (record r { output = restrict_output allowed r.output })
restrict (bare b xs) (some allowed) = unwrapped (restrict_output allowed (stream b xs))
restrict blank (some allowed) = blank
