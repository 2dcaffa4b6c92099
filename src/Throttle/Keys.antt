-- ===== src/Throttle/Keys.antt =====
-- What a request is keyed by: throttle/Keys.ts, throttle/components and throttle/conditions.
--
-- `createHash` of node:crypto is a parameter, `digest`, a function of what it was fed in sequence.
-- A digest is only compared, so it is a number. The warning that `IP` writes to the log is left out.
use Prim.Native.String.{String, ◌++◌ as str_append}
use text.Mathlib.Text.{◌==◌ as str_eq}
use toa.Prelude.{ℕ, Bool, true, false, ◌&&◌, Option, none, some, List, [], ◌∷◌, ◌==◌, if◌then◌else◌}

pub record Parameter : Type 0 where
  pub name : String
  pub value : String

-- What the components read of a request; `id` is which object it is.
pub record Context : Type 0 where
  pub id : ℕ
  pub ip : Option String
  pub pathname : String
  -- the outer level is whether there is an identity, the inner one whether it has an id
  pub identity : Option (Option String)

-- `Components`: each constructor with what it was built with.
pub data Component : Type 0 where
  ip path identity : Component
  route segment : String → Component

-- `parameters.find(({ name }) => name === this.name)?.value ?? ''`
find : String → List Parameter → String
find name [] = ""
find name (p ∷ ps) = if str_eq p.name name then p.value else find name ps

identified : Option (Option String) → String
identified none = ""
identified (some none) = ""
identified (some (some id)) = id

unfoldable pub part : Component → Context → List Parameter → Option String
unfolding find identified
part ip c ps = c.ip
part path c ps = some c.pathname
part identity c ps = some (identified c.identity)
part (route r) c ps = some r
part (segment name) c ps = some (find name ps)

-- A response is there or not, and states a status or not.
abbrev pub Output : Type 0
Output = Option (Option ℕ)

-- `Conditions` has one member, `status`, with the status that it was built with.
pub data Condition : Type 0 where
  status : ℕ → Condition

is_status : ℕ → Option ℕ → Bool
is_status n none = false
is_status n (some m) = m == n

pub match : Condition → Output → Bool
unfolding is_status
match (status n) none = false
match (status n) (some answered) = is_status n answered

pub record Keys : Type 0 where
  pub components : List Component
  pub conditions : Option (List Condition)

-- What the components feed to the digest, one after another, or nothing where one of them has
-- nothing to say.
unfoldable pub fed : List Component → Context → List Parameter → Option String
fed [] c ps = some ""
fed (x ∷ xs) c ps = elim (part x c ps) [
  | none ↦ none
  | some s ↦ elim (fed xs c ps) [ none ↦ none | some rest ↦ some (str_append s rest) ]
]

unfoldable pub digested : (String → ℕ) → Option String → Option ℕ
digested digest none = none
digested digest (some s) = some (digest s)

unfoldable pub get : (String → ℕ) → Keys → Context → List Parameter → Option ℕ
unfolding digested
get digest keys c ps = digested digest (fed keys.components c ps)

all_match : List Condition → Output → Bool
all_match [] output = true
all_match (x ∷ xs) output = match x output && all_match xs output

pub matches : Keys → Output → Bool
unfolding all_match
matches keys output = elim keys.conditions [ none ↦ true | some cs ↦ all_match cs output ]
