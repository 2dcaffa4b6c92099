-- ===== src/Routing/Tree.antt =====
-- The tree of nodes and routes, and what matches in it: RTD/Node.ts, RTD/Route.ts and RTD/Tree.ts.
--
-- A route is its segments and its node; what a route derives from its segments is a function of
-- them here. A method is a number, by a verb that is one. `Date.now()` is an argument of a search,
-- and so is `decodeURIComponent`, `none` where it throws; that it answers "undefined" of an
-- undefined fragment is the language's.

pub mod Search
pub mod Ways
pub mod Short
pub mod Merge
use toa.Prelude.{
  ℕ, suc, ◌+◌, ◌-◌, Bool, true, false, not, ◌&&◌, ◌||◌, Option, none, some, List, [], ◌∷◌, ◌++◌,
  map, length, take, drop, ltb, leb, ◌==◌, if◌then◌else◌,
}
use toa.Prelude.Texts.{Text, codes, same_text}
use toa.Routing.Segments.{
  Segment, literal, placeholder, wildcard, fragment, slash, stars, join, template,
}

pub record Properties : Type 0 where
  pub intermediate : Bool
  pub protected : Bool
  pub forward : Option Text
  -- `none` is Infinity
  pub expiration : Option ℕ
  pub methods : List (ℕ × ℕ)

mutual
  pub data Node : Type 0 where
    node : Properties → Routes → Node

  pub data Routes : Type 0 where
    nil : Routes
    route : List Segment → Node → Routes → Routes

abbrev pub Parameters : Type 0
Parameters = List (Text × Text)

-- `Route.root` of some route
unfoldable pub has_root : Routes → Bool
has_root nil = false
has_root (route [] n rs) = true
has_root (route (s ∷ ss) n rs) = has_root rs

is_variable : Segment → Bool
is_variable (literal s) = false
is_variable (placeholder name) = true
is_variable wildcard = true

-- `Route.variables`
pub count_variables : List Segment → ℕ
unfolding is_variable
count_variables [] = 0
count_variables (s ∷ ss) = (if is_variable s then 1 else 0) + count_variables ss

-- `Route.wildcard`
unfoldable pub has_wildcard : List Segment → Bool
has_wildcard [] = false
has_wildcard (literal s ∷ ss) = has_wildcard ss
has_wildcard (placeholder name ∷ ss) = has_wildcard ss
has_wildcard (wildcard ∷ ss) = true

-- What the comparison of `sort` answers is not positive.
precedes : List Segment → List Segment → Bool
precedes a b =
    if count_variables a == count_variables b
    then leb (length b) (length a)
    else ltb (count_variables a) (count_variables b)

insert_route : List Segment → Node → Routes → Routes
unfolding precedes
insert_route ss n nil = route ss n nil
insert_route ss n (route ts m rs) =
    if precedes ss ts then route ss n (route ts m rs) else route ts m (insert_route ss n rs)

-- `sort`, which is stable.
pub sort : Routes → Routes
unfolding insert_route
sort nil = nil
sort (route ss n rs) = insert_route ss n (sort rs)

-- The constructor.
pub new : Routes → List (ℕ × ℕ) → Bool → Option Text → Option ℕ → Node
new rs methods protected forward expiration =
    node
      (record {
        intermediate = has_root rs;
        protected = protected;
        forward = forward;
        expiration = expiration;
        methods = methods;
      })
      (sort rs)

unfoldable pub expired : ℕ → Option ℕ → Bool
expired now none = false
expired now (some t) = leb t now

pub decode : (Text → Option Text) → Option Text → Text
decode uri none = codes "undefined"
decode uri (some fragment) = elim (uri fragment) [ none ↦ fragment | some value ↦ value ]

abbrev pub head : List Text → Option Text
head [] = none
head (f ∷ fs) = some f

pub is_head : Text → List Text → Bool
is_head s [] = false
is_head s (f ∷ fs) = same_text s f

-- The loop of `Route.match`: whether every segment fits, and the parameters so far. `tail` is what a
-- wildcard takes.
pub collect :
    (Text → Option Text) → Text → List Segment → List Text → Parameters → Bool × Parameters
unfolding is_head decode
collect uri tail [] fs ps = (true, ps)
collect uri tail (literal s ∷ ss) fs ps =
    let more = collect uri tail ss (drop 1 fs) ps in if is_head s fs then more else (false, ps)
collect uri tail (placeholder none ∷ ss) fs ps = collect uri tail ss (drop 1 fs) ps
collect uri tail (placeholder (some name) ∷ ss) fs ps =
    collect uri tail ss (drop 1 fs) (ps ++ (name, decode uri (head fs)) ∷ [])
collect uri tail (wildcard ∷ ss) fs ps = collect uri tail ss (drop 1 fs) (ps ++ (stars, tail) ∷ [])

-- The arrays that a search pushes into.
pub record Scratch : Type 0 where
  pub parameters : Parameters
  pub segments : List Segment

-- How a route takes a path, before its node is searched.
pub data Entry : Type 0 where
  refused exact nested : Scratch → Entry

-- `fragments.slice(this.segments.length - 1).map(decode).join('/')`
pub tail_of : (Text → Option Text) → List Segment → List Text → Text
unfolding decode
tail_of uri ss fs = join (map (λ f. decode uri (some f)) (drop (length ss - 1) fs))

pub ends : Properties → List Segment → List Text → Bool
ends p ss fs = (length ss == length fs && not p.intermediate) || has_wildcard ss

pub enter : (Text → Option Text) → ℕ → List Segment → Properties → List Text → Scratch → Entry
unfolding collect tail_of ends expired
enter uri now ss p fs st =
    let (good, ps) = collect uri (tail_of uri ss fs) ss fs st.parameters in
    let st' : Scratch = record { parameters = ps; segments = st.segments ++ ss } in
    if expired now p.expiration
    then refused st
    else if not good
    then refused st'
    else if ends p ss fs
    then exact st'
    else nested st'

pub cut : ℕ → ℕ → Scratch → Scratch
cut mark pieces st = record {
  parameters = take mark st.parameters;
  segments = take pieces st.segments;
}

-- What a search answers: the node, and the template it was reached by; its parameters are those of
-- the scratch that is left.
abbrev pub Answer : Type 0
Answer = Option (Node × Text) × Scratch

proceed : Node → (Scratch → Answer) → Entry → Answer
proceed n below (refused st) = (none, st)
proceed n below (exact st) = (some (n, template st.segments), st)
proceed n below (nested st) = below st

otherwise : ℕ → ℕ → (Scratch → Answer) → Answer → Answer
unfolding cut
otherwise mark pieces next (some m, st) = (some m, st)
otherwise mark pieces next (none, st) = next (cut mark pieces st)

-- The loop of `Node.match`, with `Route.match` and `matchNested` of each route.
pub match_routes : (Text → Option Text) → ℕ → ℕ → ℕ → Routes → List Text → Scratch → Answer
unfolding enter proceed otherwise
match_routes uri now mark pieces nil fs st = (none, st)
match_routes uri now mark pieces (route ss (node p ns) rs) fs st =
    otherwise mark pieces (λ st'. match_routes uri now mark pieces rs fs st')
      (proceed (node p ns)
        (λ st'.
          match_routes uri now (length st'.parameters) (length st'.segments) ns
            (drop (length ss) fs) st')
        (enter uri now ss p fs st))

pub record Match : Type 0 where
  pub found : Node
  pub parameters : Parameters
  pub path : Text

abbrev empty : Scratch
empty = record { parameters = []; segments = [] }

matched : Answer → Option Match
matched (none, st) = none
matched (some (n, t), st) = some (record { found = n; parameters = st.parameters; path = t })

-- `Tree.match`
pub match : (Text → Option Text) → ℕ → Node → Text → Option Match
unfolding match_routes matched
match uri now (node p rs) path =
    if same_text path (slash ∷ [])
    then some (record { found = node p rs; parameters = []; path = slash ∷ [] })
    else matched (match_routes uri now 0 0 rs (fragment path) empty)
