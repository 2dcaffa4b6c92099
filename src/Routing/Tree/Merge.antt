-- ===== src/Routing/Tree/Merge.antt =====
-- A branch that is merged into the tree: `Node.merge`, `replace`, `append`, `route` and `touch`, and
-- `Route.equals`.
--
-- The nodes that a merge answers, to be touched later, are the ones that it leaves; which of them are
-- one object is not modelled, nor is the closing of the methods that are replaced.
use toa.Prelude.{
  ℕ, ◌≡◌, refl, sym, ◌∙◌, Bool, true, false, ◌&&◌, ◌||◌, some, List, [], ◌∷◌, if◌then◌else◌, arith,
  Bool-cases, inl, inr,
}
use toa.Prelude.Texts.{same_text}
use toa.Prelude.Maps.{insert}
use toa.Routing.Segments.{Segment, literal, placeholder, wildcard}
use toa.Routing.Tree.{Node, node, Routes, nil, route, Properties, has_root, insert_route, sort}

same_fragment : Segment → Segment → Bool
same_fragment (literal s) (literal t) = same_text s t
same_fragment (literal s) (placeholder n) = false
same_fragment (literal s) wildcard = false
same_fragment (placeholder n) (literal t) = false
same_fragment (placeholder n) (placeholder m) = true
same_fragment (placeholder n) wildcard = true
same_fragment wildcard (literal t) = false
same_fragment wildcard (placeholder n) = true
same_fragment wildcard wildcard = true

pub equals : List Segment → List Segment → Bool
unfolding same_fragment
equals [] [] = true
equals [] (t ∷ ts) = false
equals (s ∷ ss) [] = false
equals (s ∷ ss) (t ∷ ts) = same_fragment s t && equals ss ts

-- `route`: merged into the route that equals it, or put behind them all.
pub place : Routes → List Segment → Node → (Node → Node) → Routes
unfolding equals
place nil ss n f = route ss n nil
place (route ts m rs) ss n f =
    if equals ss ts then route ts (f m) rs else route ts m (place rs ss n f)

assign : List (ℕ × ℕ) → List (ℕ × ℕ) → List (ℕ × ℕ)
assign methods [] = methods
assign methods ((verb, method) ∷ more) = assign (insert verb method methods) more

mutual
  unfolding place assign

  pub merge : Node → Node → Node
  merge (node p rs) (node q qs) =
      if p.protected
      then node (record p { intermediate = q.intermediate; methods = assign p.methods q.methods })
          (sort (append rs qs))
      else node
          (record p {
            intermediate = q.intermediate;
            expiration = q.expiration;
            forward = q.forward;
            methods = q.methods;
          })
          (sort qs)

  pub append : Routes → Routes → Routes
  append rs nil = rs
  append rs (route ss n qs) = append (place rs ss n (λ m. merge m n)) qs

pub touch : ℕ → Node → Node
touch expiration (node p rs) =
    node (if p.protected then p else record p { expiration = some expiration }) rs

pub properties : Node → Properties
properties (node p rs) = p

pub routes : Node → Routes
routes (node p rs) = rs

is_root : List Segment → Bool
is_root [] = true
is_root (s ∷ ss) = false

has_root-route :
    (ss : List Segment) (n : Node) (rs : Routes)
    → has_root (route ss n rs) ≡ (is_root ss || has_root rs)
unfolding has_root is_root
has_root-route [] n rs = refl
has_root-route (s ∷ ss) n rs = refl

is_root-equals : (ss ts : List Segment) → equals ss ts ≡ true → is_root ss ≡ is_root ts
unfolding equals is_root
is_root-equals [] [] h = refl
is_root-equals [] (t ∷ ts) h = cc
is_root-equals (s ∷ ss) [] h = cc
is_root-equals (s ∷ ss) (t ∷ ts) h = refl

or_comm : (a b : Bool) → (a || b) ≡ (b || a)
or_comm true true = refl
or_comm true false = refl
or_comm false true = refl
or_comm false false = refl

has_root-place :
    (rs : Routes) (ss : List Segment) (n : Node) (f : Node → Node)
    → has_root (place rs ss n f) ≡ (has_root rs || is_root ss)
unfolding place
has_root-place nil ss n f = has_root-route ss n nil ∙ or_comm (is_root ss) (has_root nil)
has_root-place (route ts m rs) ss n f = elim (Bool-cases (equals ss ts)) [
  | inl same ↦ rw same (
      ground (arith, has_root-route ts (f m) rs, has_root-route ts m rs, is_root-equals ss ts same))
  | inr other ↦ rw other (
      ground (
        arith,
        has_root-route ts m rs,
        has_root-route ts m (place rs ss n f),
        has_root-place rs ss n f,
      ))
]

has_root-append : (rs qs : Routes) → has_root (append rs qs) ≡ (has_root rs || has_root qs)
unfolding append
has_root-append rs nil = sym (or_comm (has_root rs) (has_root nil) ∙ (unfold has_root in refl))
has_root-append rs (route ss n qs) = ground (
  arith,
  has_root-append (place rs ss n (λ m. merge m n)) qs,
  has_root-place rs ss n (λ m. merge m n),
  has_root-route ss n qs,
)

has_root-insert_route :
    (ss : List Segment) (n : Node) (rs : Routes)
    → has_root (insert_route ss n rs) ≡ (is_root ss || has_root rs)
unfolding insert_route
has_root-insert_route ss n nil = has_root-route ss n nil
has_root-insert_route ss n (route ts m rs) = ground (
  arith,
  has_root-route ss n (route ts m rs),
  has_root-route ts m rs,
  has_root-route ts m (insert_route ss n rs),
  has_root-insert_route ss n rs,
)

has_root-sort : (rs : Routes) → has_root (sort rs) ≡ has_root rs
unfolding sort
has_root-sort nil = refl
has_root-sort (route ss n rs) =
    ground (arith, has_root-insert_route ss n (sort rs), has_root-sort rs, has_root-route ss n rs)

-- Merging a branch without a `/` route into a protected node that has one leaves the node with its
-- `/` route and not intermediate: the path of the node is answered by the node from then on, and not
-- by that route.
pub merge_forgets :
    (p q : Properties) (rs qs : Routes)
    → p.protected ≡ true
    → has_root rs ≡ true
    → has_root qs ≡ false
    → q.intermediate ≡ has_root qs
    → (has_root (routes (merge (node p rs) (node q qs))) ≡ true)
      × ((properties (merge (node p rs) (node q qs))).intermediate ≡ false)
unfolding merge routes properties
merge_forgets p q rs qs h r n i =
    rw h (ground (arith, has_root-sort (append rs qs), has_root-append rs qs), i ∙ n)
