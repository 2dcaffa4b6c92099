-- ===== src/Routing/Tree/Search.antt =====
-- The search of a path without the arrays that it shares, and that the source's search is this one.
use mathlib.Core.List.{append-nil, append_assoc}
use mathlib.Core.Path.{ap₂}
use toa.Prelude.{
  ℕ, ◌≡◌, refl, ap, sym, ◌∙◌, not, Option, none, some, List, [], ◌∷◌, ◌++◌, length, take, drop,
  if◌then◌else◌, arith, Bool-cases, inl, inr,
}
use toa.Prelude.Texts.{Text, same_text}
use toa.Routing.Segments.{Segment, literal, placeholder, wildcard, template, fragment, slash}
use toa.Routing.Tree.{
  Node, node, Routes, nil, route, Properties, Parameters, Scratch, Entry, refused, exact, nested,
  Answer, Match, collect, is_head, expired, ends, tail_of, enter, cut, proceed, otherwise,
  match_routes, matched, match, empty,
}

-- How a route takes a path.
pub data Plan : Type 0 where
  shut : Plan
  misfit stop down : Parameters → Plan

unfoldable pub plan : (Text → Option Text) → ℕ → List Segment → Properties → List Text → Plan
plan uri now ss p fs =
    let (good, ps) = collect uri (tail_of uri ss fs) ss fs [] in
    if expired now p.expiration
    then shut
    else if not good
    then misfit ps
    else if ends p ss fs
    then stop ps
    else down ps

-- What is found: the node, what the path gives for the variables on the way, and the way.
abbrev pub Found : Type 0
Found = Option (Node × Parameters × List Segment)

unfoldable pub under : Parameters → List Segment → Found → Found
under ps ss none = none
under ps ss (some (n, qs, ts)) = some (n, ps ++ qs, ss ++ ts)

unfoldable pub chosen : Node → List Segment → Found → Plan → Found
unfolding under
chosen n ss below shut = none
chosen n ss below (misfit ps) = none
chosen n ss below (stop ps) = some (n, ps, ss)
chosen n ss below (down ps) = under ps ss below

unfoldable pub or_else : Found → Found → Found
or_else none f = f
or_else (some x) f = some x

-- The first route that leads to a node, and where it leads.
unfoldable pub find : (Text → Option Text) → ℕ → Routes → List Text → Found
unfolding plan chosen or_else
find uri now nil fs = none
find uri now (route ss (node p ns) rs) fs =
    or_else (chosen (node p ns) ss (find uri now ns (drop (length ss) fs)) (plan uri now ss p fs))
      (find uri now rs fs)

extend : Scratch → Parameters → List Segment → Scratch
extend st ps ss = record { parameters = st.parameters ++ ps; segments = st.segments ++ ss }

collect-append :
    (uri : Text → Option Text) (tail : Text) (ss : List Segment) (fs : List Text)
    (xs ps : Parameters)
    → collect uri tail ss fs (xs ++ ps)
      ≡ ((collect uri tail ss fs ps).0, xs ++ (collect uri tail ss fs ps).1)
unfolding collect
collect-append uri tail [] fs xs ps = refl
collect-append uri tail (literal s ∷ ss) fs xs ps = elim (Bool-cases (is_head s fs)) [
  | inl same ↦ rw same (collect-append uri tail ss (drop 1 fs) xs ps)
  | inr other ↦ rw other refl
]
collect-append uri tail (placeholder none ∷ ss) fs xs ps =
    collect-append uri tail ss (drop 1 fs) xs ps
collect-append uri tail (placeholder (some name) ∷ ss) fs xs ps =
    rw append_assoc (collect-append uri tail ss (drop 1 fs) xs _)
collect-append uri tail (wildcard ∷ ss) fs xs ps =
    rw append_assoc (collect-append uri tail ss (drop 1 fs) xs _)

take-append {ℓ} : {A : Type ℓ} (xs ys : List A) → take (length xs) (xs ++ ys) ≡ xs
take-append [] ys = refl
take-append (x ∷ xs) ys = ap (λ t. x ∷ t) (take-append xs ys)

cut-extend :
    (st : Scratch) (ps : Parameters) (ss : List Segment)
    → cut (length st.parameters) (length st.segments) (extend st ps ss) ≡ st
unfolding cut extend
cut-extend st ps ss =
    ap₂ (λ a b. let s : Scratch = record { parameters = a; segments = b } in s)
      (take-append st.parameters ps) (take-append st.segments ss)

-- An entry that a plan makes of the arrays.
placed : Scratch → List Segment → Plan → Entry
unfolding extend
placed st ss shut = refused st
placed st ss (misfit ps) = refused (extend st ps ss)
placed st ss (stop ps) = exact (extend st ps ss)
placed st ss (down ps) = nested (extend st ps ss)

enter-placed :
    (uri : Text → Option Text) (now : ℕ) (ss : List Segment) (p : Properties) (fs : List Text)
    (st : Scratch)
    → enter uri now ss p fs st ≡ placed st ss (plan uri now ss p fs)
unfolding enter plan placed extend
enter-placed uri now ss p fs st =
    let c = collect-append uri (tail_of uri ss fs) ss fs st.parameters [] in
    let d : collect uri (tail_of uri ss fs) ss fs st.parameters ≡ (
      (collect uri (tail_of uri ss fs) ss fs []).0,
      st.parameters ++ (collect uri (tail_of uri ss fs) ss fs []).1,
    ) =
      ap (λ x. collect uri (tail_of uri ss fs) ss fs x) (sym (append-nil st.parameters)) ∙ c in
    rw d (ground arith)

-- What the arrays hold after a search, and what is answered.
answer : Scratch → Found → Answer
unfolding extend
answer st none = (none, st)
answer st (some (n, ps, ss)) = (some (n, template (st.segments ++ ss)), extend st ps ss)

take_all {ℓ} : {A : Type ℓ} (xs : List A) → take (length xs) xs ≡ xs
take_all [] = refl
take_all (x ∷ xs) = ap (λ t. x ∷ t) (take_all xs)

cut_all : (st : Scratch) → cut (length st.parameters) (length st.segments) st ≡ st
unfolding cut
cut_all st =
    ap₂ (λ a b. let s : Scratch = record { parameters = a; segments = b } in s)
      (take_all st.parameters) (take_all st.segments)

answer-extend :
    (st : Scratch) (ps qs : Parameters) (ss ts : List Segment) (n : Node)
    → answer (extend st ps ss) (some (n, qs, ts)) ≡ answer st (some (n, ps ++ qs, ss ++ ts))
unfolding answer extend
answer-extend st ps qs ss ts n =
    rw (append_assoc st.parameters ps qs, append_assoc st.segments ss ts) refl

module _ (next : Scratch → Answer) (rest : Found) (st : Scratch)
    (ih : next st ≡ answer st rest) where
  missed_lem :
      (ps : Parameters) (ss : List Segment)
      → otherwise (length st.parameters) (length st.segments) next (none, extend st ps ss)
        ≡ answer st rest
  unfolding otherwise
  missed_lem ps ss = ap next (cut-extend st ps ss) ∙ ih

  below_lem :
      (ps : Parameters) (ss : List Segment) (f : Found)
      → otherwise (length st.parameters) (length st.segments) next (answer (extend st ps ss) f)
        ≡ answer st (or_else (under ps ss f) rest)
  unfolding or_else under answer
  below_lem ps ss none = missed_lem ps ss
  below_lem ps ss (some (n, qs, ts)) = unfold otherwise in answer-extend st ps qs ss ts n

  proceed_lem :
      (n : Node) (ss : List Segment) (below : Scratch → Answer) (f : Found) (pl : Plan)
      → ((ps : Parameters) → below (extend st ps ss) ≡ answer (extend st ps ss) f)
      → otherwise
          (length st.parameters)
          (length st.segments)
          next
          (proceed n below (placed st ss pl))
        ≡ answer st (or_else (chosen n ss f pl) rest)
  unfolding proceed placed chosen or_else
  proceed_lem n ss below f shut h = unfold otherwise in ap next (cut_all st) ∙ ih
  proceed_lem n ss below f (misfit ps) h = missed_lem ps ss
  proceed_lem n ss below f (stop ps) h = unfold otherwise answer extend in refl
  proceed_lem n ss below f (down ps) h =
      ap (otherwise (length st.parameters) (length st.segments) next) (h ps) ∙ below_lem ps ss f

match_routes-find :
    (uri : Text → Option Text) (now : ℕ) (rs : Routes) (fs : List Text) (st : Scratch)
    → match_routes uri now (length st.parameters) (length st.segments) rs fs st
      ≡ answer st (find uri now rs fs)
unfolding match_routes find
match_routes-find uri now nil fs st = unfold answer in refl
match_routes-find uri now (route ss (node p ns) rs) fs st =
    let below = λ (st' : Scratch).
      match_routes uri now (length st'.parameters) (length st'.segments) ns (drop (length ss) fs)
        st' in
    let next = λ (st' : Scratch).
      match_routes uri now (length st.parameters) (length st.segments) rs fs st' in
    ap
      (λ e.
        otherwise (length st.parameters) (length st.segments) next (proceed (node p ns) below e))
      (enter-placed uri now ss p fs st)
    ∙ proceed_lem next (find uri now rs fs) st (match_routes-find uri now rs fs st) (node p ns) ss
        below (find uri now ns (drop (length ss) fs)) (plan uri now ss p fs)
        (λ ps. match_routes-find uri now ns (drop (length ss) fs) (extend st ps ss))

-- What a search without arrays answers of a path.
unfoldable pub lookup : (Text → Option Text) → ℕ → Node → Text → Option Match
lookup uri now (node p rs) path =
    if same_text path (slash ∷ [])
    then some (record { found = node p rs; parameters = []; path = slash ∷ [] })
    else elim (find uri now rs (fragment path)) [
      | none ↦ none
      | some (n, ps, ss) ↦ some (record { found = n; parameters = ps; path = template ss })
    ]

matched-answer :
    (f : Found)
    → matched (answer empty f) ≡ (elim f as (λ _. Option Match) [
      | none ↦ none
      | some (n, ps, ss) ↦ some (record { found = n; parameters = ps; path = template ss })
    ])
unfolding matched answer extend
matched-answer none = refl
matched-answer (some (n, ps, ss)) = refl

-- A path is answered by the first route that leads to a node, with the values of the variables on
-- its way and its template alone: what the routes that failed had pushed into the shared arrays is
-- cut off.
pub match-lookup :
    (uri : Text → Option Text) (now : ℕ) (n : Node) (path : Text)
    → match uri now n path ≡ lookup uri now n path
unfolding match lookup
match-lookup uri now (node p rs) path =
    ap
      (λ m.
        if same_text path (slash ∷ [])
        then some (record { found = node p rs; parameters = []; path = slash ∷ [] })
        else m)
      (ap matched (match_routes-find uri now rs (fragment path) empty)
        ∙ matched-answer (find uri now rs (fragment path)))
