-- ===== src/Routing/Tree/Short.antt =====
-- A path that ends before its route does.
use mathlib.Core.List.{append-nil}
use mathlib.Core.Path.{ap₂}
use toa.Prelude.{
  ℕ, ◌≡◌, ◌≢◌, refl, ap, ◌∙◌, true, false, Option, none, some, List, [], ◌∷◌, ◌++◌, length, drop,
  arith, Bool-cases, inl, inr, length-append,
}
use toa.Prelude.Texts.{Text, codes, same_text, same_text_iff}
use toa.Routing.Segments.{Segment, literal, placeholder, wildcard, fragment, slash, template}
use toa.Routing.Tree.{
  node, Routes, route, Properties, Parameters, collect, decode, expired, ends, tail_of,
  has_wildcard, match,
}
use toa.Routing.Tree.Search.{down, plan, under, chosen, or_else, find, lookup, match-lookup}
use toa.Routing.Tree.Ways.{Fits, head-is_head}

-- A variable behind segments.
abbrev pub behind : List Segment → Text → List Segment
behind ss name = ss ++ placeholder (some name) ∷ []

collect-behind :
    (uri : Text → Option Text) (tail : Text) (ss : List Segment) (name : Text) (fs : List Text)
    (ps : Parameters)
    → Fits ss fs
    → length fs ≡ length ss
    → collect uri tail (behind ss name) fs ps
      ≡ (true, (collect uri tail ss fs ps).1 ++ (name, codes "undefined") ∷ [])
unfolding collect Fits decode
collect-behind uri tail [] name [] ps h e = refl
collect-behind uri tail [] name (f ∷ fs) ps h e = absurd (omega (arith, e))
collect-behind uri tail (s ∷ ss) name [] ps h e = absurd (omega (arith, e))
collect-behind uri tail (literal s ∷ ss) name (f ∷ fs) ps (h, hs) e =
    rw (head-is_head s (f ∷ fs) h) (collect-behind uri tail ss name fs ps hs (omega (arith, e)))
collect-behind uri tail (placeholder none ∷ ss) name (f ∷ fs) ps h e =
    collect-behind uri tail ss name fs ps h (omega (arith, e))
collect-behind uri tail (placeholder (some n) ∷ ss) name (f ∷ fs) ps h e =
    collect-behind uri tail ss name fs _ h (omega (arith, e))
collect-behind uri tail (wildcard ∷ ss) name (f ∷ fs) ps h e =
    collect-behind uri tail ss name fs _ h (omega (arith, e))

has_wildcard-behind :
    (ss : List Segment) (name : Text) → has_wildcard (behind ss name) ≡ has_wildcard ss
unfolding has_wildcard
has_wildcard-behind [] name = refl
has_wildcard-behind (literal s ∷ ss) name = has_wildcard-behind ss name
has_wildcard-behind (placeholder n ∷ ss) name = has_wildcard-behind ss name
has_wildcard-behind (wildcard ∷ ss) name = refl

drop-behind :
    (ss : List Segment) (name : Text) (fs : List Text)
    → length fs ≡ length ss
    → drop (length (behind ss name)) fs ≡ []
drop-behind [] name [] e = refl
drop-behind [] name (f ∷ fs) e = absurd (omega (arith, e))
drop-behind (s ∷ ss) name [] e = refl
drop-behind (s ∷ ss) name (f ∷ fs) e = drop-behind ss name fs (omega (arith, e))

ends-behind :
    (p : Properties) (ss : List Segment) (name : Text) (fs : List Text)
    → length fs ≡ length ss
    → has_wildcard ss ≡ false
    → ends p (behind ss name) fs ≡ false
unfolding ends
ends-behind p ss name fs e w =
    let l = length-append ss (placeholder (some name) ∷ []) in
    rw (has_wildcard-behind ss name, w) (ground (arith, l))

find_root :
    (uri : Text → Option Text) (now : ℕ) (q : Properties) (qs ns : Routes)
    → expired now q.expiration ≡ false
    → q.intermediate ≡ false
    → find uri now (route [] (node q qs) ns) [] ≡ some (node q qs, [], [])
unfolding find plan chosen or_else collect ends has_wildcard
find_root uri now q qs ns a i = rw (a, i) refl

plan-behind :
    (uri : Text → Option Text) (now : ℕ) (p : Properties) (ss : List Segment) (name : Text)
    (fs : List Text)
    → Fits ss fs
    → length fs ≡ length ss
    → has_wildcard ss ≡ false
    → expired now p.expiration ≡ false
    → plan uri now (behind ss name) p fs
      ≡ down (
          (collect uri (tail_of uri (behind ss name) fs) ss fs []).1
          ++ (name, codes "undefined") ∷ [])
unfolding plan
plan-behind uri now p ss name fs f e w a =
    rw
      (
        collect-behind uri (tail_of uri (behind ss name) fs) ss name fs [] f e,
        a,
        ends-behind p ss name fs e w,
      )
      refl

find-behind :
    (uri : Text → Option Text) (now : ℕ) (p q : Properties) (ss : List Segment) (name : Text)
    (fs : List Text) (qs ns rs : Routes)
    → Fits ss fs
    → length fs ≡ length ss
    → has_wildcard ss ≡ false
    → expired now p.expiration ≡ false
    → expired now q.expiration ≡ false
    → q.intermediate ≡ false
    → find uri now (route (behind ss name) (node p (route [] (node q qs) ns)) rs) fs
      ≡ some (
        node q qs,
        (collect uri (tail_of uri (behind ss name) fs) ss fs []).1
            ++ (name, codes "undefined") ∷ [],
        behind ss name,
      )
find-behind uri now p q ss name fs qs ns rs f e w a b i =
    let values =
      (collect uri (tail_of uri (behind ss name) fs) ss fs []).1
      ++ (name, codes "undefined") ∷ [] in
    let inner : find uri now (route [] (node q qs) ns) (drop (length (behind ss name)) fs)
        ≡ some (node q qs, [], []) =
      ap (find uri now (route [] (node q qs) ns)) (drop-behind ss name fs e)
      ∙ find_root uri now q qs ns b i in
    unfold find in
    ap₂
      (λ x y.
        or_else (chosen (node p (route [] (node q qs) ns)) (behind ss name) x y)
          (find uri now rs fs))
      inner (plan-behind uri now p ss name fs f e w a)
    ∙ unfold or_else chosen under in
      ap₂ (λ x y. some (node q qs, x, y)) (append-nil values) (append-nil (behind ss name))

not_root : (path : Text) → path ≢ slash ∷ [] → same_text path (slash ∷ []) ≡ false
not_root path h = elim (Bool-cases (same_text path (slash ∷ []))) [
  | inl root ↦ absurd (h ((same_text_iff path (slash ∷ [])).0 root))
  | inr other ↦ other
]

-- Where the first route of the root ends in a variable, with no wildcard before it, the path is
-- not `/` and has just the segments before the variable, each of which fits, the first route of
-- the route's node is a `/` route to a node that is not intermediate, and neither node is
-- expired: the node of the `/` route answers the path, and the variable, for which there is no
-- segment, has the value "undefined".
pub match_short :
    (uri : Text → Option Text) (now : ℕ) (r p q : Properties) (ss : List Segment) (name path : Text)
    (qs ns rs : Routes)
    → path ≢ slash ∷ []
    → Fits ss (fragment path)
    → length (fragment path) ≡ length ss
    → has_wildcard ss ≡ false
    → expired now p.expiration ≡ false
    → expired now q.expiration ≡ false
    → q.intermediate ≡ false
    → (values : Parameters) × (match uri now
          (node r (route (behind ss name) (node p (route [] (node q qs) ns)) rs))
          path
        ≡ some (record {
          found = node q qs;
          parameters = values ++ (name, codes "undefined") ∷ [];
          path = template (behind ss name);
        }))
unfolding lookup
match_short uri now r p q ss name path qs ns rs h f e w a b i =
    let fs = fragment path in
    let other = not_root path h in
    let found = find-behind uri now p q ss name fs qs ns rs f e w a b i in
    (
      (collect uri (tail_of uri (behind ss name) fs) ss fs []).1,
      match-lookup uri now (node r (route (behind ss name) (node p (route [] (node q qs) ns)) rs))
            path
          ∙ rw (other, found) refl,
    )
