-- ===== src/Routing/Segments/Spelling.antt =====
-- What a template reads back as.
use mathlib.Core.List.{append-nil}
use toa.Prelude.{
  ℕ, ◌≡◌, ◌≢◌, refl, ap, ◌∙◌, false, none, some, List, [], ◌∷◌, ◌++◌, map, ◌==◌, All, arith,
}
use toa.Prelude.Texts.{Text, same_text_iff}
use toa.Routing.Segments.{
  Segment, literal, placeholder, wildcard, slash, push, split, trim, rest, fragment, star, stars,
  parse, segment, piece, join, template,
}

-- No separator in a text.
abbrev pub Lacks : ℕ → Text → Type 0
Lacks c s = All (λ d. (d == c) ≡ false) s

-- A literal that is not spelled like a variable, and names without a slash.
unfoldable pub IsSpelled : Segment → Type 0
IsSpelled (literal []) = ⊥
IsSpelled (literal (c ∷ s)) =
    Lacks slash (c ∷ s) × ((c == b':') ≡ false) × (c ∷ s ≢ star) × (c ∷ s ≢ stars)
IsSpelled (placeholder none) = Unit
IsSpelled (placeholder (some name)) = Lacks slash name
IsSpelled wildcard = Unit

-- A part that is there, with no separator in it.
abbrev IsPart : Text → Type 0
IsPart p = (p ≢ []) × Lacks slash p

split-append :
    (p s : Text)
    → Lacks slash p
    → (q : Text) (qs : List Text) → split s ≡ q ∷ qs
    → split (p ++ s) ≡ (p ++ q) ∷ qs
unfolding split push
split-append [] s h q qs e = e
split-append (c ∷ p) s (h, hs) q qs e = rw (h, split-append p s hs q qs e) refl

split_part : (p : Text) → Lacks slash p → split p ≡ p ∷ []
unfolding split push
split_part [] h = refl
split_part (c ∷ p) (h, hs) = rw (h, split_part p hs) refl

split-join : (p : Text) (ps : List Text) → All IsPart (p ∷ ps) → split (join (p ∷ ps)) ≡ p ∷ ps
unfolding join split
split-join p [] ((ne, h), hs) = split_part p h
split-join p (q ∷ qs) ((ne, h), hs) =
    let tail : split (slash ∷ join (q ∷ qs)) ≡ [] ∷ q ∷ qs =
      ap (λ x. [] ∷ x) (split-join q qs hs) in
    split-append p (slash ∷ join (q ∷ qs)) h [] (q ∷ qs) tail ∙ ap (λ x. x ∷ q ∷ qs) (append-nil p)

trim_parts :
    (p : Text) (ps : List Text) → All IsPart ps → (q : Text) → trim (q ∷ p ∷ ps) ≡ q ∷ trim (p ∷ ps)
unfolding trim
trim_parts p ps h [] = refl
trim_parts p ps h (c ∷ q) = refl

trim-All : (ps : List Text) → All IsPart ps → trim ps ≡ ps
unfolding trim
trim-All [] h = refl
trim-All ([] ∷ []) ((ne, h), hs) = absurd (ne refl)
trim-All ((c ∷ p) ∷ []) h = refl
trim-All ([] ∷ q ∷ ps) (h, hs) = ap (λ x. [] ∷ x) (trim-All (q ∷ ps) hs)
trim-All ((c ∷ p) ∷ q ∷ ps) (h, hs) = ap (λ x. (c ∷ p) ∷ x) (trim-All (q ∷ ps) hs)

parse-piece : (s : Segment) → IsSpelled s → parse (piece s) ≡ s
unfolding parse piece IsSpelled
parse-piece (literal []) h = absurd h
parse-piece (literal (c ∷ s)) h =
    ground (arith, same_text_iff (c ∷ s) star, same_text_iff (c ∷ s) stars)
parse-piece (placeholder none) h = refl
parse-piece (placeholder (some name)) h = refl
parse-piece wildcard h = refl

piece-IsPart : (s : Segment) → IsSpelled s → IsPart (piece s)
unfolding piece IsSpelled
piece-IsPart (literal []) h = absurd h
piece-IsPart (literal (c ∷ s)) h = (λ e. cc, h.0)
piece-IsPart (placeholder none) h = (λ e. cc, (refl, tt))
piece-IsPart (placeholder (some name)) h = (λ e. cc, (refl, h))
piece-IsPart wildcard h = (λ e. cc, (refl, (refl, tt)))

pieces-IsPart : (ss : List Segment) → All IsSpelled ss → All IsPart (map piece ss)
pieces-IsPart [] h = tt
pieces-IsPart (s ∷ ss) (h, hs) = (piece-IsPart s h, pieces-IsPart ss hs)

parse_pieces : (ss : List Segment) → All IsSpelled ss → map parse (map piece ss) ≡ ss
parse_pieces [] h = refl
parse_pieces (s ∷ ss) (h, hs) = cc (parse-piece s h, parse_pieces ss hs)

fragment-join : (ps : List Text) → All IsPart ps → fragment (slash ∷ join ps) ≡ ps
unfolding fragment split trim rest join
fragment-join [] h = refl
fragment-join (p ∷ ps) h = rw (split-join p ps h) (trim-All (p ∷ ps) h)

-- Segments that are written out as a template read back as they are, where each literal has at
-- least one character and no slash, does not begin with a colon and is not `*` or `**`, and no
-- name of a variable has a slash.
pub segment-template : (ss : List Segment) → All IsSpelled ss → segment (template ss) ≡ ss
unfolding segment template
segment-template ss h =
    ap (map parse) (fragment-join (map piece ss) (pieces-IsPart ss h)) ∙ parse_pieces ss h
