-- ===== src/Query/Options/Declared.antt =====
-- That a read is sorted by and projected to what an entity has: `options` of query/options.ts.
use toa.Prelude.{
  ◌≡◌, refl, ap, true, ◌||◌, Option, none, some, List, [], ◌∷◌, ◌++◌, All, All-append, All-map,
  arith, Bool-cases, Option-cases, inl, inr,
}
use mathlib.Core.Path.{subst}
use toa.Prelude.Texts.{Text}
use toa.Query.Property.{Properties, split}
use toa.Query.Options.{
  Given, Options, has, is_defined, sort, sorted_by, also, are_defined, push_all, projection, system,
  if_given, both, options, colon,
}
use toa.Query.Options.Projection.{has-projection}

-- What is sorted by is declared.
abbrev pub IsSorting : Properties → Option (List (Text × Text)) → Type 0
IsSorting ps none = Unit
IsSorting ps (some by) = All (λ s. is_defined ps s.0 ≡ true) by

-- What is projected is declared, or the system's, and what is the system's is projected.
abbrev pub IsProjecting : Properties → Option (List Text) → Type 0
IsProjecting ps none = Unit
IsProjecting ps (some names) =
    All (λ n. (is_defined ps n || has n system) ≡ true) names × All (λ n. has n names ≡ true) system

some-All {ℓ κ} :
    {A : Type ℓ} (P : A → Type κ) (xs ys : List A) → some xs ≡ some ys → All P xs → All P ys
some-All P xs ys h a = let same : xs ≡ ys = cc in subst (All P) same a

sort-IsSorting :
    (ps : Properties) (asked : List Text) (by : List (Text × Text))
    → sort ps asked ≡ some by
    → All (λ s. is_defined ps s.0 ≡ true) by
unfolding sort also
sort-IsSorting ps [] [] h = tt
sort-IsSorting ps [] (s ∷ by) h = cc
sort-IsSorting ps (a ∷ asked) by h =
    elim (Bool-cases (is_defined ps (sorted_by (split colon a)).0)) [
      | inr lost ↦ cc
      | inl fine ↦ elim (Option-cases (sort ps asked)) [
        | inl missing ↦ cc
        | inr (more, given) ↦
            some-All _ (sorted_by (split colon a) ∷ more) by (simp (fine, given) at h)
              (fine, sort-IsSorting ps asked more given)
      ]
    ]

push_all-All {ℓ} :
    (P : Text → Type ℓ) (ms out : List Text) → All P ms → All P out → All P (push_all ms out)
unfolding push_all
push_all-All P [] out hm ho = ho
push_all-All P (m ∷ ms) out hm ho = elim (Bool-cases (has m out)) [
  | inl there ↦ simp there (push_all-All P ms out hm.1 ho)
  | inr new ↦
      simp new (push_all-All P ms (out ++ m ∷ []) hm.1 (All-append P out (m ∷ []) ho (hm.0, tt)))
]

are_defined-All :
    (ps : Properties) (names : List Text)
    → are_defined ps names ≡ true
    → All (λ n. (is_defined ps n || has n system) ≡ true) names
unfolding are_defined
are_defined-All ps [] h = tt
are_defined-All ps (n ∷ names) h = (ground arith, are_defined-All ps names (ground arith))

system-All : (ps : Properties) → All (λ n. (is_defined ps n || has n system) ≡ true) system
unfolding has
system-All ps = (ground arith, (ground arith, (ground arith, (ground arith, (ground arith, tt)))))

system-projected :
    (ps : Properties) (declared out : List Text)
    → projection ps declared ≡ some out
    → All (λ n. has n out ≡ true) system
unfolding has
system-projected ps declared out h =
    All-map {P = λ n. has n system ≡ true} {Q = λ n. has n out ≡ true}
      (λ n p. ground (arith, has-projection ps declared out n h)) system
      (refl, (refl, (refl, (refl, (refl, tt)))))

projection-IsProjecting :
    (ps : Properties) (declared out : List Text)
    → projection ps declared ≡ some out
    → IsProjecting ps (some out)
unfolding projection
projection-IsProjecting ps declared out h = elim (Bool-cases (are_defined ps declared)) [
  | inr lost ↦ cc
  | inl fine ↦
      let same : some (push_all system declared) ≡ some out = simp fine at h in
      (
        some-All _ (push_all system declared) out same
            (push_all-All _ system declared (system-All ps) (are_defined-All ps declared fine)),
        system-projected ps declared out h,
      )
]

if_given-holds {κ} :
    {A B : Type 0} (P : Option B → Type κ) (read : A → Option B) (given : Option A) (o : Option B)
    → P none
    → ((a : A) (b : B) → read a ≡ some b → P (some b))
    → if_given read given ≡ some o
    → P o
unfolding if_given
if_given-holds P read none o base step h = let same : none ≡ o = cc in subst P same base
if_given-holds P read (some a) o base step h = elim (Option-cases (read a)) [
  | inl refused ↦ ground arith
  | inr (b, found) ↦ let one : some b ≡ o = ground arith in subst P one (step a b found)
]

both_parts :
    (sorted : Option (Option (List (Text × Text)))) (projected : Option (Option (List Text)))
    (o : Options)
    → both sorted projected ≡ some o
    → (sorted ≡ some o.sort) × (projected ≡ some o.projection)
unfolding both
both_parts none projected o h = cc
both_parts (some s) none o h = cc
both_parts (some s) (some p) o h =
    let same : record { sort = s; projection = p } ≡ o = cc in
    (ap (λ x. some x.sort) same, ap (λ x. some x.projection) same)

-- What the options of a query are read to sorts by what is declared, and projects to what is
-- declared and to what the system has.
pub options-IsDeclared :
    (ps : Properties) (given : Given) (o : Options)
    → options ps given ≡ some o
    → IsSorting ps o.sort × IsProjecting ps o.projection
unfolding options
options-IsDeclared ps given o h =
    let (sorted, projected) =
      both_parts (if_given (sort ps) given.sort) (if_given (projection ps) given.projection) o h in
    (
      if_given-holds (IsSorting ps) (sort ps) given.sort o.sort tt (sort-IsSorting ps) sorted,
      if_given-holds (IsProjecting ps) (projection ps) given.projection o.projection tt
          (projection-IsProjecting ps) projected,
    )
