-- ===== src/Query/Parse/Alone.antt =====
-- That queries parsed by one `Query` do not tell on one another, and what they come to: `parse` of
-- query.ts.
use toa.Prelude.{
  ◌≤◌, ◌≡◌, refl, ap, sym, ◌∙◌, Option, none, some, List, [], ◌∷◌, map, All, length, Bool-cases,
  Option-cases, inl, inr,
}
use mathlib.Core.Path.{subst}
use toa.Prelude.Texts.{Text}
use toa.Query.Property.{Properties}
use toa.Query.Options.{Given, Options, options}
use toa.Query.Options.Declared.{IsSorting, IsProjecting, options-IsDeclared}
use toa.Query.Criteria.{Result, ok, refused, undefined}
use toa.Query.Cache.{limit, Asts, IsTrue, none_kept-IsTrue, criteria-IsTrue}
use toa.Query.Parse.{
  Passed, Requested, Parsed, is_empty, wanted, options_of, expressed, criteria_of, assembled,
  parsed, parse, parse_all,
}

abbrev pub IsOptions : Properties → Option (Options × Passed) → Type 0
IsOptions ps none = Unit
IsOptions ps (some (o, passed)) = IsSorting ps o.sort × IsProjecting ps o.projection

abbrev pub IsDeclared : {N : Type 0} → Properties → Result (Parsed N) → Type 0
IsDeclared ps (refused e) = Unit
IsDeclared ps (ok r) = IsOptions ps r.options

module _ {N : Type 0} (read : Text → Result N) (ps : Properties) where
  criteria_of-IsTrue :
      (expression : Option Text) (asts : Asts N)
      → IsTrue read asts
      → ((criteria_of read expression asts).0 ≡ (criteria_of read expression []).0)
        × IsTrue read (criteria_of read expression asts).1
  unfolding criteria_of
  criteria_of-IsTrue none asts t = (refl, t)
  criteria_of-IsTrue (some e) asts t =
      let (here, kept) = criteria-IsTrue read e asts t in
      let (alone, more) = criteria-IsTrue read e [] (none_kept-IsTrue read) in
      (ap expressed (here ∙ sym alone), kept)

  parsed-IsTrue :
      (q : Requested) (o : Result (Option (Options × Passed))) (asts : Asts N)
      → IsTrue read asts
      → ((parsed read q o asts).0 ≡ (parsed read q o []).0) × IsTrue read (parsed read q o asts).1
  unfolding parsed
  parsed-IsTrue q (refused e) asts t = (refl, t)
  parsed-IsTrue q (ok o) asts t =
      let (same, kept) = criteria_of-IsTrue q.criteria asts t in (ap (assembled q o) same, kept)

  options_of-IsOptions :
      (given : Given) (passed : Passed) (o : Option (Options × Passed))
      → options_of ps given passed ≡ ok o
      → IsOptions ps o
  unfolding options_of wanted
  options_of-IsOptions given passed o h = elim (Bool-cases (is_empty given passed)) [
    | inl bare ↦
        let same : ok none ≡ ok o = simp bare at h in
        let one : none ≡ o = cc in subst (IsOptions ps) one tt
    | inr some_given ↦ elim (Option-cases (options ps given)) [
      | inl bad ↦ let same : refused undefined ≡ ok o = simp (some_given, bad) at h in cc
      | inr (r, good) ↦
          let same : ok (some (r, passed)) ≡ ok o = simp (some_given, good) at h in
          let one : some (r, passed) ≡ o = cc in
          subst (IsOptions ps) one (options-IsDeclared ps given r good)
    ]
  ]

  assembled-IsDeclared :
      (q : Requested) (o : Option (Options × Passed)) (c : Result (Option N))
      → IsOptions ps o
      → IsDeclared ps (assembled q o c)
  unfolding assembled
  assembled-IsDeclared q o (refused e) h = tt
  assembled-IsDeclared q o (ok c) h = h

  parsed-IsDeclared :
      (q : Requested) (o : Result (Option (Options × Passed)))
      → options_of ps q.given q.passed ≡ o
      → IsDeclared ps (parsed read q o []).0
  unfolding parsed
  parsed-IsDeclared q (refused e) h = tt
  parsed-IsDeclared q (ok o) h =
      assembled-IsDeclared q o (criteria_of read q.criteria []).0
        (options_of-IsOptions q.given q.passed o h)

  all-alone :
      (qs : List Requested) (asts : Asts N)
      → IsTrue read asts
      → ((parse_all read ps qs asts).0 ≡ map (λ q. (parse read ps q []).0) qs)
        × (length (parse_all read ps qs asts).1 ≤ limit)
  unfolding parse_all parse
  all-alone [] asts t = (refl, t.bounded)
  all-alone (q ∷ qs) asts t =
      let (one, t') = parsed-IsTrue q (options_of ps q.given q.passed) asts t in
      let (others, bound) = all-alone qs (parse read ps q asts).1 t' in
      (
        ap (λ r. r ∷ (parse_all read ps qs (parse read ps q asts).1).0) one
            ∙ ap (λ rs. (parse read ps q []).0 ∷ rs) others,
        bound,
      )

  all-IsDeclared :
      (qs : List Requested) → All (IsDeclared ps) (map (λ q. (parse read ps q []).0) qs)
  unfolding parse
  all-IsDeclared [] = tt
  all-IsDeclared (q ∷ qs) =
      (parsed-IsDeclared q (options_of ps q.given q.passed) refl, all-IsDeclared qs)

  -- However many queries are parsed one after another, each is answered as if it were the only
  -- one, and no more than 1024 expressions are kept. What is answered sorts by what is declared,
  -- and where it projects, it projects to all that the system has and to nothing else that is not
  -- declared.
  pub parse_all-alone :
      (qs : List Requested)
      → ((parse_all read ps qs []).0 ≡ map (λ q. (parse read ps q []).0) qs)
        × ((length (parse_all read ps qs []).1 ≤ limit)
            × All (IsDeclared ps) (parse_all read ps qs []).0)
  parse_all-alone qs =
      let (same, bound) = all-alone qs [] (none_kept-IsTrue read) in
      (same, (bound, subst (All (IsDeclared ps)) (sym same) (all-IsDeclared qs)))
