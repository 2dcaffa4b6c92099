-- ===== src/Query/Cache.antt =====
-- The criteria that a query keeps, parsed: `#criteria` of runtime/core/source/query.ts.
use toa.Prelude.{
  ℕ, ◌+◌, ◌≤◌, ◌≡◌, refl, ap, sym, ◌∙◌, Option, none, some, List, [], ◌∷◌, ◌++◌, map, All,
  All-append, length, length-append, leb, if◌then◌else◌, arith, Bool-cases, Option-cases, inl, inr,
}
use toa.Prelude.Texts.{Text, same_text, same_text_iff}
use toa.Query.Criteria.{Result, ok, refused}

-- `LIMIT`
abbrev pub limit : ℕ
limit = 1024

-- `#asts`, in the order that they were kept in
abbrev pub Asts : Type 0 → Type 0
Asts N = List (Text × N)

pub known : {N : Type 0} → Text → Asts N → Option N
known expression [] = none
known expression ((e, n) ∷ asts) =
    let rest = known expression asts in if same_text e expression then some n else rest

-- `if (this.#asts.size >= LIMIT) this.#asts.clear()`
cleared : {N : Type 0} → Asts N → Asts N
cleared asts = if leb limit (length asts) then [] else asts

kept : {N : Type 0} → Text → Asts N → Result N → Result N × Asts N
unfolding cleared
kept expression asts (refused e) = (refused e, asts)
kept expression asts (ok n) = (ok n, cleared asts ++ (expression, n) ∷ [])

remembered : {N : Type 0} → (Text → Result N) → Text → Asts N → Option N → Result N × Asts N
unfolding kept
remembered parse expression asts (some n) = (ok n, asts)
remembered parse expression asts none = kept expression asts (parse expression)

-- `#criteria`, where `parse` is `criteria` of query/criteria.ts with the entity's properties
pub criteria : {N : Type 0} → (Text → Result N) → Text → Asts N → Result N × Asts N
unfolding remembered known
criteria parse expression asts = remembered parse expression asts (known expression asts)

-- The answers to the expressions of the queries that are parsed one after another, and what is kept
-- at the end.
pub criteria_all : {N : Type 0} → (Text → Result N) → List Text → Asts N → List (Result N) × Asts N
criteria_all parse [] asts = ([], asts)
criteria_all parse (e ∷ es) asts =
    let (r, asts') = criteria parse e asts in
    let (rs, last) = criteria_all parse es asts' in (r ∷ rs, last)

module _ {N : Type 0} (parse : Text → Result N) where
  -- What is kept of an expression is what it is parsed to.
  pub record IsTrue (asts : Asts N) : Type 0 where
    pub parsed : All (λ p. parse p.0 ≡ ok p.1) asts
    pub bounded : length asts ≤ limit

  pub none_kept-IsTrue : IsTrue []
  none_kept-IsTrue = record { parsed = tt; bounded = omega arith }

  known-parsed :
      (expression : Text) (asts : Asts N) (n : N)
      → All (λ p. parse p.0 ≡ ok p.1) asts
      → known expression asts ≡ some n
      → parse expression ≡ ok n
  unfolding known
  known-parsed expression [] n a h = cc
  known-parsed expression ((e, m) ∷ asts) n a h = elim (Bool-cases (same_text e expression)) [
    | inl same ↦
        let h' : some m ≡ some n = simp same at h in
        ap parse (sym ((same_text_iff e expression).0 same)) ∙ a.0 ∙ ap ok (cc)
    | inr other ↦ known-parsed expression asts n a.1 (simp other at h)
  ]

  cleared-IsTrue :
      (asts : Asts N)
      → IsTrue asts
      → All (λ p. parse p.0 ≡ ok p.1) (cleared asts) × (length (cleared asts) + 1 ≤ limit)
  unfolding cleared
  cleared-IsTrue asts t = elim (Bool-cases (leb limit (length asts))) [
    | inl full ↦ simp full (tt, omega arith)
    | inr room ↦ simp room (t.parsed, ground arith)
  ]

  kept-IsTrue :
      (expression : Text) (asts : Asts N) (r : Result N)
      → parse expression ≡ r
      → IsTrue asts
      → ((kept expression asts r).0 ≡ r) × IsTrue (kept expression asts r).1
  unfolding kept
  kept-IsTrue expression asts (refused e) p t = (refl, t)
  kept-IsTrue expression asts (ok n) p t =
      let (all, room) = cleared-IsTrue asts t in
      (
        refl,
        record {
          parsed =
              All-append (λ q. parse q.0 ≡ ok q.1) (cleared asts) ((expression, n) ∷ []) all
                (p, tt);
          bounded = omega (arith, length-append (cleared asts) ((expression, n) ∷ []));
        },
      )

  pub criteria-IsTrue :
      (expression : Text) (asts : Asts N)
      → IsTrue asts
      → ((criteria parse expression asts).0 ≡ parse expression)
        × IsTrue (criteria parse expression asts).1
  unfolding criteria remembered
  criteria-IsTrue expression asts t = elim (Option-cases (known expression asts)) [
    | inl missing ↦ simp missing (kept-IsTrue expression asts (parse expression) refl t)
    | inr (n, found) ↦ simp found (sym (known-parsed expression asts n t.parsed found), t)
  ]

  all-IsTrue :
      (es : List Text) (asts : Asts N)
      → IsTrue asts
      → ((criteria_all parse es asts).0 ≡ map parse es)
        × (length (criteria_all parse es asts).1 ≤ limit)
  unfolding criteria_all
  all-IsTrue [] asts t = (refl, t.bounded)
  all-IsTrue (e ∷ es) asts t =
      let (one, t') = criteria-IsTrue e asts t in
      let (others, bound) = all-IsTrue es (criteria parse e asts).1 t' in
      (
        ap (λ r. r ∷ (criteria_all parse es (criteria parse e asts).1).0) one
            ∙ ap (λ rs. parse e ∷ rs) others,
        bound,
      )

  -- However many expressions are parsed, and however often each, every one is answered as if
  -- nothing were kept, and no more than 1024 are kept.
  pub criteria_all-parse :
      (es : List Text)
      → ((criteria_all parse es []).0 ≡ map parse es)
        × (length (criteria_all parse es []).1 ≤ limit)
  criteria_all-parse es = all-IsTrue es [] none_kept-IsTrue
