-- ===== src/Trail/Calls.antt =====
-- The ordinals that calls are told apart by.
use Prim.Native.String.{String}
use text.Mathlib.TextEquality.{eq_iff}
use text.Mathlib.Text.{◌==◌ as str_eq}
use toa.Prelude.{
  ℕ, ◌+◌, ◌≡◌, ◌≢◌, ◌≤◌, ◌∙◌, All, All-map, refl, ap, List, [], ◌∷◌, Option, none, some, arith,
  if◌then◌else◌, Bool-cases, inl, inr,
}
use toa.Trail.{Calls, made, count, ordinal}

made-count :
    (e f : String) (n : ℕ) (calls : Calls)
    → made f (count e n calls) ≡ (if str_eq e f then n else made f calls)
unfolding made count
made-count e f n [] = refl
made-count e f n ((g, k) ∷ calls) =
    ground (arith, eq_iff g e, eq_iff g f, eq_iff e f, made-count e f n calls)

-- How many calls an absent or a present map holds for an endpoint.
abbrev counted : String → Option Calls → ℕ
counted endpoint none = 0
counted endpoint (some calls) = made endpoint calls

counted-ordinal :
    (e f : String) (calls : Option Calls)
    → counted f (ordinal calls e).1 ≡ counted f calls + (if str_eq e f then 1 else 0)
unfolding ordinal
counted-ordinal e f none = rw (made-count e f 1 []) (unfold made in ground arith)
counted-ordinal e f (some calls) = elim (Bool-cases (str_eq e f)) [
  | inl same ↦
      rw (made-count e f (made e calls + 1) calls, same)
        (ap (λ x. made x calls + 1) ((eq_iff e f).0 same))
  | inr differs ↦ rw (made-count e f (made e calls + 1) calls, differs) (omega arith)
]

-- The calls of an invocation to these endpoints, in order, each with the ordinal it is given.
unfoldable pub number_all : Option Calls → List String → List (String × ℕ)
number_all calls [] = []
number_all calls (e ∷ es) = let (n, rest) = ordinal calls e in (e, n) ∷ number_all rest es

ordinal-eq-counted : (calls : Option Calls) (e : String) → (ordinal calls e).0 ≡ counted e calls
unfolding ordinal
ordinal-eq-counted none e = refl
ordinal-eq-counted (some calls) e = refl

number_all_above :
    (calls : Option Calls) (es : List String)
    → All (λ p. counted p.0 calls ≤ p.1) (number_all calls es)
unfolding number_all
number_all_above calls [] = tt
number_all_above calls (e ∷ es) = (
  omega (arith, ordinal-eq-counted calls e),
  All-map
      (λ p (above : counted p.0 (ordinal calls e).1 ≤ p.1).
        omega (arith, counted-ordinal e p.0 calls))
      (number_all (ordinal calls e).1 es) (number_all_above (ordinal calls e).1 es),
)

-- No two elements are equal.
abbrev pub IsDistinct {ℓ} : {A : Type ℓ} → List A → Type ℓ
IsDistinct [] = Unit
IsDistinct (x ∷ xs) = All (λ y. x ≢ y) xs × IsDistinct xs

-- Two calls of one invocation to one endpoint never have the same ordinal, whatever other calls
-- are made between them: a pair of an endpoint and an ordinal names one call.
pub number_all-IsDistinct :
    (calls : Option Calls) (es : List String) → IsDistinct (number_all calls es)
unfolding number_all
number_all-IsDistinct calls [] = tt
number_all-IsDistinct calls (e ∷ es) = (
  All-map (λ p (above : counted p.0 (ordinal calls e).1 ≤ p.1). fresh p above)
      (number_all (ordinal calls e).1 es) (number_all_above (ordinal calls e).1 es),
  number_all-IsDistinct (ordinal calls e).1 es,
)
  where
    fresh : (p : String × ℕ) → counted p.0 (ordinal calls e).1 ≤ p.1 → (e, (ordinal calls e).0) ≢ p
    fresh p above same =
        let name : e ≡ p.0 = ap (λ (q : String × ℕ). q.0) same in
        let num : (ordinal calls e).0 ≡ p.1 = ap (λ (q : String × ℕ). q.1) same in
        let grown : counted p.0 (ordinal calls e).1 ≡ counted p.0 calls + 1 =
          rw ((eq_iff e p.0).1 name) at (counted-ordinal e p.0 calls) in
        let here : (ordinal calls e).0 ≡ counted p.0 calls =
          ordinal-eq-counted calls e ∙ ap (λ x. counted x calls) name in
        omega arith
