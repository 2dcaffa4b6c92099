-- ===== src/Prelude/Texts.antt =====
-- Texts that the program takes apart: a text is its characters, by their codes.
use Prim.Native.Char.{code}
use Prim.Native.String.{String}
use Prim.Native.Nat.{ℕ}
use mathlib.Core.Path.{◌≡◌, refl, sym, ap, ◌∙◌}
use mathlib.Core.Logic.{◌↔◌, ◌⊎◌, inl, inr}
use mathlib.Core.Bool.{Bool, true, false, ◌&&◌}
use mathlib.Core.List.{List, [], ◌∷◌, ◌++◌}
use native.Mathlib.Omega.{arith}
use toa.Prelude.Tests.{◌==◌, ==_iff}

abbrev pub Text : Type 0
Text = List ℕ

-- The codes of a literal. `String` has its own `[]` and `∷`.
abbrev pub codes : String → Text
codes String.[] = []
codes (String.◌∷◌ c s) = code c ∷ codes s

-- `===` of two texts
abbrev pub same_text : Text → Text → Bool
same_text [] [] = true
same_text [] (d ∷ t) = false
same_text (c ∷ s) [] = false
same_text (c ∷ s) (d ∷ t) = c == d && same_text s t

pub same_text_iff : (s t : Text) → (same_text s t ≡ true) ↔ (s ≡ t)
same_text_iff [] [] = (λ h. refl, λ h. refl)
same_text_iff [] (d ∷ t) = (λ h. cc, λ h. cc)
same_text_iff (c ∷ s) [] = (λ h. cc, λ h. cc)
same_text_iff (c ∷ s) (d ∷ t) =
    (λ h. ground (arith, same_text_iff s t), λ h. ground (arith, same_text_iff s t))

-- `s === p || s.startsWith(p + separator)`
abbrev pub below : ℕ → Text → Text → Bool
below c [] [] = true
below c [] (d ∷ s) = c == d
below c (b ∷ p) [] = false
below c (b ∷ p) (d ∷ s) = b == d && below c p s

-- A text, or what follows it behind a separator.
abbrev pub IsBelow : ℕ → Text → Text → Type 0
IsBelow c p s = (s ≡ p) ⊎ ((rest : Text) × (s ≡ p ++ c ∷ rest))

below_refl : (c : ℕ) (p : Text) → below c p p ≡ true
below_refl c [] = refl
below_refl c (b ∷ p) = ground (arith, below_refl c p)

below-append : (c : ℕ) (p rest : Text) → below c p (p ++ c ∷ rest) ≡ true
below-append c [] rest = ground arith
below-append c (b ∷ p) rest = ground (arith, below-append c p rest)

IsBelow-below : (c : ℕ) (p s : Text) → below c p s ≡ true → IsBelow c p s
IsBelow-below c [] [] h = inl refl
IsBelow-below c [] (d ∷ s) h = inr (s, ap (λ x. x ∷ s) (sym ((==_iff c d).0 h)))
IsBelow-below c (b ∷ p) [] h = cc
IsBelow-below c (b ∷ p) (d ∷ s) h =
    let same : b ≡ d = ground arith in
    let more : below c p s ≡ true = ground arith in
    elim (IsBelow-below c p s more) [
      | inl e ↦ inl (ap (λ x. x ∷ s) (sym same) ∙ ap (λ x. b ∷ x) e)
      | inr (rest, e) ↦ inr (rest, ap (λ x. x ∷ s) (sym same) ∙ ap (λ x. b ∷ x) e)
    ]

pub below_iff : (c : ℕ) (p s : Text) → (below c p s ≡ true) ↔ IsBelow c p s
below_iff c p s = (
  IsBelow-below c p s,
  λ h. elim h [
    | inl e ↦ ap (below c p) e ∙ below_refl c p
    | inr (rest, e) ↦ ap (below c p) e ∙ below-append c p rest
  ],
)
