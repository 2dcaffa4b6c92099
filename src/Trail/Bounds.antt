-- ===== src/Trail/Bounds.antt =====
-- What a chain that was let through satisfies, and when one is refused.
use Prim.Native.String.{String}
use text.Mathlib.TextEquality.{eq_iff}
use text.Mathlib.Text.{◌==◌ as str_eq}
use toa.Prelude.{
  ℕ, ◌+◌, ◌≤◌, ◌<◌, ◌≡◌, ◌≢◌, ◌↔◌, ◌∙◌, ap, refl, map, inl, inr, List, [], ◌∷◌, ◌++◌, arith, length,
  length-append, length-take, count_if-append, if◌then◌else◌, Bool-cases,
}
use toa.Trail.{Inbound, items, string, texts, Limits, ok, received, clip, seen, extend}

length-clip-le : (hops : List String) (d : ℕ) → length (clip hops d) ≤ d
unfolding clip
length-clip-le hops d = ground (arith, length-take d hops)

clip-of_le : (hops : List String) (d : ℕ) → length hops ≤ d → clip hops d ≡ hops
unfolding clip
clip-of_le hops d h = ground arith

clip-of_lt : (hops : List String) (d : ℕ) → length (clip hops d) < d → clip hops d ≡ hops
unfolding clip
clip-of_lt hops d h = ground (arith, length-take d hops)

length-snoc : (xs : List String) (hop : String) → length (xs ++ hop ∷ []) ≡ length xs + 1
length-snoc xs hop = omega (arith, length-append xs (hop ∷ []))

seen-snoc :
    (h hop : String) (xs : List String)
    → seen h (xs ++ hop ∷ []) ≡ seen h xs + (if str_eq hop h then 1 else 0)
seen-snoc h hop xs = omega (arith, count_if-append (λ passed. str_eq passed h) xs (hop ∷ []))

-- A chain that was made here comes as it is.
pub received-strings : (hops : List String) → received (items (map string hops)) ≡ hops
unfolding received texts
received-strings [] = refl
received-strings (hop ∷ hops) = ap (λ xs. hop ∷ xs) (received-strings hops)

abbrev pub IsAdmitted : Inbound → String → Limits → List String → Type 0
IsAdmitted inbound hop lim trail =
    (trail ≡ received inbound ++ hop ∷ [])
    × (length trail ≤ lim.depth)
    × (seen hop (received inbound) + 1 < lim.repeats)

IsAdmitted-of_ok :
    (inbound : Inbound) (hop : String) (lim : Limits) (trail : List String)
    → lim.repeats ≢ 0
    → extend inbound hop lim ≡ ok trail
    → IsAdmitted inbound hop lim trail
unfolding extend
IsAdmitted-of_ok inbound hop lim trail on h =
    let hops = received inbound in
    ground (
      arith,
      length-take lim.depth hops,
      length-snoc (clip hops lim.depth) hop,
      clip-of_lt hops lim.depth,
    )

ok_of_IsAdmitted :
    (inbound : Inbound) (hop : String) (lim : Limits) (trail : List String)
    → lim.repeats ≢ 0
    → IsAdmitted inbound hop lim trail
    → extend inbound hop lim ≡ ok trail
unfolding extend
ok_of_IsAdmitted inbound hop lim trail on h =
    let hops = received inbound in
    let size : length trail ≡ length hops + 1 = ap length h.0 ∙ length-snoc hops hop in
    let whole : clip hops lim.depth ≡ hops = clip-of_le hops lim.depth (omega arith) in
    rw (whole, extend) (ground (arith, length-snoc hops hop))

-- With the rule on, a hop is let through exactly when the chain with it stays within the depth and
-- the hop, counted with this one, stays below `repeats`; the chain is then what arrived, whole and
-- in its order, with the hop at its end.
pub extend-eq-ok :
    (inbound : Inbound) (hop : String) (lim : Limits) (trail : List String)
    → lim.repeats ≢ 0
    → (extend inbound hop lim ≡ ok trail) ↔ IsAdmitted inbound hop lim trail
extend-eq-ok inbound hop lim trail on =
    (IsAdmitted-of_ok inbound hop lim trail on, ok_of_IsAdmitted inbound hop lim trail on)

-- With the rule off nothing is refused, and the chain is still bounded by one more than the depth.
pub extend_off :
    (inbound : Inbound) (hop : String) (lim : Limits)
    → lim.repeats ≡ 0
    → (extend inbound hop lim ≡ ok (clip (received inbound) lim.depth ++ hop ∷ []))
      × (length (clip (received inbound) lim.depth ++ hop ∷ []) ≤ lim.depth + 1)
unfolding extend
extend_off inbound hop lim off =
    let hops = received inbound in
    (
      ground arith,
      ground (arith, length-snoc (clip hops lim.depth) hop, length-clip-le hops lim.depth),
    )

-- A chain of hops as the calls of one another make it: each hop extends the chain of the one above.
pub data CallPath (lim : Limits) : List String → Type 0 where
  root : CallPath lim []
  hop :
      {chain next : List String} (inbound : Inbound) (name : String)
      → CallPath lim chain
      → received inbound ≡ chain
      → extend inbound name lim ≡ ok next
      → CallPath lim next

seen-snoc-lt :
    (h name : String) (chain : List String) (r : ℕ)
    → seen h chain < r
    → seen name chain + 1 < r
    → seen h (chain ++ name ∷ []) < r
seen-snoc-lt h name chain r below new = elim (Bool-cases (str_eq name h)) [
  | inl same ↦
      let e : name ≡ h = (eq_iff name h).0 same in
      rw (seen-snoc h name chain, same) (ground (arith, ap (λ x. seen x chain) e))
  | inr differs ↦ rw (seen-snoc h name chain, differs) (omega arith)
]

-- However calls are nested, no chain is longer than the depth and no hop, whichever it is, stands
-- in it `repeats` times.
pub CallPath-bounded :
    {lim : Limits} {chain : List String} (h : String)
    → lim.repeats ≢ 0
    → CallPath lim chain
    → (length chain ≤ lim.depth) × (seen h chain < lim.repeats)
CallPath-bounded {lim} h on root = omega arith
CallPath-bounded {lim} {chain} h on (hop {chain = before} inbound name path e done) =
    let (below, rare) = CallPath-bounded h on path in
    let (whole, fits, new) = IsAdmitted-of_ok inbound name lim chain on done in
    (fits, rw whole (rw e (seen-snoc-lt h name before lim.repeats rare (rw e at new))))
