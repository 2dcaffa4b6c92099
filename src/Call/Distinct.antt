-- ===== src/Call/Distinct.antt =====
-- The identities of the calls that one invocation makes: `#identity` of call.ts.
use Prim.Native.String.{String}
use text.Mathlib.TextEquality.{Char-path}
use toa.Prelude.{ℕ, ◌≡◌, ◌≢◌, refl, ap, ◌∙◌, Option, some, List, [], ◌∷◌, map, All}
use toa.Prelude.Texts.{Text, codes}
use toa.Trail.{ordinal}
use toa.Trail.Calls.{IsDistinct, number_all, number_all-IsDistinct}
use toa.Call.{Invocation}
use toa.Call.Identity.{name, string, name_inj, decimal, decimal_inj}
use toa.Call.Invoke.{derive, parts, identity, identity_in}

codes_inj : (s t : String) → codes s ≡ codes t → s ≡ t
codes_inj String.[] String.[] e = refl
codes_inj String.[] (String.◌∷◌ d t) e = cc
codes_inj (String.◌∷◌ c s) String.[] e = cc
codes_inj (String.◌∷◌ c s) (String.◌∷◌ d t) e =
    let head = Char-path c d (cc) in
    let tail = codes_inj s t (cc) in ap (λ x. String.◌∷◌ x s) head ∙ ap (λ y. String.◌∷◌ d y) tail

-- The identities of calls to these targets, in their order, that are given none by the caller.
pub identify_all : (Text → Text) → Text → Option Invocation → List String → List Text
identify_all digest minted i [] = []
identify_all digest minted i (target ∷ targets) =
    let (id, i') = identity digest minted target i in id ∷ identify_all digest minted i' targets

-- What the identity of a call is derived from.
abbrev pub named : Text → String × ℕ → Text
named id p = name (parts id p.0 p.1)

identity_of :
    (digest : Text → Text) (minted id : Text) (target : String) (i : Invocation)
    → i.id ≡ some id
    → identity digest minted target (some i) ≡ (
        let (n, calls) = ordinal i.calls target in
        (digest (named id (target, n)), some (record i { calls = calls })))
unfolding identity identity_in derive
identity_of digest minted id target i e = ap (identity_in digest minted target i) e

identify_all-number_all :
    (digest : Text → Text) (minted id : Text) (i : Invocation) (targets : List String)
    → i.id ≡ some id
    → identify_all digest minted (some i) targets
      ≡ map (λ p. digest (named id p)) (number_all i.calls targets)
unfolding identify_all number_all
identify_all-number_all digest minted id i [] e = refl
identify_all-number_all digest minted id i (target ∷ targets) e =
    let (n, calls) = ordinal i.calls target in
    ap (λ r. r.0 ∷ identify_all digest minted r.1 targets) (identity_of digest minted id target i e)
    ∙ ap (λ ids. digest (named id (target, n)) ∷ ids)
        (identify_all-number_all digest minted id (record i { calls = calls }) targets e)

map_twice {ℓ κ μ} :
    {A : Type ℓ} {B : Type κ} {C : Type μ} (g : B → C) (f : A → B) (xs : List A)
    → map (λ a. g (f a)) xs ≡ map g (map f xs)
map_twice g f [] = refl
map_twice g f (a ∷ xs) = ap (λ bs. g (f a) ∷ bs) (map_twice g f xs)

module _ {A B : Type 0} (f : A → B) (inj : (a b : A) → f a ≡ f b → a ≡ b) where
  other_than : (a : A) (xs : List A) → All (λ b. a ≢ b) xs → All (λ y. f a ≢ y) (map f xs)
  other_than a [] h = tt
  other_than a (b ∷ xs) h = (λ e. h.0 (inj a b e), other_than a xs h.1)

  map-IsDistinct : (xs : List A) → IsDistinct xs → IsDistinct (map f xs)
  map-IsDistinct [] h = tt
  map-IsDistinct (a ∷ xs) h = (other_than a xs h.0, map-IsDistinct xs h.1)

named_inj : (id : Text) (p q : String × ℕ) → named id p ≡ named id q → p ≡ q
named_inj id (s, m) (t, n) e =
    let same : id ∷ codes s ∷ decimal m ∷ [] ≡ id ∷ codes t ∷ decimal n ∷ [] =
      unfold string in name_inj (parts id s m) (parts id t n) e in
    let target = codes_inj s t (cc) in
    let number = decimal_inj m n (cc) in ap (λ x. (x, m)) target ∙ ap (λ k. (t, k)) number

-- The identities that an invocation with an identity gives its calls are digests of names no two of
-- which are the same, whatever it calls, how often and in what order.
pub identities-IsDistinct :
    (digest : Text → Text) (minted id : Text) (i : Invocation) (targets : List String)
    → i.id ≡ some id
    → (names : List Text) × (identify_all digest minted (some i) targets ≡ map digest names)
      × IsDistinct names
identities-IsDistinct digest minted id i targets e =
    let numbered = number_all i.calls targets in
    (
      map (named id) numbered,
      identify_all-number_all digest minted id i targets e ∙ map_twice digest (named id) numbered,
      map-IsDistinct (named id) (named_inj id) numbered (number_all-IsDistinct i.calls targets),
    )
