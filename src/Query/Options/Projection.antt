-- ===== src/Query/Options/Projection.antt =====
-- What a read answers of an entity: `projection` of query/options.ts.
use toa.Prelude.{
  ◌≡◌, refl, ap, sym, ◌∙◌, true, some, List, [], ◌∷◌, ◌++◌, ◌||◌, if◌then◌else◌, arith, Bool-cases,
  inl, inr,
}
use toa.Prelude.Texts.{Text, same_text, same_text_iff}
use toa.Query.Property.{Properties}
use toa.Query.Options.{has, are_defined, push_all, projection, system}

has-append : (n : Text) (ms ks : List Text) → has n (ms ++ ks) ≡ (has n ms || has n ks)
unfolding has
has-append n [] ks = refl
has-append n (m ∷ ms) ks = ground (arith, has-append n ms ks)

has_same : (n m : Text) (ms : List Text) → same_text n m ≡ true → has m ms ≡ true → has n ms ≡ true
has_same n m ms same h = ap (λ x. has x ms) ((same_text_iff n m).0 same) ∙ h

has-pushed :
    (n m : Text) (out : List Text)
    → has n (if has m out then out else out ++ m ∷ []) ≡ (has n out || same_text n m)
unfolding has
has-pushed n m out = ground (arith, has_same n m out, has-append n out (m ∷ []))

has-push_all : (n : Text) (ms out : List Text) → has n (push_all ms out) ≡ (has n out || has n ms)
unfolding push_all has
has-push_all n [] out = ground arith
has-push_all n (m ∷ ms) out =
    ground (arith, has-push_all n ms (if has m out then out else out ++ m ∷ []), has-pushed n m out)

-- A projection that is answered names what was asked for and the system's properties, and nothing
-- else.
pub has-projection :
    (ps : Properties) (declared out : List Text) (name : Text)
    → projection ps declared ≡ some out
    → has name out ≡ (has name declared || has name system)
unfolding projection
has-projection ps declared out name h = elim (Bool-cases (are_defined ps declared)) [
  | inl fine ↦
      let same : push_all system declared ≡ out = cc in
      ap (has name) (sym same) ∙ has-push_all name system declared
  | inr refused ↦ cc
]
