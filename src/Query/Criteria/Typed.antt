-- ===== src/Query/Criteria/Typed.antt =====
-- That a value is of the type of what it is compared with: `read` of query/criteria.ts.
use toa.Prelude.{
  ◌≡◌, refl, sym, true, false, Option, none, some, ◌⊎◌, if◌then◌else◌, arith, Bool-cases,
  Option-cases, inl, inr,
}
use mathlib.Core.Path.{subst}
use toa.Prelude.Texts.{Text, codes, same_text, same_text_iff}
use toa.Query.Property.{Property, Properties, property}
use toa.Query.Criteria.{
  Literal, Number, Value, null, text, number, truth, ok, one_of, equality, type_of, finite,
  numbered, integral, boolean, cast, is_nothing, read_as, read_found, read,
}

-- A type that is cast to.
abbrev pub IsCast : Option Text → Type 0
IsCast type =
    (type ≡ some (codes "number"))
    ⊎ ((type ≡ some (codes "integer")) ⊎ (type ≡ some (codes "boolean")))

module _ (numeric : Text → Option Number) where
  -- What a value is of a literal that is compared with something of a type.
  abbrev pub Reads : Option Text → Literal → Value → Type 0
  Reads type l null =
      ((l.quoted ≡ false) × ((l.text ≡ codes "null") ⊎ (l.text ≡ codes "undefined")))
      × (one_of l.operator equality ≡ true)
  Reads type l (text t) = (t ≡ l.text) × (IsCast type → ⊥)
  Reads type l (number n) =
      (numeric l.text ≡ some n)
      × ((type ≡ some (codes "number")) ⊎ ((type ≡ some (codes "integer")) × (n.whole ≡ true)))
  Reads type l (truth b) =
      (type ≡ some (codes "boolean")) × (l.text ≡ (if b then codes "true" else codes "false"))

  finite-numeric : (t : Text) (n : Number) → finite numeric t ≡ some n → numeric t ≡ some n
  unfolding finite
  finite-numeric t n h = ground arith

  numbered-Reads :
      (l : Literal) (o : Option Number) (v : Value)
      → finite numeric l.text ≡ o
      → numbered numeric o ≡ ok v
      → Reads (some (codes "number")) l v
  unfolding numbered
  numbered-Reads l none v e h = cc
  numbered-Reads l (some n) v e h =
      let same : number n ≡ v = cc in
      subst (Reads (some (codes "number")) l) same (finite-numeric l.text n e, inl refl)

  integral-Reads :
      (l : Literal) (o : Option Number) (v : Value)
      → finite numeric l.text ≡ o
      → integral numeric o ≡ ok v
      → Reads (some (codes "integer")) l v
  unfolding integral
  integral-Reads l none v e h = cc
  integral-Reads l (some n) v e h = elim (Bool-cases n.whole) [
    | inl whole ↦
        let h' : ok (number n) ≡ ok v = simp whole at h in
        let same : number n ≡ v = cc in
        subst (Reads (some (codes "integer")) l) same (finite-numeric l.text n e, inr (refl, whole))
    | inr broken ↦ cc (simp broken at h)
  ]

  boolean-Reads :
      (l : Literal) (v : Value) → boolean numeric l.text ≡ ok v → Reads (some (codes "boolean")) l v
  unfolding boolean
  boolean-Reads l v h = elim (Bool-cases (same_text l.text (codes "true"))) [
    | inl yes_text ↦
        let h' : ok (truth true) ≡ ok v = simp yes_text at h in
        let same : truth true ≡ v = cc in
        subst (Reads (some (codes "boolean")) l) same
          (refl, (same_text_iff l.text (codes "true")).0 yes_text)
    | inr other ↦ elim (Bool-cases (same_text l.text (codes "false"))) [
      | inl no_text ↦
          let h' : ok (truth false) ≡ ok v = simp (other, no_text) at h in
          let same : truth false ≡ v = cc in
          subst (Reads (some (codes "boolean")) l) same
            (refl, (same_text_iff l.text (codes "false")).0 no_text)
      | inr neither ↦ cc (simp (other, neither) at h)
    ]
  ]

  differs : (type name : Text) → same_text type name ≡ false → some type ≡ some name → ⊥
  differs type name h e =
      let same : type ≡ name = cc in
      let yes_text : same_text type name ≡ true = (same_text_iff type name).1 same in cc

  cast-Reads :
      (l : Literal) (type : Option Text) (v : Value)
      → cast numeric type l.text ≡ ok v
      → Reads type l v
  unfolding cast
  cast-Reads l none v h =
      let same : text l.text ≡ v = cc in
      subst (Reads none l) same
        (refl, λ c. elim c [ inl e ↦ cc | inr d ↦ elim d [ inl e ↦ cc | inr e ↦ cc ] ])
  cast-Reads l (some type) v h = elim (Bool-cases (same_text type (codes "number"))) [
    | inl n ↦
        subst (λ x. Reads (some x) l v) (sym ((same_text_iff type (codes "number")).0 n))
          (numbered-Reads l (finite numeric l.text) v refl (simp n at h))
    | inr not_n ↦ elim (Bool-cases (same_text type (codes "integer"))) [
      | inl i ↦
          subst (λ x. Reads (some x) l v) (sym ((same_text_iff type (codes "integer")).0 i))
            (integral-Reads l (finite numeric l.text) v refl (simp (not_n, i) at h))
      | inr not_i ↦ elim (Bool-cases (same_text type (codes "boolean"))) [
        | inl b ↦
            subst (λ x. Reads (some x) l v) (sym ((same_text_iff type (codes "boolean")).0 b))
              (boolean-Reads l v (simp (not_n, not_i, b) at h))
        | inr not_b ↦
            let h' : ok (text l.text) ≡ ok v = simp (not_n, not_i, not_b) at h in
            let same : text l.text ≡ v = cc in
            subst (Reads (some type) l) same (
              refl,
              λ c. elim c [
                | inl e ↦ differs type (codes "number") not_n e
                | inr d ↦ elim d [
                  | inl e ↦ differs type (codes "integer") not_i e
                  | inr e ↦ differs type (codes "boolean") not_b e
                ]
              ],
            )
      ]
    ]
  ]

  nothing_said :
      (l : Literal)
      → is_nothing numeric l ≡ true
      → (l.quoted ≡ false) × ((l.text ≡ codes "null") ⊎ (l.text ≡ codes "undefined"))
  unfolding is_nothing
  nothing_said l h = elim (Bool-cases (same_text l.text (codes "null"))) [
    | inl n ↦ (ground arith, inl ((same_text_iff l.text (codes "null")).0 n))
    | inr other ↦ (ground arith, inr ((same_text_iff l.text (codes "undefined")).0 (ground arith)))
  ]

  read_as-Reads :
      (l : Literal) (type : Option Text) (v : Value)
      → read_as numeric type l ≡ ok v
      → Reads type l v
  unfolding read_as is_nothing
  read_as-Reads l type v h = elim (Bool-cases (is_nothing numeric l)) [
    | inl nothing ↦ elim (Bool-cases (one_of l.operator equality)) [
      | inl equal ↦
          let h' : ok null ≡ ok v = simp (nothing, equal) at h in
          let same : null ≡ v = cc in subst (Reads type l) same (nothing_said l nothing, equal)
      | inr order ↦ cc (simp (nothing, order) at h)
    ]
    | inr something ↦ cast-Reads l type v (simp something at h)
  ]

  -- What a criteria compares a declared property with is of the type of it: a number where it
  -- holds numbers, a whole one where it holds whole ones, `true` or `false` where it holds these,
  -- the text as it came where it holds anything else, and no value only where `null` or `undefined`
  -- was not quoted and is compared by equality.
  pub read-Reads :
      (ps : Properties) (l : Literal) (v : Value)
      → read numeric (some ps) l ≡ ok v
      → (p : Property) × (property ps l.selector ≡ some p) × Reads (type_of p) l v
  unfolding read read_found
  read-Reads ps l v h = elim (Option-cases (property ps l.selector)) [
    | inl missing ↦ cc (simp missing at h)
    | inr (p, found) ↦ (p, found, read_as-Reads l (type_of p) v (simp found at h))
  ]
