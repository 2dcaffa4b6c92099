-- ===== src/Routing/Tree/Ways.antt =====
-- Which paths are answered at all.
use toa.Prelude.{
  ◌⊎◌, ℕ, ◌<◌, arith, ◌≡◌, ◌≢◌, refl, ap, sym, ◌↔◌, true, false, Option, none, some, List, [], ◌∷◌,
  length, drop, Bool-cases, inl, inr,
}
use toa.Prelude.Texts.{Text, same_text, same_text_iff}
use toa.Routing.Segments.{Segment, literal, placeholder, wildcard, fragment, slash, template}
use toa.Routing.Tree.{
  Node, node, Routes, nil, route, Properties, Parameters, Match, collect, is_head, head, expired,
  ends, has_wildcard, tail_of, match,
}
use toa.Routing.Tree.Search.{
  Plan, shut, misfit, stop, down, plan, Found, under, chosen, or_else, find, lookup, match-lookup,
}

-- Every literal of a route is the fragment in its place. A variable is not asked for one.
unfoldable pub Fits : List Segment → List Text → Type 0
Fits [] fs = Unit
Fits (literal s ∷ ss) fs = (head fs ≡ some s) × Fits ss (drop 1 fs)
Fits (placeholder name ∷ ss) fs = Fits ss (drop 1 fs)
Fits (wildcard ∷ ss) fs = Fits ss (drop 1 fs)

-- Now is before the expiration, if there is one.
abbrev pub IsLive : ℕ → Option ℕ → Type 0
IsLive now none = Unit
IsLive now (some t) = now < t

-- The last route of a path: all of it and nothing below the node, or a wildcard.
abbrev pub IsLast : Properties → List Segment → List Text → Type 0
IsLast p ss fs = ((length ss ≡ length fs) × (p.intermediate ≡ false)) ⊎ (has_wildcard ss ≡ true)

IsLive-expired : (now : ℕ) (o : Option ℕ) → (expired now o ≡ false) ↔ IsLive now o
unfolding expired
IsLive-expired now none = (λ e. tt, λ e. refl)
IsLive-expired now (some t) = ground arith

IsLast-ends :
    (p : Properties) (ss : List Segment) (fs : List Text) → (ends p ss fs ≡ true) ↔ IsLast p ss fs
unfolding ends
IsLast-ends p ss fs = ground arith

-- A way down the routes that have not expired: each route fits what is left of the path, and the
-- last one takes all of it or has a wildcard.
pub data Way (now : ℕ) : Routes → List Text → Type 0 where
  here :
      {ss : List Segment} {p : Properties} {ns rs : Routes} {fs : List Text}
      → IsLive now p.expiration
      → Fits ss fs
      → IsLast p ss fs
      → Way now (route ss (node p ns) rs) fs
  below :
      {ss : List Segment} {p : Properties} {ns rs : Routes} {fs : List Text}
      → IsLive now p.expiration
      → Fits ss fs
      → Way now ns (drop (length ss) fs)
      → Way now (route ss (node p ns) rs) fs
  later :
      {ss : List Segment} {n : Node} {rs : Routes} {fs : List Text}
      → Way now rs fs
      → Way now (route ss n rs) fs

is_head-eq-true : (s : Text) (fs : List Text) → is_head s fs ≡ true → head fs ≡ some s
unfolding is_head
is_head-eq-true s [] h = cc
is_head-eq-true s (f ∷ fs) h = ap some (sym ((same_text_iff s f).0 h))

pub head-is_head : (s : Text) (fs : List Text) → head fs ≡ some s → is_head s fs ≡ true
unfolding is_head
head-is_head s [] h = cc
head-is_head s (f ∷ fs) h = let e : f ≡ s = cc h in (same_text_iff s f).1 (sym e)

Fits-collect :
    (uri : Text → Option Text) (tail : Text) (ss : List Segment) (fs : List Text) (ps : Parameters)
    → (collect uri tail ss fs ps).0 ≡ true
    → Fits ss fs
unfolding collect Fits
Fits-collect uri tail [] fs ps h = tt
Fits-collect uri tail (literal s ∷ ss) fs ps h = elim (Bool-cases (is_head s fs)) [
  | inl same ↦ (is_head-eq-true s fs same, Fits-collect uri tail ss (drop 1 fs) ps (rw same at h))
  | inr other ↦ cc (rw other at h)
]
Fits-collect uri tail (placeholder none ∷ ss) fs ps h = Fits-collect uri tail ss (drop 1 fs) ps h
Fits-collect uri tail (placeholder (some name) ∷ ss) fs ps h =
    Fits-collect uri tail ss (drop 1 fs) _ h
Fits-collect uri tail (wildcard ∷ ss) fs ps h = Fits-collect uri tail ss (drop 1 fs) _ h

pub collect-Fits :
    (uri : Text → Option Text) (tail : Text) (ss : List Segment) (fs : List Text) (ps : Parameters)
    → Fits ss fs
    → (collect uri tail ss fs ps).0 ≡ true
unfolding collect Fits
collect-Fits uri tail [] fs ps h = refl
collect-Fits uri tail (literal s ∷ ss) fs ps (h, hs) =
    rw (head-is_head s fs h) (collect-Fits uri tail ss (drop 1 fs) ps hs)
collect-Fits uri tail (placeholder none ∷ ss) fs ps h = collect-Fits uri tail ss (drop 1 fs) ps h
collect-Fits uri tail (placeholder (some name) ∷ ss) fs ps h =
    collect-Fits uri tail ss (drop 1 fs) _ h
collect-Fits uri tail (wildcard ∷ ss) fs ps h = collect-Fits uri tail ss (drop 1 fs) _ h

module _ (uri : Text → Option Text) (now : ℕ) where
  Facts : List Segment → Properties → List Text → Plan → Type 0
  Facts ss p fs shut = Unit
  Facts ss p fs (misfit ps) = Unit
  Facts ss p fs (stop ps) = (expired now p.expiration ≡ false) × Fits ss fs × (ends p ss fs ≡ true)
  Facts ss p fs (down ps) = (expired now p.expiration ≡ false) × Fits ss fs

  plan-Facts :
      (ss : List Segment) (p : Properties) (fs : List Text) → Facts ss p fs (plan uri now ss p fs)
  unfolding plan Facts
  plan-Facts ss p fs = elim (Bool-cases (expired now p.expiration)) [
    | inl e ↦ rw e tt
    | inr a ↦ elim (Bool-cases (collect uri (tail_of uri ss fs) ss fs []).0) [
      | inr bad ↦ rw (a, bad) tt
      | inl good ↦ elim (Bool-cases (ends p ss fs)) [
        | inl e ↦ rw (a, good, e) (a, Fits-collect uri _ ss fs [] good, e)
        | inr e ↦ rw (a, good, e) (a, Fits-collect uri _ ss fs [] good)
      ]
    ]
  ]

  chosen-Way :
      (ss : List Segment) (p : Properties) (ns rs : Routes) (fs : List Text) (f : Found) (pl : Plan)
      → Facts ss p fs pl
      → (f ≢ none → Way now ns (drop (length ss) fs))
      → chosen (node p ns) ss f pl ≢ none
      → Way now (route ss (node p ns) rs) fs
  unfolding chosen Facts under
  chosen-Way ss p ns rs fs f shut h w ne = absurd (ne refl)
  chosen-Way ss p ns rs fs f (misfit ps) h w ne = absurd (ne refl)
  chosen-Way ss p ns rs fs f (stop ps) (a, b, e) w ne =
      here ((IsLive-expired now p.expiration).0 a) b ((IsLast-ends p ss fs).0 e)
  chosen-Way ss p ns rs fs none (down ps) (a, b) w ne = absurd (ne refl)
  chosen-Way ss p ns rs fs (some x) (down ps) (a, b) w ne =
      below ((IsLive-expired now p.expiration).0 a) b (w (λ e. cc))

  either : (a b : Found) → or_else a b ≢ none → (a ≢ none) ⊎ (b ≢ none)
  unfolding or_else
  either none b h = inr h
  either (some x) b h = inl (λ e. cc)

  Way-find : (rs : Routes) (fs : List Text) → find uri now rs fs ≢ none → Way now rs fs
  unfolding find
  Way-find nil fs h = absurd (h refl)
  Way-find (route ss (node p ns) rs) fs h =
      elim (either
        (chosen (node p ns) ss (find uri now ns (drop (length ss) fs)) (plan uri now ss p fs))
        (find uri now rs fs) h) [
          | inl mine ↦
              chosen-Way ss p ns rs fs (find uri now ns (drop (length ss) fs))
                (plan uri now ss p fs) (plan-Facts ss p fs)
                (λ ne. Way-find ns (drop (length ss) fs) ne) mine
          | inr others ↦ later (Way-find rs fs others)
        ]

  or_else_left : (a b : Found) → a ≢ none → or_else a b ≢ none
  unfolding or_else
  or_else_left none b h = absurd (h refl)
  or_else_left (some x) b h = λ e. cc

  or_else_right : (a b : Found) → b ≢ none → or_else a b ≢ none
  unfolding or_else
  or_else_right none b h = h
  or_else_right (some x) b h = λ e. cc

  plan_here :
      (ss : List Segment) (p : Properties) (n : Node) (fs : List Text) (f : Found)
      → expired now p.expiration ≡ false
      → Fits ss fs
      → ends p ss fs ≡ true
      → chosen n ss f (plan uri now ss p fs) ≢ none
  unfolding plan chosen
  plan_here ss p n fs f a b e =
      let good = collect-Fits uri (tail_of uri ss fs) ss fs [] b in rw (a, good, e) (λ x. cc)

  plan_below :
      (ss : List Segment) (p : Properties) (n : Node) (fs : List Text) (f : Found)
      → expired now p.expiration ≡ false
      → Fits ss fs
      → f ≢ none
      → chosen n ss f (plan uri now ss p fs) ≢ none
  unfolding plan chosen under
  plan_below ss p n fs none a b ne = absurd (ne refl)
  plan_below ss p n fs (some x) a b ne =
      let good = collect-Fits uri (tail_of uri ss fs) ss fs [] b in
      elim (Bool-cases (ends p ss fs)) [
        | inl e ↦ rw (a, good, e) (λ x. cc)
        | inr e ↦ rw (a, good, e) (λ x. cc)
      ]

  find-Way : (rs : Routes) (fs : List Text) → Way now rs fs → find uri now rs fs ≢ none
  unfolding find
  find-Way _ fs (here {ss} {p} {ns} {rs} a b e) = or_else_left _ (find uri now rs fs) (
      plan_here ss p (node p ns) fs (find uri now ns (drop (length ss) fs))
        ((IsLive-expired now p.expiration).1 a) b ((IsLast-ends p ss fs).1 e))
  find-Way _ fs (below {ss} {p} {ns} {rs} a b w) = or_else_left _ (find uri now rs fs) (
      plan_below ss p (node p ns) fs (find uri now ns (drop (length ss) fs))
        ((IsLive-expired now p.expiration).1 a) b (find-Way ns (drop (length ss) fs) w))
  find-Way _ fs (later {ss} {n = node p ns} {rs} w) =
      or_else_right
        (chosen (node p ns) ss (find uri now ns (drop (length ss) fs)) (plan uri now ss p fs)) _
        (find-Way rs fs w)

  looked_iff :
      (f : Found)
      → ((elim f as (λ _. Option Match) [
        | none ↦ none
        | some (n, ps, ss) ↦ some (record { found = n; parameters = ps; path = template ss })
      ])
          ≢ none)
        ↔ (f ≢ none)
  looked_iff none = (λ h e. h refl, λ h e. h refl)
  looked_iff (some (n, ps, ss)) = (λ h e. cc, λ h e. cc)

  lookup_iff :
      (p : Properties) (rs : Routes) (path : Text)
      → path ≢ slash ∷ []
      → (lookup uri now (node p rs) path ≢ none) ↔ (find uri now rs (fragment path) ≢ none)
  unfolding lookup
  lookup_iff p rs path h = elim (Bool-cases (same_text path (slash ∷ []))) [
    | inl root ↦ absurd (h ((same_text_iff path (slash ∷ [])).0 root))
    | inr other ↦ rw other (looked_iff (find uri now rs (fragment path)))
  ]

  -- A path that is not `/` is answered exactly when there is a way for it down the routes, whichever
  -- routes are tried before: no route that fails keeps a later one from being tried.
  pub match_iff :
      (p : Properties) (rs : Routes) (path : Text)
      → path ≢ slash ∷ []
      → (match uri now (node p rs) path ≢ none) ↔ Way now rs (fragment path)
  match_iff p rs path h =
      let same = lookup_iff p rs path h in
      rw (match-lookup uri now (node p rs) path)
        (λ ne. Way-find rs (fragment path) (same.0 ne), λ w. same.1 (find-Way rs (fragment path) w))
