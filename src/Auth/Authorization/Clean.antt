-- ===== src/Auth/Authorization/Clean.antt =====
-- Whose context a call leaves: `preflight` and `precall` of Authorization.ts, and the bans.
use toa.Prelude.{
  ℕ, ◌≡◌, refl, ap, sym, ◌∙◌, ◌⊎◌, inl, inr, Bool, true, false, Option, none, some, Bool-cases,
  Option-cases,
}
use toa.Prelude.Texts.{Text}
use toa.Auth.Identities.{Identity, Remotes, Result, ok, raise, Context, preflight}
use toa.Auth.Identities.Vetted.{Clears, preflight-Clears, preflight-headless}
use toa.Auth.Directives.{Directive, Directives, nil, also, Parameters, is_somebody, authorize}
use toa.Auth.Directives.Inert.{who, Keeps, Leaves, authorize-Leaves}
use toa.Auth.Authorization.{decided, permitted, precall}

-- A context whose identity was vetted is of a request with a header, and of an identity that is not
-- banned.
unfoldable pub IsClean : Remotes → Context → Type 0
IsClean w c =
    (c.vetted ≡ false)
    ⊎ ((header : Text) × (c.authorization ≡ some header)
        × (i : Identity) × (c.identity ≡ some i)
        × (w.banned i.id ≡ false))

-- With no header nothing is vetted.
headless :
    (w : Remotes) (retry : ℕ) (transfers : Bool) (c c' : Context) (used : Bool)
    → c.vetted ≡ false
    → c.authorization ≡ none
    → preflight w retry transfers c ≡ ok (c', used)
    → IsClean w c'
unfolding IsClean
headless w retry transfers c c' used new none_given h =
    let read = sym (preflight-headless w retry transfers c none_given) ∙ h in
    let same : record c { identity = none } ≡ c' = cc read in inl (rw (sym same) new)

clear-IsClean :
    (w : Remotes) (header : Text) (c : Context) (r : Result (Context × Bool)) (c' : Context)
    (used : Bool)
    → c.vetted ≡ false
    → c.authorization ≡ some header
    → Clears w c r
    → r ≡ ok (c', used)
    → IsClean w c'
unfolding IsClean Clears
clear-IsClean w header c (raise e) c' used new given h e' = cc
clear-IsClean w header c (ok (c1, used1)) c' used new given h e' =
    let same : c1 ≡ c' = cc e' in
    rw (sym same) (elim h [
      | inl kept ↦ inl (ap (λ p. p.0) kept ∙ new)
      | inr (i, is, free, kept) ↦ inr (header, kept ∙ given, i, is, free)
    ])

-- The ban of who is the same is the same.
same_ban :
    (w : Remotes) (i : Identity) (o : Option Identity)
    → who o ≡ some i.id
    → w.banned i.id ≡ false
    → (j : Identity) × (o ≡ some j) × (w.banned j.id ≡ false)
unfolding who
same_ban w i none e h = cc
same_ban w i (some j) e h = let same : j.id ≡ i.id = cc e in (j, refl, ap w.banned same ∙ h)

Keeps-IsClean : (w : Remotes) (c c' : Context) → Keeps c.identity c c' → IsClean w c → IsClean w c'
unfolding Keeps IsClean
Keeps-IsClean w c c' (v, k) (inl new) = inl (ap (λ p. p.0) v ∙ new)
Keeps-IsClean w c c' (v, k) (inr (header, given, i, e, free)) =
    let some_one : is_somebody c.identity ≡ true = unfold is_somebody in rw e refl in
    let (j, is, clear) =
      same_ban w i c'.identity (k some_one some_one ∙ unfold who in rw e refl) free in
    inr (header, ap (λ p. p.1) v ∙ given, j, is, clear)

-- What a result leaves that lets a call through.
pub Lets : Remotes → Result (Directive × Context) → Type 0
Lets w (raise e) = Unit
Lets w (ok (d, c)) = IsClean w c

decided-Lets :
    (w : Remotes) (d : Directive) (c : Context) (next : Context → Result (Directive × Context))
    (r : Result (Bool × Context))
    → IsClean w c
    → Leaves c.identity c r
    → ((c' : Context) → IsClean w c' → Lets w (next c'))
    → Lets w (decided w d next r)
unfolding decided Leaves Lets
decided-Lets w d c next (raise e) clean l n = tt
decided-Lets w d c next (ok (false, c')) clean l n = n c' (Keeps-IsClean w c c' l clean)
decided-Lets w d c next (ok (true, c')) clean l n = elim (Bool-cases (permitted w c')) [
  | inl may ↦ rw may (Keeps-IsClean w c c' l clean)
  | inr denied ↦ rw denied tt
]

pub precall-Lets :
    (w : Remotes) (params : Parameters) (ds : Directives) (c : Context)
    → IsClean w c
    → Lets w (precall w params ds c)
unfolding precall Lets
precall-Lets w params nil c clean = tt
precall-Lets w params (also d ds) c clean =
    decided-Lets w d c (λ c'. precall w params ds c') (authorize w params d c.identity c) clean
      (authorize-Leaves w params d c.identity c) (λ c' clean'. precall-Lets w params ds c' clean')

pub let_lem :
    (w : Remotes) (r : Result (Directive × Context)) (d : Directive) (c : Context)
    → Lets w r
    → r ≡ ok (d, c)
    → IsClean w c
unfolding Lets
let_lem w (raise e) d c h e' = cc
let_lem w (ok (d', c')) d c h e' = let same : c' ≡ c = cc e' in rw (sym same) h

pub read-IsClean :
    (w : Remotes) (retry : ℕ) (transfers : Bool) (c c' : Context) (used : Bool)
    → c.vetted ≡ false
    → preflight w retry transfers c ≡ ok (c', used)
    → IsClean w c'
read-IsClean w retry transfers c c' used new read = elim (Option-cases c.authorization) [
  | inl e ↦ headless w retry transfers c c' used new e read
  | inr (header, e) ↦
      clear-IsClean w header c (preflight w retry transfers c) c' used new e
        (preflight-Clears w retry transfers c) read
]
