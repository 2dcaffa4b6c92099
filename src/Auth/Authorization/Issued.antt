-- ===== src/Auth/Authorization/Issued.antt =====
-- Who a token is issued to: `depart` of Authorization.ts, after `preflight`, `precall` and `settle`.
use toa.Prelude.{
  ℕ, ◌≡◌, refl, sym, ◌∙◌, ◌⊎◌, inl, inr, Bool, true, false, not, ◌&&◌, Option, none, some, arith,
  Bool-cases,
}
use toa.Prelude.Texts.{Text}
use toa.Auth.Identities.{Remote, Identity, Remotes, Result, ok, raise, Context, preflight}
use toa.Auth.Directives.{Directive, Directives, nil, also, incept, Parameters, incepted}
use toa.Auth.Directives.Incepted.{Incepts, incepted-Incepts}
use toa.Auth.Authorization.Clean.{IsClean, precall-Lets, let_lem, read-IsClean}
use toa.Auth.Authorization.{
  primary, depart, departing, precall, Found, absent, other, held, came, settled_as, settled, named,
  settling, settled_then, settle,
}

departing_lem :
    (w : Remotes) (c : Context) (o : Option Identity) (token : Text)
    → departing w c o ≡ ok (some token)
    → (i : Identity) × (o ≡ some i)
      × ((primary i.provider ≡ false) ⊎ (i.refresh ≡ true))
      × ((c.vetted ≡ true) ⊎ (w.banned i.id ≡ false))
unfolding departing
departing_lem w c none token h = cc
departing_lem w c (some i) token h = elim (Bool-cases (primary i.provider && not i.refresh)) [
  | inl kept ↦ let stop = rw kept at h in cc
  | inr due ↦ elim (Bool-cases (not c.vetted && w.banned i.id)) [
    | inl ban ↦ let stop = rw (due, ban) at h in cc
    | inr free ↦ (i, refl, ground arith, ground arith)
  ]
]

Settles : Remotes → Result Context → Type 0
Settles w (raise e) = Unit
Settles w (ok c) = IsClean w c

module _ (w : Remotes)
    (named_so : (r : Remote) (by who credentials : Text) (i : Identity)
      → w.incept r by who credentials ≡ some i
      → i.id ≡ who) where
  came-Settles :
      (header : Text) (c : Context) (r : Result Identity)
      → c.authorization ≡ some header
      → Incepts w r
      → Settles w (came c r)
  unfolding came Incepts Settles IsClean
  came-Settles header c (raise e) given free = tt
  came-Settles header c (ok i) given free = inr (header, given, i, refl, free)

  settled_as-Settles :
      (new : Text) (o : Option Text) (c : Context)
      → c.authorization ≡ o
      → IsClean w c
      → Settles w (settled_as w new o c)
  unfolding settled_as IsClean
  settled_as-Settles new none c given (inl fine) = unfold Settles in inl fine
  settled_as-Settles new none c given (inr (header, e, i, is, free)) =
      let both = sym e ∙ given in cc
  settled_as-Settles new (some header) c given clean =
      came-Settles header c (incepted w header new) given (incepted-Incepts w named_so header new)

  settled-Settles : (c : Context) (f : Found) → IsClean w c → Settles w (settled w c f)
  unfolding settled
  settled-Settles c absent clean = unfold Settles in clean
  settled-Settles c other clean = unfold Settles in tt
  settled-Settles c (held new) clean = settled_as-Settles new c.authorization c refl clean

  settling-Settles :
      (body : Text → Found) (d : Directive) (c : Context)
      → IsClean w c
      → Settles w (settling w body d c)
  unfolding settling
  settling-Settles body (incept property) c clean = settled-Settles c (body (named property)) clean
  settling-Settles body _ c clean = unfold Settles in clean

  then-Settles :
      (next : Context → Result Context) (r : Result Context)
      → Settles w r
      → ((c : Context) → IsClean w c → Settles w (next c))
      → Settles w (settled_then next r)
  unfolding settled_then Settles
  then-Settles next (raise e) clean n = tt
  then-Settles next (ok c) clean n = n c clean

  settle-Settles :
      (body : Text → Found) (es : Directives) (c : Context)
      → IsClean w c
      → Settles w (settle w body es c)
  unfolding settle
  settle-Settles body nil c clean = unfold Settles in clean
  settle-Settles body (also d es) c clean =
      then-Settles (λ c'. settle w body es c') (settling w body d c)
        (settling-Settles body d c clean) (λ c' clean'. settle-Settles body es c' clean')

settled_lem :
    (w : Remotes) (r : Result Context) (c : Context) → Settles w r → r ≡ ok c → IsClean w c
unfolding Settles
settled_lem w (raise e) c h e' = cc
settled_lem w (ok c') c h e' = let same : c' ≡ c = cc e' in rw (sym same) h

issued_lem :
    (w : Remotes) (c : Context) (token : Text)
    → IsClean w c
    → depart w c ≡ ok (some token)
    → (i : Identity) × (c.identity ≡ some i) × (w.banned i.id ≡ false)
unfolding depart IsClean
issued_lem w c token clean issued =
    let (i, e, _, asked) = departing_lem w c c.identity token issued in
    elim clean [
      | inl unvetted ↦ elim asked [
        | inl vet ↦ let both = sym vet ∙ unvetted in cc
        | inr free ↦ (i, e, free)
      ]
      | inr (header, given, i', is, free) ↦ (i', is, free)
    ]

-- Of a request that makes one call, where a component that incepts answers the identity it was
-- asked for: from when the request is read to when it is answered, over the precall of whatever
-- directives let its call through and the settling of whatever directives, in whatever order they
-- end and whatever the response has in its body, the token that the answer carries is of an
-- identity that is not banned.
pub depart_unbanned :
    (w : Remotes)
    (named_so : (r : Remote) (by who credentials : Text) (i : Identity)
      → w.incept r by who credentials ≡ some i
      → i.id ≡ who)
    (retry : ℕ) (transfers : Bool) (params : Parameters) (ds es : Directives) (body : Text → Found)
    (c c1 c2 c3 : Context) (used : Bool) (d : Directive) (token : Text)
    → c.vetted ≡ false
    → preflight w retry transfers c ≡ ok (c1, used)
    → precall w params ds c1 ≡ ok (d, c2)
    → settle w body es c2 ≡ ok c3
    → depart w c3 ≡ ok (some token)
    → (i : Identity) × (c3.identity ≡ some i) × (w.banned i.id ≡ false)
depart_unbanned w named_so retry transfers params ds es body c c1 c2 c3 used d token new read
      let_through answered issued =
    let read_clean = read-IsClean w retry transfers c c1 used new read in
    let let_clean =
      let_lem w (precall w params ds c1) d c2 (precall-Lets w params ds c1 read_clean)
        let_through in
    let clean =
      settled_lem w (settle w body es c2) c3 (settle-Settles w named_so body es c2 let_clean)
        answered in
    issued_lem w c3 token clean issued
