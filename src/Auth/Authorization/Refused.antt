-- ===== src/Auth/Authorization/Refused.antt =====
-- What a description of a method hides from a caller, a call of it is refused: `admits` and `precall`
-- of Authorization.ts.
use toa.Prelude.{
  ◌≡◌, ◌≢◌, inl, inr, refl, ap, ◌∙◌, Bool, true, false, ◌&&◌, Option, none, some, arith,
}
use toa.Auth.Identities.{Remotes, Identity, Result, ok, raise, Context}
use toa.Auth.Directives.{
  Directive, Directives, nil, also, anonymous, anyone, id, role, rule, scheme, assert, incept, echo,
  refresh, delegate, transfer, Parameters, authorize, admits, admits_all, untold_if, anonymously,
  presented,
}
use toa.Auth.Directives.Told.{
  is_calm, Same, SameOf, Refuses, admits-Same, told_refused, told_same, untold_cases,
}
use toa.Auth.Authorization.{decided, precall, told_by, admitted, describing}

-- Directives that leave who calls as it is, where they do not allow.
unfoldable pub all_calm : Directives → Bool
unfolding is_calm
all_calm nil = true
all_calm (also d ds) = is_calm d && all_calm ds

-- Nothing is let through.
IsRefused : Result (Directive × Context) → Type 0
IsRefused (raise e) = Unit
IsRefused (ok r) = ⊥

told_parts :
    (o : Option Bool) (more : Bool) → told_by o more ≡ false → (o ≡ some false) × (more ≡ false)
unfolding told_by
told_parts none more h = cc
told_parts (some true) more h = cc
told_parts (some false) more h = (refl, h)

admitted-Same :
    (w : Remotes) (ds : Directives) (c c' : Context)
    → Same c c'
    → admitted w ds c' ≡ admitted w ds c
unfolding admitted
admitted-Same w nil c c' s = refl
admitted-Same w (also d ds) c c' s =
    let who = ap (λ i. admits w d i c') s.0 in
    rw (who ∙ admits-Same w d c.identity c c' s, admitted-Same w ds c c' s) refl

decided-IsRefused :
    (w : Remotes) (d : Directive) (c : Context) (next : Context → Result (Directive × Context))
    (r : Result (Bool × Context))
    → Refuses r
    → SameOf c r
    → ((c' : Context) → Same c c' → IsRefused (next c'))
    → IsRefused (decided w d next r)
unfolding decided Refuses SameOf IsRefused
decided-IsRefused w d c next (raise e) h s n = tt
decided-IsRefused w d c next (ok (false, c')) h s n = n c' s
decided-IsRefused w d c next (ok (true, c')) h s n = absurd h

precall-IsRefused :
    (w : Remotes) (params : Parameters) (ds : Directives) (c : Context)
    → all_calm ds ≡ true
    → admitted w ds c ≡ false
    → IsRefused (precall w params ds c)
unfolding precall all_calm
precall-IsRefused w params nil c calm h = unfold IsRefused in tt
precall-IsRefused w params (also d ds) c calm h =
    let (first, rest) =
      told_parts (admits w d c.identity c) (admitted w ds c) (unfold admitted in h) in
    decided-IsRefused w d c (λ c'. precall w params ds c') (authorize w params d c.identity c)
      (told_refused w params d c.identity c (ground arith) first)
      (told_same w params d c.identity c (ground arith) first)
      (λ c' s. precall-IsRefused w params ds c' (ground arith) (admitted-Same w ds c c' s ∙ rest))

untold_first : (a b : Option Bool) → a ≡ some false → untold_if a b ≡ some false
untold_first none b h = cc
untold_first (some true) b h = cc
untold_first (some false) b h = unfold untold_if in refl

untold_then : (a b : Option Bool) → b ≡ some false → untold_if a b ≡ some false
unfolding untold_if
untold_then none b h = rw h refl
untold_then (some true) b h = h
untold_then (some false) b h = refl

described_anonymously :
    (allow : Bool) (c : Context)
    → anonymously allow (describing c) ≡ false
    → anonymously allow c ≡ false
unfolding anonymously
described_anonymously allow c h = ground arith

mutual
  unfolding admits presented

  described_refused :
      (w : Remotes) (d : Directive) (i : Option Identity) (c : Context)
      → admits w d i (describing c) ≡ some false
      → admits w d i c ≡ some false
  described_refused w (anonymous allow) i c h = ap some (described_anonymously allow c (cc h))
  described_refused w (anyone allow) i c h = h
  described_refused w (id name) none c h = h
  described_refused w (id name) (some i) c h = h
  described_refused w (role rs) i c h = h
  described_refused w (rule ds) i c h = all_described w ds i c h
  described_refused w (scheme required) i c h = h
  described_refused w (assert disabled) i c h = h
  described_refused w (incept property) i c h = h
  described_refused w echo none c h = h
  described_refused w echo (some i) c h = h
  described_refused w refresh none c h = h
  described_refused w refresh (some i) c h = h
  described_refused w (delegate property) i c h = h
  described_refused w (transfer property) i c h = h

  all_described :
      (w : Remotes) (ds : Directives) (i : Option Identity) (c : Context)
      → admits_all w ds i (describing c) ≡ some false
      → admits_all w ds i c ≡ some false
  all_described w nil i c h = h
  all_described w (also d ds) i c h =
      elim (untold_cases (admits w d i (describing c)) (admits_all w ds i (describing c)) h) [
        | inl here ↦
            untold_first (admits w d i c) (admits_all w ds i c) (described_refused w d i c here)
        | inr there ↦
            untold_then (admits w d i c) (admits_all w ds i c) (all_described w ds i c there)
      ]

described-admitted :
    (w : Remotes) (ds : Directives) (c : Context)
    → admitted w ds (describing c) ≡ false
    → admitted w ds c ≡ false
unfolding admitted
described-admitted w nil c h = refl
described-admitted w (also d ds) c h =
    let (first, rest) =
      told_parts (admits w d c.identity (describing c)) (admitted w ds (describing c)) h in
    let here = described_refused w d c.identity c first in
    let there = described-admitted w ds c rest in rw (here, there) (unfold told_by in refl)

-- A method that is left out where a request is described, which is on the exploratory copy of the
-- request, lets no call of the same request through, whatever its route's variables are, where no
-- directive asserts and none that invents or renews an identity stands in a rule.
pub precall-hidden :
    (w : Remotes) (params : Parameters) (ds : Directives) (c c' : Context) (d : Directive)
    → all_calm ds ≡ true
    → admitted w ds (describing c) ≡ false
    → precall w params ds c ≢ ok (d, c')
unfolding IsRefused
precall-hidden w params ds c c' d calm h e =
    let no_call = precall-IsRefused w params ds c calm (described-admitted w ds c h) in
    rw e at no_call
