-- ===== src/Auth/Directives/Inert.antt =====
-- What `authorize` of a directive leaves of who calls: extensions/exposition/source/directives/auth.
use toa.Prelude.{
  ◌≡◌, refl, ◌∙◌, Bool, true, false, Option, none, some, List, if◌then◌else◌, Option-cases, inl,
  inr,
}
use toa.Prelude.Texts.{Text, same_text}
use toa.Auth.Identities.{
  Remotes, Identity, Forced, forced, unrefreshable, failed, Result, ok, raise, Context, split, Push,
}
use toa.Auth.Identities.Vetted.{standing}
use toa.Auth.Directives.{
  Directive, Directives, nil, also, anonymous, anyone, id, role, rule, scheme, assert, incept, echo,
  refresh, delegate, transfer, Parameters, matches, roles, acceptable, incepted, began, inceptive,
  asserted, schemed_by, schemed, marked, renewed, forced_by, forcing, alien, refreshed, invented,
  echoed, given, lift, next_if, presented, is_somebody, authorize, authorize_all,
}

unfoldable pub who : Option Identity → Option Text
who none = none
who (some i) = some i.id

-- Who calls stays who it is, where it is somebody.
unfoldable pub Keeps : Option Identity → Context → Context → Type 0
Keeps i c c' =
    (standing c' ≡ standing c)
    × (is_somebody i ≡ true → is_somebody c.identity ≡ true → who c'.identity ≡ who c.identity)

unfoldable pub Leaves : Option Identity → Context → Result (Bool × Context) → Type 0
Leaves i c (raise e) = Unit
Leaves i c (ok (b, c')) = Keeps i c c'

Keeps-refl : (i : Option Identity) (c : Context) → Keeps i c c
unfolding Keeps
Keeps-refl i c = (refl, λ h h'. refl)

if-Leaves :
    (i : Option Identity) (c : Context) (b : Bool) (x y : Result (Bool × Context))
    → Leaves i c x
    → Leaves i c y
    → Leaves i c (if b then x else y)
if-Leaves i c true x y h h' = h
if-Leaves i c false x y h h' = h'

lift-Leaves : (i : Option Identity) (c : Context) (r : Result Bool) → Leaves i c (lift c r)
unfolding lift Leaves
lift-Leaves i c (ok b) = Keeps-refl i c
lift-Leaves i c (raise e) = tt

schemed-Leaves :
    (w : Remotes) (i : Option Identity) (s : Text) (o : Option Text) (c : Context)
    → Leaves i c (schemed w s o c)
unfolding schemed schemed_by Leaves
schemed-Leaves w i s none c = Keeps-refl i c
schemed-Leaves w i s (some header) c = elim (Option-cases (split header)) [
  | inl e ↦ rw e tt
  | inr (parts, e) ↦ rw e (if-Leaves i c (same_text (w.lower parts.0) s) _ _ (Keeps-refl i c) tt)
]

began-Leaves : (c : Context) (r : Result Identity) → Leaves none c (began c r)
unfolding began Leaves Keeps is_somebody
began-Leaves c (raise e) = tt
began-Leaves c (ok i) = (refl, λ h h'. cc)

asserted-Leaves :
    (w : Remotes) (o : Option Text) (i : Option Identity) (c : Context)
    → Leaves i c (asserted w o i c)
unfolding asserted inceptive Leaves
asserted-Leaves w none i c = tt
asserted-Leaves w (some header) (some i) c = Keeps-refl (some i) c
asserted-Leaves w (some header) none c =
    if-Leaves none c (acceptable c) _ _ (began-Leaves c (incepted w header w.newid)) tt

who-marked : (o : Option Identity) → who (marked o) ≡ who o
unfolding who marked
who-marked none = refl
who-marked (some i) = refl

renewed-Leaves : (i : Option Identity) (c : Context) (f : Forced) → Leaves i c (renewed c f)
unfolding renewed Leaves Keeps
renewed-Leaves i c forced = (refl, λ h h'. who-marked c.identity)
renewed-Leaves i c unrefreshable = (refl, λ h h'. refl)
renewed-Leaves i c failed = tt

forcing-Leaves :
    (w : Remotes) (i : Option Identity) (o : Option Text) (c : Context) → Leaves i c (forcing w o c)
unfolding forcing forced_by
forcing-Leaves w i none c = unfold Leaves in tt
forcing-Leaves w i (some header) c = elim (Option-cases (split header)) [
  | inl e ↦ rw e (unfold Leaves in tt)
  | inr (parts, e) ↦ rw e (renewed-Leaves i c (w.force parts.1))
]

refreshed-Leaves :
    (w : Remotes) (who : Option Identity) (i : Identity) (c : Context)
    → Leaves who c (refreshed w i c)
unfolding refreshed
refreshed-Leaves w who i c =
    if-Leaves who c (alien i.provider) _ _ (unfold Leaves in Keeps-refl who c)
      (forcing-Leaves w who c.authorization c)

who-invented :
    (w : Remotes) (o : Option Identity) → is_somebody o ≡ true → who (invented w o) ≡ who o
unfolding is_somebody invented
who-invented w none h = cc
who-invented w (some i) h = refl

echoed-Leaves : (w : Remotes) (i : Option Identity) (c : Context) → Leaves i c (echoed w c)
unfolding echoed Leaves Keeps
echoed-Leaves w i c = (refl, λ h h'. who-invented w c.identity h')

given-Keeps :
    (i : Option Identity) (s : Text) (o : Option Text) (c : Context) → Keeps i c (given s o c)
unfolding given Keeps
given-Keeps i s none c = (refl, λ h h'. refl)
given-Keeps i s (some header) c = (refl, λ h h'. refl)

pushed-Keeps :
    (i : Option Identity) (c : Context) (ps : List Push) → Keeps i c (record c { pushed = ps })
unfolding Keeps
pushed-Keeps i c ps = (refl, λ h h'. refl)

-- Who is somebody stays somebody.
somebody-who :
    (o o' : Option Identity) → who o' ≡ who o → is_somebody o ≡ true → is_somebody o' ≡ true
unfolding who is_somebody
somebody-who none o' e h = cc
somebody-who (some i) none e h = cc
somebody-who (some i) (some j) e h = refl

Keeps-trans :
    (i : Option Identity) (c c' c'' : Context) → Keeps i c c' → Keeps i c' c'' → Keeps i c c''
unfolding Keeps
Keeps-trans i c c' c'' (v, k) (v', k') =
    (v' ∙ v, λ h h'. k' h (somebody-who c.identity c'.identity (k h h') h') ∙ k h h')

Leaves-trans :
    (i : Option Identity) (c c' : Context) (r : Result (Bool × Context))
    → Keeps i c c'
    → Leaves i c' r
    → Leaves i c r
unfolding Leaves
Leaves-trans i c c' (raise e) k h = tt
Leaves-trans i c c' (ok (b, c'')) k h = Keeps-trans i c c' c'' k h

next_if-Leaves :
    (i : Option Identity) (c : Context) (next : Context → Result (Bool × Context))
    (r : Result (Bool × Context))
    → Leaves i c r
    → ((c' : Context) → Leaves i c' (next c'))
    → Leaves i c (next_if next r)
unfolding next_if Leaves
next_if-Leaves i c next (raise e) h n = tt
next_if-Leaves i c next (ok (false, c')) h n = h
next_if-Leaves i c next (ok (true, c')) h n = Leaves-trans i c c' (next c') h (n c')

mutual
  unfolding authorize Leaves

  pub authorize-Leaves :
      (w : Remotes) (params : Parameters) (d : Directive) (i : Option Identity) (c : Context)
      → Leaves i c (authorize w params d i c)
  authorize-Leaves w params (anonymous allow) i c = Keeps-refl i c
  authorize-Leaves w params (anyone allow) i c = Keeps-refl i c
  authorize-Leaves w params (id name) none c = Keeps-refl none c
  authorize-Leaves w params (id name) (some i) c = Keeps-refl (some i) c
  authorize-Leaves w params (role rs) none c = Keeps-refl none c
  authorize-Leaves w params (role rs) (some i) c =
      lift-Leaves (some i) c (matches rs (roles w i) params)
  authorize-Leaves w params (rule ds) i c = authorize_all-Leaves w params ds i c
  authorize-Leaves w params (scheme required) i c = schemed-Leaves w i required c.authorization c
  authorize-Leaves w params (assert disabled) i c =
      if-Leaves i c disabled _ _ (Keeps-refl i c) (asserted-Leaves w c.authorization i c)
  authorize-Leaves w params (incept property) i c = Keeps-refl i c
  authorize-Leaves w params echo none c =
      if-Leaves none c (presented c) _ _ (Keeps-refl none c) (echoed-Leaves w none c)
  authorize-Leaves w params echo (some i) c = echoed-Leaves w (some i) c
  authorize-Leaves w params refresh none c = Keeps-refl none c
  authorize-Leaves w params refresh (some i) c = refreshed-Leaves w (some i) i c
  authorize-Leaves w params (delegate property) none c = Keeps-refl none c
  authorize-Leaves w params (delegate property) (some i) c = pushed-Keeps (some i) c _
  authorize-Leaves w params (transfer property) i c =
      if-Leaves i c c.procedural _ _ (Keeps-refl i c) (given-Keeps i property c.authorization c)

  authorize_all-Leaves :
      (w : Remotes) (params : Parameters) (ds : Directives) (i : Option Identity) (c : Context)
      → Leaves i c (authorize_all w params ds i c)
  authorize_all-Leaves w params nil i c = Keeps-refl i c
  authorize_all-Leaves w params (also d ds) i c =
      next_if-Leaves i c (λ c'. authorize_all w params ds i c') (authorize w params d i c)
        (authorize-Leaves w params d i c) (λ c'. authorize_all-Leaves w params ds i c')
