-- ===== src/Auth/Directives/Told.antt =====
-- What a description of a method tells of a call to it: `admits` and `authorize` of the directives,
-- extensions/exposition/source/directives/auth.
use toa.Prelude.{
  ◌≡◌, ◌⊎◌, refl, ap, ◌∙◌, Bool, true, false, not, ◌&&◌, Option, none, some, List, [],
  if◌then◌else◌, arith, Option-cases, inl, inr,
}
use toa.Prelude.Texts.{Text, same_text}
use toa.Auth.Identities.{Remotes, Identity, Result, ok, raise, Context, split}
use toa.Auth.Directives.{
  Directive, Directives, nil, also, anonymous, anyone, id, role, rule, scheme, assert, incept, echo,
  refresh, delegate, transfer, Parameters, Piece, dynamic, matches, roles, schemed_by, schemed,
  given, lift, next_if, presented, anonymously, is_somebody, authorize, authorize_all, told,
  untold_if, admits, admits_all,
}

unfoldable mutual
  -- A directive of a rule that leaves who calls as it is.
  pub is_inert : Directive → Bool
  is_inert (rule ds) = all_inert ds
  is_inert (assert disabled) = disabled
  is_inert echo = false
  is_inert refresh = false
  is_inert _ = true

  all_inert : Directives → Bool
  all_inert nil = true
  all_inert (also d ds) = is_inert d && all_inert ds

-- What a directive reads of a context.
abbrev pub Same : Context → Context → Type 0
Same c c' =
    (c'.identity ≡ c.identity)
    × (c'.authorization ≡ c.authorization)
    × (c'.procedural ≡ c.procedural)
    × (c'.exploratory ≡ c.exploratory)

abbrev Same-refl : (c : Context) → Same c c
Same-refl c = (refl, refl, refl, refl)

unfoldable pub SameOf : Context → Result (Bool × Context) → Type 0
SameOf c (raise e) = Unit
SameOf c (ok (b, c')) = Same c c'

if-SameOf :
    (c : Context) (b : Bool) (x y : Result (Bool × Context))
    → SameOf c x
    → SameOf c y
    → SameOf c (if b then x else y)
if-SameOf c true x y h h' = h
if-SameOf c false x y h h' = h'

lift-SameOf : (c : Context) (r : Result Bool) → SameOf c (lift c r)
unfolding lift SameOf
lift-SameOf c (ok b) = Same-refl c
lift-SameOf c (raise e) = tt

schemed-SameOf :
    (w : Remotes) (s : Text) (o : Option Text) (c : Context) → SameOf c (schemed w s o c)
unfolding schemed schemed_by SameOf
schemed-SameOf w s none c = Same-refl c
schemed-SameOf w s (some header) c = elim (Option-cases (split header)) [
  | inl e ↦ rw e tt
  | inr (parts, e) ↦ rw e (if-SameOf c (same_text (w.lower parts.0) s) _ _ (Same-refl c) tt)
]

given-Same : (s : Text) (o : Option Text) (c : Context) → Same c (given s o c)
unfolding given
given-Same s none c = Same-refl c
given-Same s (some header) c = (refl, refl, refl, refl)

SameOf-trans : (c c' : Context) (r : Result (Bool × Context)) → Same c c' → SameOf c' r → SameOf c r
unfolding SameOf
SameOf-trans c c' (raise e) s t = tt
SameOf-trans c c' (ok (b, c2)) (s1, s2, s3, s4) (t1, t2, t3, t4) =
    (t1 ∙ s1, t2 ∙ s2, t3 ∙ s3, t4 ∙ s4)

next_if-SameOf :
    (c : Context) (next : Context → Result (Bool × Context)) (r : Result (Bool × Context))
    → SameOf c r
    → ((c' : Context) → SameOf c' (next c'))
    → SameOf c (next_if next r)
unfolding next_if SameOf
next_if-SameOf c next (raise e) h n = tt
next_if-SameOf c next (ok (false, c')) h n = h
next_if-SameOf c next (ok (true, c')) h n = SameOf-trans c c' (next c') h (n c')

mutual
  unfolding authorize is_inert SameOf

  pub inert-SameOf :
      (w : Remotes) (params : Parameters) (d : Directive) (i : Option Identity) (c : Context)
      → is_inert d ≡ true
      → SameOf c (authorize w params d i c)
  inert-SameOf w params (anonymous allow) i c h = Same-refl c
  inert-SameOf w params (anyone allow) i c h = Same-refl c
  inert-SameOf w params (id name) none c h = Same-refl c
  inert-SameOf w params (id name) (some i) c h = Same-refl c
  inert-SameOf w params (role rs) none c h = Same-refl c
  inert-SameOf w params (role rs) (some i) c h = lift-SameOf c (matches rs (roles w i) params)
  inert-SameOf w params (rule ds) i c h = all-SameOf w params ds i c h
  inert-SameOf w params (scheme required) i c h = schemed-SameOf w required c.authorization c
  inert-SameOf w params (assert true) i c h = Same-refl c
  inert-SameOf w params (assert false) i c h = cc
  inert-SameOf w params (incept property) i c h = Same-refl c
  inert-SameOf w params echo i c h = cc
  inert-SameOf w params refresh i c h = cc
  inert-SameOf w params (delegate property) none c h = Same-refl c
  inert-SameOf w params (delegate property) (some i) c h = (refl, refl, refl, refl)
  inert-SameOf w params (transfer property) i c h =
      if-SameOf c c.procedural _ _ (Same-refl c) (given-Same property c.authorization c)

  all-SameOf :
      (w : Remotes) (params : Parameters) (ds : Directives) (i : Option Identity) (c : Context)
      → all_inert ds ≡ true
      → SameOf c (authorize_all w params ds i c)
  all-SameOf w params nil i c h = Same-refl c
  all-SameOf w params (also d ds) i c h =
      next_if-SameOf c (λ c'. authorize_all w params ds i c') (authorize w params d i c)
        (inert-SameOf w params d i c (ground arith))
        (λ c'. all-SameOf w params ds i c' (ground arith))

-- A result that does not allow.
unfoldable pub Refuses : Result (Bool × Context) → Type 0
Refuses (raise e) = Unit
Refuses (ok (false, c)) = Unit
Refuses (ok (true, c)) = ⊥

anonymously-Same :
    (allow : Bool) (c c' : Context) → Same c c' → anonymously allow c' ≡ anonymously allow c
unfolding anonymously presented
anonymously-Same allow c c' (who, header, procedural, exploratory) =
    rw (header, procedural, exploratory) refl

presented-Same : (c c' : Context) → Same c c' → presented c' ≡ presented c
unfolding presented
presented-Same c c' (_, header, _, _) = rw header refl

mutual
  unfolding admits

  -- A context is described from what stays the same of it.
  pub admits-Same :
      (w : Remotes) (d : Directive) (i : Option Identity) (c c' : Context)
      → Same c c'
      → admits w d i c' ≡ admits w d i c
  admits-Same w (anonymous allow) i c c' s = ap some (anonymously-Same allow c c' s)
  admits-Same w (anyone allow) i c c' s = ap (λ o. some (is_somebody o && allow)) s.0
  admits-Same w (id name) none c c' s = refl
  admits-Same w (id name) (some i) c c' s = refl
  admits-Same w (role rs) i c c' s = refl
  admits-Same w (rule ds) i c c' s = admits_all-Same w ds i c c' s
  admits-Same w (scheme required) i c c' s = refl
  admits-Same w (assert disabled) i c c' s = refl
  admits-Same w (incept property) i c c' s = refl
  admits-Same w echo none c c' s = ap some (ap not (presented-Same c c' s))
  admits-Same w echo (some i) c c' s = refl
  admits-Same w refresh none c c' s = refl
  admits-Same w refresh (some i) c c' s = refl
  admits-Same w (delegate property) i c c' s = refl
  admits-Same w (transfer property) i c c' (_, _, s, _) = ap (λ b. some (not b)) s

  pub admits_all-Same :
      (w : Remotes) (ds : Directives) (i : Option Identity) (c c' : Context)
      → Same c c'
      → admits_all w ds i c' ≡ admits_all w ds i c
  admits_all-Same w nil i c c' s = refl
  admits_all-Same w (also d ds) i c c' s =
      rw (admits-Same w d i c c' s, admits_all-Same w ds i c c' s) refl

-- A directive of a method that leaves who calls as it is, where it does not allow.
unfoldable pub is_calm : Directive → Bool
unfolding all_inert
is_calm (rule ds) = all_inert ds
is_calm (assert disabled) = disabled
is_calm _ = true

inert_calm : (d : Directive) → is_inert d ≡ true → is_calm d ≡ true
unfolding is_inert is_calm
inert_calm (rule ds) h = h
inert_calm (assert disabled) h = h
inert_calm echo h = cc
inert_calm refresh h = cc
inert_calm (anonymous allow) h = refl
inert_calm (anyone allow) h = refl
inert_calm (id name) h = refl
inert_calm (role rs) h = refl
inert_calm (scheme s) h = refl
inert_calm (incept property) h = refl
inert_calm (delegate property) h = refl
inert_calm (transfer property) h = refl

if-Refuses :
    (b : Bool) (x y : Result (Bool × Context))
    → Refuses x
    → Refuses y
    → Refuses (if b then x else y)
if-Refuses true x y h h' = h
if-Refuses false x y h h' = h'

schemed-Refuses :
    (w : Remotes) (s : Text) (o : Option Text) (c : Context) → Refuses (schemed w s o c)
unfolding schemed schemed_by Refuses
schemed-Refuses w s none c = tt
schemed-Refuses w s (some header) c = elim (Option-cases (split header)) [
  | inl e ↦ rw e tt
  | inr (parts, e) ↦ rw e (if-Refuses (same_text (w.lower parts.0) s) _ _ tt tt)
]

told-Refuses : (c : Context) (r : Result Bool) → told r ≡ some false → Refuses (lift c r)
unfolding told lift Refuses
told-Refuses c (ok true) h = cc
told-Refuses c (ok false) h = tt
told-Refuses c (raise e) h = tt

refused_flag : (c : Context) (b : Bool) → b ≡ false → Refuses (ok (b, c))
unfolding Refuses
refused_flag c true h = cc
refused_flag c false h = tt

if_untold :
    (b : Bool) (o : Option Bool)
    → (if b then none else o) ≡ some false
    → (b ≡ false) × (o ≡ some false)
if_untold true o h = cc
if_untold false o h = (refl, h)

matches-fixed :
    (rs : List (List Piece)) (has : List Text) (params : Parameters)
    → dynamic rs ≡ false
    → matches rs has params ≡ matches rs has []
unfolding matches
matches-fixed rs has params fixed = rw fixed refl

role-Refuses :
    (w : Remotes) (params : Parameters) (rs : List (List Piece)) (i : Option Identity) (c : Context)
    → admits w (role rs) i c ≡ some false
    → Refuses (authorize w params (role rs) i c)
unfolding admits authorize
role-Refuses w params rs none c h = unfold Refuses in tt
role-Refuses w params rs (some i) c h =
    let (fixed, plain) = if_untold (dynamic rs) (told (matches rs (roles w i) [])) h in
    rw (matches-fixed rs (roles w i) params fixed)
      (told-Refuses c (matches rs (roles w i) []) plain)

next_if-Refuses :
    (next : Context → Result (Bool × Context)) (r : Result (Bool × Context))
    → Refuses r
    → Refuses (next_if next r)
unfolding next_if Refuses
next_if-Refuses next (raise e) h = tt
next_if-Refuses next (ok (false, c)) h = tt
next_if-Refuses next (ok (true, c)) h = absurd h

next_if-Refuses-next :
    (c : Context) (next : Context → Result (Bool × Context)) (r : Result (Bool × Context))
    → SameOf c r
    → ((c' : Context) → Same c c' → Refuses (next c'))
    → Refuses (next_if next r)
unfolding next_if Refuses SameOf
next_if-Refuses-next c next (raise e) s n = tt
next_if-Refuses-next c next (ok (false, c')) s n = tt
next_if-Refuses-next c next (ok (true, c')) s n = n c' s

pub untold_cases :
    (a b : Option Bool) → untold_if a b ≡ some false → (a ≡ some false) ⊎ (b ≡ some false)
unfolding untold_if
untold_cases none none h = cc
untold_cases none (some true) h = cc
untold_cases none (some false) h = inr refl
untold_cases (some true) b h = inr h
untold_cases (some false) b h = inl refl

if_first :
    (b : Bool) (x y : Result (Bool × Context)) → b ≡ true → Refuses x → Refuses (if b then x else y)
if_first true x y h r = r
if_first false x y h r = cc

echo-Refuses :
    (w : Remotes) (params : Parameters) (c : Context)
    → not (presented c) ≡ false
    → Refuses (authorize w params echo none c)
unfolding authorize
echo-Refuses w params c h =
    let there : presented c ≡ true = ground arith in rw there (unfold Refuses in tt)

transfer-Refuses :
    (w : Remotes) (params : Parameters) (s : Text) (i : Option Identity) (c : Context)
    → not c.procedural ≡ false
    → Refuses (authorize w params (transfer s) i c)
unfolding authorize
transfer-Refuses w params s i c h =
    let called : c.procedural ≡ true = ground arith in
    if_first c.procedural (ok (false, c)) _ called (unfold Refuses in tt)

all_inert-parts :
    (d : Directive) (ds : Directives)
    → all_inert (also d ds) ≡ true
    → (is_inert d ≡ true) × (all_inert ds ≡ true)
unfolding all_inert
all_inert-parts d ds h = ground arith

mutual
  unfolding admits authorize is_calm Refuses

  -- What a directive is told not to admit, it does not allow: neither the one it is told of nor, of
  -- a rule, all of them.
  pub told_refused :
      (w : Remotes) (params : Parameters) (d : Directive) (i : Option Identity) (c : Context)
      → is_calm d ≡ true
      → admits w d i c ≡ some false
      → Refuses (authorize w params d i c)
  told_refused w params (anonymous allow) i c calm h = refused_flag c (anonymously allow c) (cc h)
  told_refused w params (anyone allow) i c calm h =
      refused_flag c (is_somebody c.identity && allow) (cc h)
  told_refused w params (id name) none c calm h = tt
  told_refused w params (id name) (some i) c calm h = cc
  told_refused w params (role rs) i c calm h = role-Refuses w params rs i c h
  told_refused w params (rule ds) i c calm h = all_refused w params ds i c calm h
  told_refused w params (scheme required) i c calm h = schemed-Refuses w required c.authorization c
  told_refused w params (assert true) i c calm h = tt
  told_refused w params (assert false) i c calm h = cc
  told_refused w params (incept property) i c calm h = cc
  told_refused w params echo none c calm h = echo-Refuses w params c (cc h)
  told_refused w params echo (some i) c calm h = cc
  told_refused w params refresh none c calm h = tt
  told_refused w params refresh (some i) c calm h = cc
  told_refused w params (delegate property) none c calm h = tt
  told_refused w params (delegate property) (some i) c calm h = cc
  told_refused w params (transfer property) i c calm h =
      transfer-Refuses w params property i c (cc h)

  all_refused :
      (w : Remotes) (params : Parameters) (ds : Directives) (i : Option Identity) (c : Context)
      → all_inert ds ≡ true
      → admits_all w ds i c ≡ some false
      → Refuses (authorize_all w params ds i c)
  all_refused w params nil i c inert h = cc
  all_refused w params (also d ds) i c inert h =
      let (first, rest) = all_inert-parts d ds inert in
      elim (untold_cases (admits w d i c) (admits_all w ds i c) h) [
        | inl here ↦
            next_if-Refuses _ (authorize w params d i c)
              (told_refused w params d i c (inert_calm d first) here)
        | inr there ↦
            next_if-Refuses-next c _ (authorize w params d i c) (inert-SameOf w params d i c first)
              (λ c' s. all_refused w params ds i c' rest (admits_all-Same w ds i c c' s ∙ there))
      ]

echo-SameOf :
    (w : Remotes) (params : Parameters) (c : Context)
    → not (presented c) ≡ false
    → SameOf c (authorize w params echo none c)
unfolding authorize
echo-SameOf w params c h =
    let there : presented c ≡ true = ground arith in rw there (unfold SameOf in Same-refl c)

-- What is told not to admit leaves who calls as it is.
pub told_same :
    (w : Remotes) (params : Parameters) (d : Directive) (i : Option Identity) (c : Context)
    → is_calm d ≡ true
    → admits w d i c ≡ some false
    → SameOf c (authorize w params d i c)
unfolding admits is_calm is_inert
told_same w params (rule ds) i c calm h = inert-SameOf w params (rule ds) i c calm
told_same w params (assert disabled) i c calm h = inert-SameOf w params (assert disabled) i c calm
told_same w params echo none c calm h = echo-SameOf w params c (cc h)
told_same w params echo (some i) c calm h = cc
told_same w params refresh none c calm h = unfold authorize SameOf in Same-refl c
told_same w params refresh (some i) c calm h = cc
told_same w params (anonymous allow) i c calm h = inert-SameOf w params (anonymous allow) i c refl
told_same w params (anyone allow) i c calm h = inert-SameOf w params (anyone allow) i c refl
told_same w params (id name) i c calm h = inert-SameOf w params (id name) i c refl
told_same w params (role rs) i c calm h = inert-SameOf w params (role rs) i c refl
told_same w params (scheme s) i c calm h = inert-SameOf w params (scheme s) i c refl
told_same w params (incept property) i c calm h = inert-SameOf w params (incept property) i c refl
told_same w params (delegate property) i c calm h =
    inert-SameOf w params (delegate property) i c refl
told_same w params (transfer property) i c calm h =
    inert-SameOf w params (transfer property) i c refl
