-- ===== src/Auth/Identities.antt =====
-- What a credential names: schemes.ts, split.ts, types.ts, and of Authorization.ts `preflight`,
-- `resolve` and the audience of a token.
pub mod Sound
pub mod Vetted
use toa.Prelude.{
  ℕ, Bool, true, false, not, ◌||◌, ◌&&◌, Option, none, some, List, [], ◌∷◌, ◌++◌, any, ltb, ◌==◌,
  if◌then◌else◌,
}
use toa.Prelude.Texts.{Text, codes, same_text, below}

-- The components that authenticate.
pub data Remote : Type 0 where
  basic federation tokens otp : Remote

pub record Identity : Type 0 where
  pub id : Text
  pub roles : Option (List Text)
  pub permissions : Option (List (Text × List Text))
  pub aud : Option (List Text)
  pub scheme : Option Text
  pub provider : Option Remote
  pub refresh : Bool

-- `create`, of no credential
pub create : Text → Identity
create newid = record {
  id = newid;
  roles = some [];
  permissions = none;
  aud = none;
  scheme = none;
  provider = none;
  refresh = false;
}

-- The code of an error: `UNRECOGNIZED`, `NOT_FOUND` and the others.
pub data Code : Type 0 where
  unrecognized unknown other : Code

pub data Answer : Type 0 where
  accepted : Identity → Bool → Answer
  rejected : Option Code → Answer

-- What forcing a token answers.
pub data Forced : Type 0 where
  forced unrefreshable failed : Forced

-- The components, `toLowerCase`, `new URL` with its hostname and its path, and `Minimatch`.
pub record Remotes : Type 0 where
  pub authenticate : Remote → Text → Text → Answer
  pub force : Text → Forced
  pub banned : Text → Bool
  pub roles_of : Text → List Text
  pub incept : Remote → Text → Text → Text → Option Identity
  pub newid : Text
  pub encrypt : Identity → Text
  pub lower : Text → Text
  pub url : Text → Option (Text × Text)
  pub glob : Text → Text → Bool

pub data Refusal : Type 0 where
  unauthorized forbidden bad_request unprocessable broken : Refusal
  too_many_requests : ℕ → Refusal

pub data Result {ℓ} (A : Type ℓ) : Type ℓ where
  ok : A → Result A
  raise : Refusal → Result A

-- What is done to the body, when it comes.
pub data Push : Type 0 where
  delegated : Text → Identity → Push
  transferred : Text → Text → Push

pub record Context : Type 0 where
  -- the header
  pub authorization : Option Text
  pub identity : Option Identity
  pub rejection : Option Code
  pub vetted : Bool
  pub procedural : Bool
  pub exploratory : Bool
  pub verb : Text
  pub hostname : Text
  pub pathname : Text
  pub pushed : List Push
  -- the response's status is 201
  pub created : Bool

abbrev space : ℕ
space = b' '

before : ℕ → Option (Text × Text) → Option (Text × Text)
before c none = none
before c (some (scheme, value)) = some (c ∷ scheme, value)

-- `split`, before the scheme is put in lower case
pub split : Text → Option (Text × Text)
unfolding before
split [] = none
split (c ∷ s) = let rest = split s in if c == space then some ([], s) else before c rest

-- `providers`
pub providers : Text → Option (List Remote)
providers scheme =
    if same_text scheme (codes "basic")
    then some (basic ∷ [])
    else if same_text scheme (codes "token")
    then some (tokens ∷ [])
    else if same_text scheme (codes "bearer")
    then some (tokens ∷ federation ∷ [])
    else if same_text scheme (codes "code")
    then some (federation ∷ [])
    else if same_text scheme (codes "otp")
    then some (otp ∷ [])
    else none

pub is_primary : Remote → Bool
is_primary tokens = true
is_primary _ = false

pub declined : Answer → Bool
declined (rejected (some unrecognized)) = true
declined _ = false

-- The loop of `resolve`: the first provider that does not decline, with its answer.
pub claimed : (Remote → Answer) → List Remote → Option (Remote × Answer)
unfolding declined
claimed ask [] = none
claimed ask (r ∷ rs) =
    let rest = claimed ask rs in if declined (ask r) then rest else some (r, ask r)

-- The context after a rejection; the code is kept if there is one.
refuse : Option Code → Context → Context
refuse none c = record c { identity = none }
refuse (some code) c = record c { identity = none; rejection = some code }

admit : Text → Remote → Bool → Identity → Context → Context
admit scheme r refresh i c = record c {
  identity = some (record i { scheme = some scheme; provider = some r; refresh = refresh });
  vetted = if is_primary r then c.vetted else true;
}

-- The end of `resolve`, with whether the meter is charged.
pub concluded : Remotes → Text → Context → Option (Remote × Answer) → Result (Context × Bool)
unfolding refuse admit is_primary
concluded w scheme c none = ok (refuse (some unrecognized) c, true)
concluded w scheme c (some (r, rejected code)) = ok (refuse code c, true)
concluded w scheme c (some (r, accepted i refresh)) =
    if not (is_primary r) && w.banned i.id
    then raise unauthorized
    else ok (admit scheme r refresh i c, false)

pub asked : Remotes → Text → Text → Context → Option (List Remote) → Result (Context × Bool)
unfolding claimed concluded
asked w scheme value c none = raise unauthorized
asked w scheme value c (some rs) =
    concluded w scheme c (claimed (λ r. w.authenticate r scheme value) rs)

parted : Remotes → Context → Option (Text × Text) → Result (Context × Bool)
unfolding asked providers
parted w c none = raise unauthorized
parted w c (some (scheme, value)) = asked w (w.lower scheme) value c (providers (w.lower scheme))

-- `resolve` of a header; `retry` is what the meter answers, 0 where there is none.
pub resolve : Remotes → ℕ → Context → Text → Result (Context × Bool)
unfolding parted split
resolve w retry c authorization =
    if ltb 0 retry then raise (too_many_requests retry) else parted w c (split authorization)

abbrev pub slash : ℕ
slash = b'/'

-- `declared.endsWith('/') ? declared.slice(0, -1) : declared`
unfoldable pub stripped : Text → Text
stripped [] = []
stripped (c ∷ []) = if c == slash then [] else c ∷ []
stripped (c ∷ d ∷ s) = c ∷ stripped (d ∷ s)

-- `prefixed`, of a prefix
pub begins : Text → Text → Bool
begins [] pathname = true
begins (c ∷ p) pathname = below slash (c ∷ p) pathname

unfoldable pub prefixed : Text → Text → Bool
unfolding stripped begins
prefixed declared pathname = begins (stripped declared) pathname

is_path : Text → Bool
is_path [] = false
is_path (c ∷ s) = c == slash

pub covers : Remotes → Context → Text → Bool
unfolding prefixed is_path
covers w c value = if is_path value then prefixed value c.pathname else elim (w.url value) [
  | none ↦ false
  | some (hostname, pathname) ↦ same_text hostname c.hostname && prefixed pathname c.pathname
]

-- `audience`
pub audience : Remotes → Context → Option Identity → Bool
unfolding covers
audience w c none = true
audience w c (some i) = elim i.aud [ none ↦ true | some auds ↦ any (covers w c) auds ]

heard : Remotes → Result (Context × Bool) → Result (Context × Bool)
unfolding audience
heard w (raise e) = raise e
heard w (ok (c, used)) = if audience w c c.identity then ok (c, used) else raise unauthorized

presenting : Remotes → ℕ → Bool → Context → Option Text → Result (Context × Bool)
unfolding heard resolve
presenting w retry transfers c none = ok (record c { identity = none }, false)
presenting w retry transfers c (some header) =
    if transfers
    then ok (record c { identity = none }, false)
    else heard w (resolve w retry c header)

-- `preflight`: whether some directive transfers the credential, and the context.
unfoldable pub preflight : Remotes → ℕ → Bool → Context → Result (Context × Bool)
unfolding presenting
preflight w retry transfers c = presenting w retry transfers c c.authorization
