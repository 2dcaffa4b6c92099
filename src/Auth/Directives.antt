-- ===== src/Auth/Directives.antt =====
-- What each directive makes of a call: Anonymous.ts, Anyone.ts, Id.ts, Role.ts, Rule.ts, Scheme.ts,
-- Assert.ts, Incept.ts, Echo.ts, Refresh.ts, Delegate.ts and Transfer.ts.
pub mod Told
pub mod Inert
pub mod Incepted
use toa.Prelude.{
  ℕ, Bool, true, false, not, ◌||◌, ◌&&◌, Option, none, some, List, [], ◌∷◌, ◌++◌, any, ◌==◌,
  if◌then◌else◌,
}
use toa.Prelude.Maps.{contains}
use toa.Prelude.Texts.{Text, same_text, below}
use toa.Auth.Identities.{
  Remote, basic, federation, tokens, otp, Identity, create, Code, unknown, Forced, forced,
  unrefreshable, failed, Remotes, Refusal, unauthorized, forbidden, bad_request, unprocessable,
  broken, Result, ok, raise, Push, delegated, transferred, Context, split, providers, is_primary,
}

-- A part of a role: `{name}` is a variable.
pub data Piece : Type 0 where
  written variable : Text → Piece

abbrev pub Parameters : Type 0
Parameters = List (Text × Text)

mutual
  pub data Directive : Type 0 where
    anonymous anyone : Bool → Directive
    id : Text → Directive
    role : List (List Piece) → Directive
    rule : Directives → Directive
    scheme : Text → Directive
    assert : Bool → Directive
    incept : Option Text → Directive
    echo refresh : Directive
    delegate transfer : Text → Directive

  pub data Directives : Type 0 where
    nil : Directives
    also : Directive → Directives → Directives

-- The value of a route's variable.
pub value : Text → Parameters → Option Text
value name [] = none
value name ((k, v) ∷ ps) = if same_text k name then some v else value name ps

-- `role.includes('{')`
is_dynamic : List Piece → Bool
is_dynamic [] = false
is_dynamic (written s ∷ ps) = contains b'{' s || is_dynamic ps
is_dynamic (variable name ∷ ps) = true

spelled : List Piece → Text
spelled [] = []
spelled (written s ∷ ps) = s ++ spelled ps
spelled (variable name ∷ ps) = (b'{' ∷ name) ++ (b'}' ∷ spelled ps)

joined : Text → Option Text → Option Text
joined s none = none
joined s (some t) = some (s ++ t)

joined_value : Option Text → Option Text → Option Text
unfolding joined
joined_value none t = none
joined_value (some v) t = joined v t

-- A role with its variables replaced; `none` where one has no value, which is an error.
pub substituted : Parameters → List Piece → Option Text
unfolding joined joined_value value
substituted params [] = some []
substituted params (written s ∷ ps) = joined s (substituted params ps)
substituted params (variable name ∷ ps) = joined_value (value name params) (substituted params ps)

gathered : Option Text → Option (List Text) → Option (List Text)
gathered none rs = none
gathered (some r) none = none
gathered (some r) (some rs) = some (r ∷ rs)

-- `substitute`
pub substitute : Parameters → List (List Piece) → Option (List Text)
unfolding substituted gathered
substitute params [] = some []
substitute params (r ∷ rs) = gathered (substituted params r) (substitute params rs)

spelled_all : List (List Piece) → List Text
unfolding spelled
spelled_all [] = []
spelled_all (r ∷ rs) = spelled r ∷ spelled_all rs

pub dynamic : List (List Piece) → Bool
unfolding is_dynamic
dynamic rs = any is_dynamic rs

-- `expected === role || expected.startsWith(role + ':')`
pub grants : Text → Text → Bool
grants r expected = below b':' r expected

-- Whether a role that the identity has grants one that is required.
pub has_role : List Text → List Text → Bool
unfolding grants
has_role roles required = any (λ r. any (grants r) required) roles

has_required : List Text → Option (List Text) → Result Bool
unfolding has_role
has_required roles none = raise broken
has_required roles (some required) = ok (has_role roles required)

-- `match` of a role
pub matches : List (List Piece) → List Text → Parameters → Result Bool
unfolding has_required spelled_all dynamic substitute
matches rs roles params =
    has_required roles (if dynamic rs then substitute params rs else some (spelled_all rs))

abbrev pub roles : Remotes → Identity → List Text
roles w i = elim i.roles [ none ↦ w.roles_of i.id | some rs ↦ rs ]

same_id : Option Text → Text → Bool
same_id none i = false
same_id (some v) i = same_text v i

is_unknown : Option Code → Bool
is_unknown (some unknown) = true
is_unknown _ = false

-- `Incept.acceptable`
pub acceptable : Context → Bool
unfolding is_unknown
acceptable c = elim c.authorization [ none ↦ true | some header ↦ is_unknown c.rejection ]

-- The provider that incepts, of those of a scheme.
incepting : List Remote → Option Remote
incepting [] = none
incepting (basic ∷ rs) = some basic
incepting (federation ∷ rs) = some federation
incepting (tokens ∷ rs) = incepting rs
incepting (otp ∷ rs) = incepting rs

born : Text → Option Identity → Result Identity
born by none = raise unprocessable
born by (some i) = ok (record i { scheme = some by })

incepted_by : Remotes → Text → Text → Text → Option Remote → Result Identity
unfolding born
incepted_by w who by credentials none = raise unauthorized
incepted_by w who by credentials (some r) =
    if w.banned who then raise unauthorized else born by (w.incept r by who credentials)

incepted_of : Remotes → Text → Text → Text → Option (List Remote) → Result Identity
unfolding incepted_by incepting
incepted_of w who by credentials none = raise bad_request
incepted_of w who by credentials (some rs) = incepted_by w who by credentials (incepting rs)

incepted_parts : Remotes → Text → Option (Text × Text) → Result Identity
unfolding incepted_of
incepted_parts w who none = raise unauthorized
incepted_parts w who (some (by, credentials)) =
    incepted_of w who (w.lower by) credentials (providers (w.lower by))

-- `Incept.incept`
pub incepted : Remotes → Text → Text → Result Identity
unfolding incepted_parts
incepted w header who = incepted_parts w who (split header)

began : Context → Result Identity → Result (Bool × Context)
began c (raise e) = raise e
began c (ok i) = ok (false, record c { identity = some i; created = true })

inceptive : Remotes → Text → Option Identity → Context → Result (Bool × Context)
unfolding began incepted acceptable
inceptive w header (some i) c = ok (false, c)
inceptive w header none c =
    if acceptable c then began c (incepted w header w.newid) else raise unauthorized

-- `Assert.incept` of a header, and that nobody is admitted
asserted : Remotes → Option Text → Option Identity → Context → Result (Bool × Context)
unfolding inceptive
asserted w none i c = raise unauthorized
asserted w (some header) i c = inceptive w header i c

schemed_by : Remotes → Text → Option (Text × Text) → Context → Result (Bool × Context)
schemed_by w required none c = raise unauthorized
schemed_by w required (some (by, credentials)) c =
    if same_text (w.lower by) required then ok (false, c) else raise forbidden

-- `Scheme.authorize` of a header, of a scheme in lower case
schemed : Remotes → Text → Option Text → Context → Result (Bool × Context)
unfolding schemed_by
schemed w required none c = ok (false, c)
schemed w required (some header) c = schemed_by w required (split header) c

marked : Option Identity → Option Identity
marked none = none
marked (some i) = some (record i { refresh = true })

renewed : Context → Forced → Result (Bool × Context)
unfolding marked
renewed c forced = ok (true, record c { identity = marked c.identity })
renewed c unrefreshable = ok (false, c)
renewed c failed = raise unauthorized

forced_by : Remotes → Option (Text × Text) → Context → Result (Bool × Context)
unfolding renewed
forced_by w none c = raise unauthorized
forced_by w (some (by, credentials)) c = renewed c (w.force credentials)

-- `authorization!`
forcing : Remotes → Option Text → Context → Result (Bool × Context)
unfolding forced_by
forcing w none c = raise broken
forcing w (some header) c = forced_by w (split header) c

alien : Option Remote → Bool
alien none = true
alien (some r) = not (is_primary r)

-- `Refresh.authorize` of an identity
refreshed : Remotes → Identity → Context → Result (Bool × Context)
unfolding forcing alien
refreshed w i c = if alien i.provider then ok (true, c) else forcing w c.authorization c

-- `context.identity ??= create()`
invented : Remotes → Option Identity → Option Identity
invented w none = some (create w.newid)
invented w (some i) = some i

echoed : Remotes → Context → Result (Bool × Context)
unfolding invented
echoed w c = ok (true, record c { identity = invented w c.identity })

-- What a header is given to.
given : Text → Option Text → Context → Context
given property none c = c
given property (some header) c = record c { pushed = c.pushed ++ transferred property header ∷ [] }

lift : Context → Result Bool → Result (Bool × Context)
lift c (ok b) = ok (b, c)
lift c (raise e) = raise e

-- What follows a directive of a rule: the next one, if it authorized.
next_if : (Context → Result (Bool × Context)) → Result (Bool × Context) → Result (Bool × Context)
next_if next (raise e) = raise e
next_if next (ok (false, c)) = ok (false, c)
next_if next (ok (true, c)) = next c

unfoldable pub presented : Context → Bool
presented c = elim c.authorization [ none ↦ false | some header ↦ true ]

unfoldable pub anonymously : Bool → Context → Bool
unfolding presented
anonymously allow c =
    if c.procedural || c.exploratory then allow else if presented c then false else allow

unfoldable pub is_somebody : Option Identity → Bool
is_somebody none = false
is_somebody (some i) = true

-- `Anyone.authorize`
abbrev by_anyone : Bool → Context → Bool
by_anyone allow c = is_somebody c.identity && allow

-- `Id.authorize`
abbrev by_id : Text → Parameters → Option Identity → Bool
by_id name params none = false
by_id name params (some i) = same_id (value name params) i.id

-- `Role.authorize`
abbrev by_role :
    Remotes → Parameters → List (List Piece) → Option Identity → Context → Result (Bool × Context)
by_role w params rs none c = ok (false, c)
by_role w params rs (some i) c = lift c (matches rs (roles w i) params)

-- `Incept.authorize`
abbrev by_incept : Option Identity → Context → Bool
by_incept i c = not (is_somebody i) && acceptable c

-- `Echo.authorize`
abbrev by_echo : Remotes → Option Identity → Context → Result (Bool × Context)
by_echo w none c = if presented c then ok (false, c) else echoed w c
by_echo w (some i) c = echoed w c

-- `Delegate.authorize`
abbrev by_delegate : Remotes → Text → Option Identity → Context → Result (Bool × Context)
by_delegate w property none c = ok (false, c)
by_delegate w property (some i) c = ok (
  true,
  record c { pushed = c.pushed ++ delegated property (record i { roles = some (roles w i) }) ∷ [] },
)

-- `Transfer.authorize`
abbrev by_transfer : Text → Context → Result (Bool × Context)
by_transfer property c =
    if c.procedural then ok (false, c) else ok (true, given property c.authorization c)

unfoldable mutual
  unfolding same_id matches asserted schemed refreshed echoed given lift next_if anonymously
      is_somebody acceptable presented

  -- `authorize` of each: whether it is allowed, and the context it leaves
  pub authorize :
      Remotes → Parameters → Directive → Option Identity → Context → Result (Bool × Context)
  authorize w params (anonymous allow) i c = ok (anonymously allow c, c)
  authorize w params (anyone allow) i c = ok (by_anyone allow c, c)
  authorize w params (id name) i c = ok (by_id name params i, c)
  authorize w params (role rs) i c = by_role w params rs i c
  authorize w params (rule ds) i c = authorize_all w params ds i c
  authorize w params (scheme required) i c = schemed w required c.authorization c
  authorize w params (assert disabled) i c =
      if disabled then ok (false, c) else asserted w c.authorization i c
  authorize w params (incept property) i c = ok (by_incept i c, c)
  authorize w params echo i c = by_echo w i c
  authorize w params refresh none c = ok (false, c)
  authorize w params refresh (some i) c = refreshed w i c
  authorize w params (delegate property) i c = by_delegate w property i c
  authorize w params (transfer property) i c = by_transfer property c

  authorize_all :
      Remotes → Parameters → Directives → Option Identity → Context → Result (Bool × Context)
  authorize_all w params nil i c = ok (true, c)
  authorize_all w params (also d ds) i c =
      next_if (λ c'. authorize_all w params ds i c') (authorize w params d i c)

told : Result Bool → Option Bool
told (ok b) = some b
told (raise e) = none

-- What follows a directive of a rule that is described: one that refuses ends it, and one that
-- cannot tell leaves it untold.
unfoldable pub untold_if : Option Bool → Option Bool → Option Bool
untold_if (some false) more = some false
untold_if (some true) more = more
untold_if none (some false) = some false
untold_if none _ = none

unfoldable mutual
  unfolding matches told untold_if anonymously is_somebody presented dynamic

  -- `admits`; `none` is undefined, and where there is no `admits`
  pub admits : Remotes → Directive → Option Identity → Context → Option Bool
  admits w (anonymous allow) i c = some (anonymously allow c)
  admits w (anyone allow) i c = some (is_somebody c.identity && allow)
  admits w (id name) none c = some false
  admits w (id name) (some i) c = none
  admits w (role rs) i c =
      if dynamic rs
      then none
      else elim i [ none ↦ some false | some who ↦ told (matches rs (roles w who) []) ]
  admits w (rule ds) i c = admits_all w ds i c
  admits w (scheme required) i c = some false
  admits w (assert disabled) i c = some false
  admits w (incept property) i c = none
  admits w echo none c = some (not (presented c))
  admits w echo (some i) c = some true
  admits w refresh none c = some false
  admits w refresh (some i) c = none
  admits w (delegate property) i c = some (is_somebody i)
  admits w (transfer property) i c = some (not c.procedural)

  pub admits_all : Remotes → Directives → Option Identity → Context → Option Bool
  admits_all w nil i c = some true
  admits_all w (also d ds) i c = untold_if (admits w d i c) (admits_all w ds i c)
