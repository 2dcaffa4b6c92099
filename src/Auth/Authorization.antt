-- ===== src/Auth/Authorization.antt =====
-- What a call is let through by: of Authorization.ts `arrange`, `precall`, `admits`, `permits`,
-- `settle` and `depart`, with `settle` of Incept.ts.
--
-- Of the response there is what its body has for a property, and the token it carries; the
-- directives `input` and `claims` are left out. No directive here states a priority, so that
-- sorting them leaves them in their order.
pub mod Refused
pub mod Clean
pub mod Issued
use toa.Prelude.{
  Bool, true, false, not, ◌||◌, ◌&&◌, Option, none, some, List, [], ◌∷◌, any, if◌then◌else◌,
}
use toa.Prelude.Texts.{Text, codes, same_text}
use toa.Auth.Identities.{
  Remote, Identity, create, Remotes, unauthorized, forbidden, broken, Result, ok, raise, Context,
  is_primary,
}
use toa.Auth.Directives.{
  Directive, Directives, nil, also, incept, transfer, incepted, Parameters, roles, is_somebody,
  authorize, admits,
}

-- The first directive that transfers the credential.
transfers : Directives → Option Directive
transfers nil = none
transfers (also (transfer property) ds) = some (transfer property)
transfers (also _ ds) = transfers ds

-- `arrange`
pub arrange : Directives → Directives
unfolding transfers
arrange ds = elim (transfers ds) [ none ↦ ds | some d ↦ also d nil ]

allows : Text → List Text → Bool
allows verb methods = any (λ m. same_text m (codes "*") || same_text m verb) methods

-- `permits`
pub permits : Remotes → List (Text × List Text) → Text → Text → Bool
unfolding allows
permits w permissions verb pathname = any (λ e. allows verb e.1 && w.glob e.0 pathname) permissions

permitted_of : Remotes → Context → Option Identity → Bool
unfolding permits
permitted_of w c none = true
permitted_of w c (some i) = elim i.permissions [
  | none ↦ true
  | some ps ↦ permits w ps c.verb c.pathname
]

-- `permitted`
pub permitted : Remotes → Context → Bool
unfolding permitted_of
permitted w c = permitted_of w c c.identity

-- What `authorize` of a directive leads to: the next one, if it did not allow.
decided :
    Remotes
    → Directive
    → (Context → Result (Directive × Context))
    → Result (Bool × Context)
    → Result (Directive × Context)
unfolding permitted
decided w d next (raise e) = raise e
decided w d next (ok (false, c)) = next c
decided w d next (ok (true, c)) = if permitted w c then ok (d, c) else raise forbidden

-- `precall`, with the directive that allowed, whose `reply` is the reply
unfoldable pub precall : Remotes → Parameters → Directives → Context → Result (Directive × Context)
unfolding decided
precall w params nil c = raise (if is_somebody c.identity then forbidden else unauthorized)
precall w params (also d ds) c =
    decided w d (λ c'. precall w params ds c') (authorize w params d c.identity c)

told_by : Option Bool → Bool → Bool
told_by none more = true
told_by (some b) more = b || more

-- `admits`
unfoldable pub admitted : Remotes → Directives → Context → Bool
unfolding told_by
admitted w nil c = false
admitted w (also d ds) c = told_by (admits w d c.identity c) (admitted w ds c)

-- `describing` of Introspection.ts: the same request, as a description of what it asks for
abbrev pub describing : Context → Context
describing c = record c { exploratory = true }

-- What the body of a response has for a property: nothing, a text, or something else.
pub data Found : Type 0 where
  absent other : Found
  held : Text → Found

came : Context → Result Identity → Result Context
came c (raise e) = raise e
came c (ok i) = ok (record c { identity = some i })

-- The identity of a response to a request with no header.
fresh : Remotes → Text → Identity
fresh w who = record (create who) { roles = some (w.roles_of who); refresh = true }

settled_as : Remotes → Text → Option Text → Context → Result Context
unfolding came fresh
settled_as w who none c = ok (record c { identity = some (fresh w who) })
settled_as w who (some header) c = came c (incepted w header who)

-- `Incept.settle`, of what the body has for the property
settled : Remotes → Context → Found → Result Context
unfolding settled_as
settled w c absent = ok c
settled w c other = raise broken
settled w c (held who) = settled_as w who c.authorization c

named : Option Text → Text
named none = codes "id"
named (some property) = property

settling : Remotes → (Text → Found) → Directive → Context → Result Context
unfolding settled named
settling w body (incept property) c = settled w c (body (named property))
settling w body _ c = ok c

settled_then : (Context → Result Context) → Result Context → Result Context
settled_then next (raise e) = raise e
settled_then next (ok c) = next c

-- `settle`, of the directives in the order in which they come to an end
unfoldable pub settle : Remotes → (Text → Found) → Directives → Context → Result Context
unfolding settling settled_then
settle w body nil c = ok c
settle w body (also d ds) c = settled_then (λ c'. settle w body ds c') (settling w body d c)

primary : Option Remote → Bool
primary none = false
primary (some r) = is_primary r

departing : Remotes → Context → Option Identity → Result (Option Text)
unfolding primary
departing w c none = ok none
departing w c (some i) =
    if primary i.provider && not i.refresh
    then ok none
    else if not c.vetted && w.banned i.id
    then raise unauthorized
    else ok (
        some (
          w.encrypt (record i {
            roles = some (if primary i.provider then w.roles_of i.id else roles w i);
          })))

-- `depart`, with the token that the response carries
unfoldable pub depart : Remotes → Context → Result (Option Text)
unfolding departing
depart w c = departing w c c.identity
