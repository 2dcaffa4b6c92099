-- ===== src/Auth/Tests.antt =====
-- A caller whose credential a federated provider claims.
use toa.Prelude.{◌≡◌, ◌≢◌, refl, ap, sym, true, false, none, some, [], ◌∷◌}
use toa.Prelude.Texts.{Text, codes, same_text}
use toa.Auth.Identities.{
  Remote, federation, tokens, Identity, unrecognized, Answer, accepted, rejected, forced, Remotes,
  ok, Context, audience, preflight,
}
use toa.Auth.Identities.Sound.{IsVouched, preflight-IsVouched}
use toa.Auth.Directives.{
  Directives, nil, also, anyone, id, delegate, rule, incept, authorize, admits,
}
use toa.Auth.Authorization.{precall, admitted, Found, held, settle, depart}
use toa.Auth.Authorization.Issued.{depart_unbanned}
use toa.Auth.Authorization.Refused.{all_calm, precall-hidden}

abbrev known : Identity
known = record {
  id = codes "i";
  roles = none;
  permissions = none;
  aud = some (codes "/a/" ∷ []);
  scheme = none;
  provider = none;
  refresh = false;
}

abbrev answers : Remote → Text → Text → Answer
answers tokens by credentials = rejected (some unrecognized)
answers _ by credentials = accepted known true

abbrev components : Remotes
components = record {
  authenticate = answers;
  force = λ s. forced;
  banned = λ s. same_text s (codes "z");
  roles_of = λ s. [];
  incept = λ r by who credentials. some (record known { id = who });
  newid = codes "n";
  encrypt = λ i. i.id;
  lower = λ s. s;
  url = λ s. none;
  glob = λ pattern path. true;
}

abbrev arrived : Context
arrived = record {
  authorization = some (codes "bearer x");
  identity = none;
  rejection = none;
  vetted = false;
  procedural = false;
  exploratory = false;
  verb = codes "GET";
  hostname = codes "h";
  pathname = codes "/a/b";
  pushed = [];
  created = false;
}

abbrev caller : Identity
caller = record known { scheme = some (codes "bearer"); provider = some federation; refresh = true }

abbrev read : Context
read = record arrived { identity = some caller; vetted = true }

preflight-IsVouched_example :
    (header : Text) × (arrived.authorization ≡ some header)
    × (false ≡ false)
    × IsVouched components header false true caller
    × (audience components read (some caller) ≡ true)
unfolding preflight
preflight-IsVouched_example =
    preflight-IsVouched components 0 false arrived read false caller refl refl

abbrev reborn : Identity
reborn = record known { id = codes "b"; scheme = some (codes "bearer") }

-- What a response has for every property.
abbrev body : Text → Found
body name = held (codes "b")

-- Anyone may call, and who a response names is incepted.
abbrev incepts : Directives
incepts = also (anyone true) (also (incept none) nil)

components-named :
    (r : Remote) (by who credentials : Text) (i : Identity)
    → components.incept r by who credentials ≡ some i
    → i.id ≡ who
components-named r by who credentials i e =
    let same : record known { id = who } ≡ i = cc e in ap (λ i'. i'.id) (sym same)

depart_unbanned_example : (i : Identity) × (some reborn ≡ some i) × (components.banned i.id ≡ false)
unfolding preflight precall authorize settle depart
depart_unbanned_example =
    depart_unbanned components components-named 0 false [] incepts incepts body arrived read read
      (record read { identity = some reborn }) false (anyone true) (codes "b") refl refl refl refl
      refl

abbrev guards : Directives
guards = also (rule (also (id (codes "u")) (also (delegate (codes "p")) nil))) nil

precall-hidden_example : precall components [] guards arrived ≢ ok (anyone true, arrived)
unfolding all_calm admitted admits
precall-hidden_example = precall-hidden components [] guards arrived arrived (anyone true) refl refl
