-- ===== src/Query/Parse.antt =====
-- A query that is read from a request: `parse` and `#options` of runtime/core/source/query.ts.
--
-- A key whose value is `undefined` is not told from one that is not there.
pub mod Alone
use toa.Prelude.{ℕ, Bool, true, false, not, ◌||◌, if◌then◌else◌, Option, none, some, List, [], ◌∷◌}
use toa.Prelude.Texts.{Text}
use toa.Query.Property.{Properties}
use toa.Query.Options.{Given, Options, options}
use toa.Query.Criteria.{Result, ok, refused, undefined}
use toa.Query.Cache.{Asts, criteria}

-- The options that are passed on as they are.
pub record Passed : Type 0 where
  pub omit : Option ℕ
  pub limit : Option ℕ
  pub sample : Option ℕ
  pub deleted : Option Bool
  pub token : Option Text
  pub stop : Option Bool

-- `Query` of types/request.ts; `given` and `passed` are `rest`.
pub record Requested : Type 0 where
  pub id : Option Text
  pub ids : Option (List Text)
  pub version : Option ℕ
  pub criteria : Option Text
  pub search : Option Text
  pub given : Given
  pub passed : Passed

-- `Query` of types/storages.ts
pub record Parsed (N : Type 0) : Type 0 where
  pub id : Option Text
  pub ids : Option (List Text)
  pub version : Option ℕ
  pub criteria : Option N
  pub search : Option Text
  pub options : Option (Options × Passed)

unfoldable pub is_given : {A : Type 0} → Option A → Bool
is_given none = false
is_given (some a) = true

-- `empty(given)`
unfoldable pub is_empty : Given → Passed → Bool
unfolding is_given
is_empty given passed = not (
    is_given given.sort
    || is_given given.projection
    || is_given passed.omit
    || is_given passed.limit
    || is_given passed.sample
    || is_given passed.deleted
    || is_given passed.token
    || is_given passed.stop)

unfoldable pub wanted : Passed → Option Options → Result (Option (Options × Passed))
wanted passed none = refused undefined
wanted passed (some o) = ok (some (o, passed))

-- `#options`
unfoldable pub options_of : Properties → Given → Passed → Result (Option (Options × Passed))
unfolding is_empty wanted
options_of ps given passed =
    if is_empty given passed then ok none else wanted passed (options ps given)

module _ {N : Type 0} where
  expressed : Result N → Result (Option N)
  expressed (refused e) = refused e
  expressed (ok n) = ok (some n)

  -- `if (criteria !== undefined) result.criteria = this.#criteria(criteria)`
  criteria_of : (Text → Result N) → Option Text → Asts N → Result (Option N) × Asts N
  unfolding expressed
  criteria_of read none asts = (ok none, asts)
  criteria_of read (some e) asts = let (r, asts') = criteria read e asts in (expressed r, asts')

  assembled : Requested → Option (Options × Passed) → Result (Option N) → Result (Parsed N)
  assembled q o (refused e) = refused e
  assembled q o (ok c) = ok (record {
    id = q.id;
    ids = q.ids;
    version = q.version;
    criteria = c;
    search = q.search;
    options = o;
  })

  unfoldable pub parsed :
      (Text → Result N)
      → Requested
      → Result (Option (Options × Passed))
      → Asts N
      → Result (Parsed N) × Asts N
  unfolding criteria_of assembled
  parsed read q (refused e) asts = (refused e, asts)
  parsed read q (ok o) asts =
      let (c, asts') = criteria_of read q.criteria asts in (assembled q o c, asts')

  -- `parse`, where `read` is `criteria` of query/criteria.ts with the entity's properties
  unfoldable pub parse :
      (Text → Result N) → Properties → Requested → Asts N → Result (Parsed N) × Asts N
  unfolding parsed options_of
  parse read ps q asts = parsed read q (options_of ps q.given q.passed) asts

  -- What the queries that are parsed one after another come to, and what is kept at the end.
  pub parse_all :
      (Text → Result N) → Properties → List Requested → Asts N → List (Result (Parsed N)) × Asts N
  unfolding parse
  parse_all read ps [] asts = ([], asts)
  parse_all read ps (q ∷ qs) asts =
      let (r, asts') = parse read ps q asts in
      let (rs, last) = parse_all read ps qs asts' in (r ∷ rs, last)
