-- ===== src/Call/Invoke.antt =====
-- How a call is made: `invoke` of runtime/core/source/call.ts, with abandon.ts and `derive` of
-- entities/newid.ts.
pub mod Prepared
use Prim.Native.String.{String}
use toa.Prelude.{
  ℕ, ltb, Bool, true, false, not, ◌&&◌, ◌||◌, Option, none, some, List, [], ◌∷◌, map, if◌then◌else◌,
}
use toa.Prelude.Texts.{Text, codes}
use toa.Trail.{Inbound, items, Item, string, Calls, ordinal}
use toa.Call.{
  Invocation, Source, component, service, Timeout, lasting, Request, Options, Envelope, Input, null,
  Callee, Exception, unrepeatable, unfit, abandoned, raised, Result, ok, raise, either, refuse,
}
use toa.Call.Identity.{Part, textual, numeric, name}

pub data Reply : Type 0 where
  nothing : Reply
  streaming : Reply
  -- an exception, an error by its code, or an output
  exception : ℕ → Reply
  error : ℕ → Reply
  output : ℕ → Reply

-- What a caller is given: an error is a value.
pub data Answer : Type 0 where
  nothing : Answer
  streaming : Answer
  coded : ℕ → Answer
  value : ℕ → Answer

answer : Reply → Result Answer
answer nothing = ok nothing
answer streaming = ok streaming
answer (exception code) = raise (raised code)
answer (error code) = ok (coded code)
answer (output out) = ok (value out)

-- What a transmission ends with.
pub data Response : Type 0 where
  replied : Reply → Response
  threw : Exception → Response

-- How a wait ends: with the response, and whether the signal has aborted by then, or with the
-- signal before it.
pub data Wait : Type 0 where
  ended : Response → Bool → Wait
  expired : Wait

-- `waiting`
pub waiting : Wait → Result Reply
waiting expired = raise abandoned
waiting (ended (replied r) aborted) = ok r
waiting (ended (threw e) aborted) = if aborted then raise abandoned else raise e

-- `service`
service_of : Option Source → Option Inbound
service_of none = none
service_of (some (component c)) = none
service_of (some (service s)) = some (items (string s ∷ []))

abbrev pub inbound_of : List String → Inbound
inbound_of hops = items (map string hops)

hops_of : Option Invocation → Option Inbound
hops_of none = none
hops_of (some i) = some (inbound_of i.hops)

reads_only : Option Invocation → Bool
reads_only none = false
reads_only (some i) = i.readonly

is_retried : Option Invocation → Bool
is_retried none = false
is_retried (some i) = i.retried

-- The parts that an identity is derived from.
abbrev pub parts : Text → String → ℕ → List Part
parts id target ordinal = textual id ∷ textual (codes target) ∷ numeric ordinal ∷ []

pub record Terms : Type 0 where
  pub instance_of : ℕ
  pub timeout : Timeout
  -- whether the signal has aborted before the call is made
  pub aborted : Bool

aborted_by : Option Bool → Bool
aborted_by none = false
aborted_by (some aborted) = aborted

timeout_or : Option Timeout → ℕ → Timeout
timeout_or none fallback = lasting fallback
timeout_or (some t) fallback = t

-- `#terms`, with the context's timeout
pub terms : ℕ → Option ℕ → Options → Option Terms
unfolding aborted_by timeout_or
terms fallback none o = none
terms fallback (some i) o = some (record {
  instance_of = i;
  timeout = timeout_or o.timeout fallback;
  aborted = aborted_by o.signal;
})

-- `#transmit`: what is handed to the bindings is waited for as `wait` says.
transmit : Option Terms → Wait → Result Reply
unfolding waiting
transmit none wait = waiting wait
transmit (some t) wait = if t.aborted then raise abandoned else waiting wait

-- `derive`: `digest` is of the name, in the shape of an id
unfoldable pub derive : (Text → Text) → List Part → Text
derive digest parts = digest (name parts)

module _ (digest : Text → Text) where
  -- `#identity`: what it derives from, or what is minted
  unfoldable pub identity_in : Text → String → Invocation → Option Text → Text × Option Invocation
  unfolding derive
  identity_in minted target i none = (minted, some i)
  identity_in minted target i (some id) =
      let (n, calls) = ordinal i.calls target in
      (derive digest (parts id target n), some (record i { calls = calls }))

  unfoldable pub identity : Text → String → Option Invocation → Text × Option Invocation
  unfolding identity_in
  identity minted target none = (minted, none)
  identity minted target (some i) = identity_in minted target i i.id

module _ {R : Type 0} (digest : Text → Text) (fits : Envelope R → Bool) where
  -- `request.id ?? this.#identity(invocation)`
  identified : Text → String → Option Invocation → Option Text → Text × Option Invocation
  unfolding identity
  identified minted target i (some id) = (id, i)
  identified minted target i none = identity digest minted target i

  enveloped : Callee → Option Invocation → Request R → Bool → Text → Envelope R
  unfolding service_of hops_of
  enveloped c i q readonly id = record {
    input = elim q.input [ none ↦ null | some input ↦ input ];
    task = q.task;
    id = id;
    source = either q.source c.source;
    trail = either q.trail (either (hops_of i) (service_of c.source));
    readonly = readonly;
    rest = q.rest;
  }

  fitted : Envelope R → Result (Envelope R)
  fitted e = if fits e then ok e else raise unfit

  addressed :
      Callee
      → Option Invocation
      → Request R
      → Bool
      → Text × Option Invocation
      → Result (Envelope R) × Option Invocation
  unfolding enveloped fitted
  addressed c i q readonly (id, i') = (fitted (enveloped c i q readonly id), i')

  -- `invoke`, up to where the envelope is handed over: what is sent, and the invocation that it is
  -- sent under, whose calls are counted
  unfoldable pub prepare :
      Callee
      → Text
      → Option Invocation
      → Request R
      → Options
      → Result (Envelope R) × Option Invocation
  unfolding reads_only is_retried refuse identified addressed
  prepare c minted i q o =
      let readonly = q.readonly || reads_only i in
      if c.once && is_retried i then (raise unrepeatable, i) else elim (refuse c q o readonly) [
        | some e ↦ (raise e, i)
        | none ↦ addressed c i q readonly (identified minted c.target i q.id)
      ]

  -- `invoke`, where the transmission of the envelope is waited for as `send` says.
  pub invoke :
      Callee
      → Text
      → ℕ
      → (Envelope R → Option Terms → Wait)
      → Option Invocation
      → Request R
      → Options
      → Result Answer × Option Invocation
  unfolding prepare transmit terms answer
  invoke c minted fallback send i q o =
      let (prepared, i') = prepare c minted i q o in
      let term = terms fallback q.instance_of o in
      (
        elim prepared [
          | raise e ↦ raise e
          | ok envelope ↦ elim (transmit term (send envelope term)) [
            | raise e ↦ raise e
            | ok reply ↦ answer reply
          ]
        ],
        i',
      )
