-- ===== src/Call/Admission.antt =====
-- Which calls are let through: `#refuse` of call.ts.
use toa.Prelude.{ℕ, ◌<◌, ◌≡◌, refl, Bool, true, false, ◌||◌, ◌↔◌, Option, none, some, arith}
use toa.Call.{
  Request, Options, Callee, Timeout, lasting, improper, given, carries, is_positive, refuse,
  refuse_stream, refuse_timeout,
}

-- A time that is waited for is a positive number of milliseconds.
abbrev IsTime : Option Timeout → Type 0
IsTime none = Unit
IsTime (some improper) = ⊥
IsTime (some (lasting n)) = 0 < n

-- What an operation that takes a stream is called with.
abbrev Streams : {R : Type 0} → Option ℕ → Request R → Type 0
Streams none q = Unit
Streams (some property) q = (q.task ≡ false) × (carries q.input property ≡ true)

-- A call that contradicts nothing that it calls.
pub record IsLawful {R : Type 0} (c : Callee) (q : Request R) (o : Options) (readonly : Bool)
    : Type 0 where
  pub safe : readonly ≡ true → c.safe ≡ true
  pub addressed : given q.instance_of ≡ c.stateful
  pub tasks :
      q.task ≡ true → (c.stateful ≡ false) × (given o.timeout ≡ false) × (given o.signal ≡ false)
  pub waits : given o.timeout || given o.signal ≡ true → c.stateful ≡ true
  pub streams : Streams c.streamed q
  pub lasts : IsTime o.timeout

positive-IsTime : (t : Option Timeout) → (is_positive t ≡ true) ↔ IsTime t
unfolding is_positive
positive-IsTime none = (λ h. tt, λ h. refl)
positive-IsTime (some improper) = (λ h. cc, λ h. absurd h)
positive-IsTime (some (lasting n)) = (λ h. ground arith, λ h. ground arith)

timeout_iff : (o : Options) → (refuse_timeout o ≡ none) ↔ IsTime o.timeout
unfolding refuse_timeout
timeout_iff o = (
  λ h. (positive-IsTime o.timeout).0 (ground arith),
  λ h. simp ((positive-IsTime o.timeout).1 h) refl,
)

stream_iff :
    {R : Type 0} (s : Option ℕ) (q : Request R) (o : Options)
    → (refuse_stream s q o ≡ none) ↔ (Streams s q × IsTime o.timeout)
unfolding refuse_stream
stream_iff none q o = (λ h. (tt, (timeout_iff o).0 h), λ h. (timeout_iff o).1 h.1)
stream_iff (some p) q o = (
  λ h.
      let rest : refuse_timeout o ≡ none = ground arith in
      ((ground arith, ground arith), (timeout_iff o).0 rest),
  λ h. simp (h.0.0, h.0.1) ((timeout_iff o).1 h.1),
)

IsLawful-of :
    {R : Type 0} (c : Callee) (q : Request R) (o : Options) (readonly : Bool)
    → refuse c q o readonly ≡ none
    → IsLawful c q o readonly
unfolding refuse
IsLawful-of c q o readonly h =
    let rest : refuse_stream c.streamed q o ≡ none = ground arith in
    let (streams, lasts) = (stream_iff c.streamed q o).0 rest in
    record {
      safe = λ r. ground arith;
      addressed = ground arith;
      tasks = λ k. (ground arith, ground arith, ground arith);
      waits = λ k. ground arith;
      streams = streams;
      lasts = lasts;
    }

lawful_let :
    {R : Type 0} (c : Callee) (q : Request R) (o : Options) (readonly : Bool)
    → IsLawful c q o readonly
    → refuse c q o readonly ≡ none
unfolding refuse
lawful_let c q o readonly l =
    let rest : refuse_stream c.streamed q o ≡ none =
      (stream_iff c.streamed q o).1 (l.streams, l.lasts) in
    ground arith

-- The check of what a call contradicts (`#refuse`), which is a part of what `invoke` asks,
-- refuses a call exactly when it may only read and what it calls is not safe, it names a process
-- where none is to be named or names none where one is, it waits or is a task where it cannot be,
-- it carries no stream where one is taken, or its timeout is no positive number.
pub refuse_iff :
    {R : Type 0} (c : Callee) (q : Request R) (o : Options) (readonly : Bool)
    → (refuse c q o readonly ≡ none) ↔ IsLawful c q o readonly
refuse_iff c q o readonly = (IsLawful-of c q o readonly, lawful_let c q o readonly)
