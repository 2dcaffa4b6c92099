-- ===== src/Call/Tests.antt =====
-- A component of pots, whose `fill` changes state and whose `read` does not.
use Prim.Native.String.{String}
use toa.Prelude.{
  Option, ℕ, ◌≡◌, ◌≤◌, ◌↔◌, refl, true, false, none, some, List, [], ◌∷◌, ◌++◌, map, length, ◌⊎◌,
  arith,
}
use text.Mathlib.Text.{◌==◌ as str_eq}
use toa.Prelude.Texts.{Text, codes}
use toa.Prelude.{if◌then◌else◌}
use toa.Trail.{event, extend, received, clip}
use toa.Trail.Calls.{IsDistinct}
use toa.Call.{
  Input, Invocation, component, null, object, stream, Request, Options, Envelope, Callee, ok,
  refuse,
}
use toa.Call.Identity.{Part, textual, numeric, string, name, name_inj}
use toa.Call.Admission.{IsLawful, refuse_iff}
use toa.Call.Invoke.{derive, prepare, inbound_of, nothing}
use toa.Call.Distinct.{identify_all, identities-IsDistinct}
use toa.Call.Transmission.{Binding, declined, replies, IsRejected, IsSettled, request-settles}
use toa.Call.Component.{Component, Operation, joined, follows, enter}
use toa.Call.Readonly.{self, safe_leads}
use toa.Call.Event.{Row, Event, emits, label_of, emit, hops_of, emit_continues}
use toa.Call.Receiver.{
  Definition, Message, Says, invokes, receive, destination_of, hops_in, receive_continues,
}

-- The same texts, of a number and of its digits.
abbrev by_number : List Part
by_number = textual (codes "b:c") ∷ numeric 12 ∷ []

abbrev by_digits : List Part
by_digits = textual (codes "b:c") ∷ textual (codes "12") ∷ []

name_inj_example : map string by_number ≡ map string by_digits
unfolding name
name_inj_example = name_inj by_number by_digits refl

abbrev blank : Request ℕ
blank = record {
  input = none;
  task = false;
  instance_of = none;
  id = none;
  source = none;
  trail = none;
  readonly = false;
  rest = 0;
}

abbrev at_ease : Options
at_ease = record { timeout = none; signal = none }

abbrev fill : Callee
fill = record {
  target = "pots.fill";
  source = none;
  stateful = false;
  safe = false;
  streamed = some 1;
  once = false;
}

abbrev with_stream : Request ℕ
with_stream = record blank { input = some (object ((1, stream) ∷ [])) }

refuse_iff_example :
    (refuse fill with_stream at_ease false ≡ none) ↔ IsLawful fill with_stream at_ease false
refuse_iff_example = refuse_iff fill with_stream at_ease false

abbrev serving : Invocation
serving = record {
  hops = "pots.fill" ∷ [];
  id = some (codes "7");
  readonly = false;
  retried = false;
  calls = none;
}

abbrev targets : List String
targets = "pots.read" ∷ "cups.pour" ∷ "pots.read" ∷ []

identities-IsDistinct_example :
    (names : List Text) × (identify_all (λ s. s) [] (some serving) targets ≡ map (λ s. s) names)
    × IsDistinct names
identities-IsDistinct_example = identities-IsDistinct (λ s. s) [] (codes "7") serving targets refl

abbrev bindings : List Binding
bindings =
    record { id = 1; request = declined; task = none }
    ∷ record { id = 2; request = replies nothing; task = some none }
    ∷ []

request-settles_example : IsRejected true bindings ⊎ IsSettled true bindings
request-settles_example = request-settles true bindings

abbrev reading : Operation
reading = record { unchained = false; retried = false; safe = true }

abbrev pots : Component
pots = record {
  id = "pots";
  operations = λ s. if str_eq s "read" then some reading else none;
  disposed = false;
  server = true;
  limits = record { repeats = 3; depth = 32 };
}

abbrev read_in : Invocation
read_in = record {
  hops = "pots.read" ∷ [];
  id = some (codes "8");
  readonly = true;
  retried = false;
  calls = none;
}

abbrev look : Callee
look = record fill { target = "cups.look"; safe = true; streamed = none }

abbrev looked : Envelope ℕ
looked = record {
  input = null;
  task = false;
  id = codes "9";
  source = none;
  trail = some (inbound_of ("pots.read" ∷ []));
  readonly = true;
  rest = 0;
}

read_enters : enter pots "read" none (some (codes "8")) false ≡ follows read_in
unfolding enter extend received clip
read_enters = refl

abbrev look_asked : Request ℕ
look_asked = record blank { id = some (codes "9") }

look_prepared :
    (prepare (λ s. s) (λ e. true) look [] (some read_in) look_asked at_ease).0 ≡ ok looked
unfolding prepare
look_prepared = refl

safe_leads_example : (true ≡ true) × (true ≡ true)
safe_leads_example =
    safe_leads (λ s. s) (λ e. true) pots "read" none (some (codes "8")) false reading read_in
      read_in refl refl read_enters self look [] look_asked at_ease looked look_prepared

abbrev emptied : Definition
emptied = record {
  conditioned = false;
  adaptive = false;
  operation = "read";
  label = some "cups.emptied";
  destination = none;
  origin = some (component 4);
}

abbrev message : Message ℕ
message = record {
  payload = some (object []);
  id = some (codes "11");
  trail = some (inbound_of ("cups.empty" ∷ []));
  extensions = 0;
}

abbrev spoofed : ℕ → Request ℕ → Request ℕ
spoofed x q = record q { source = some (component 9) }

abbrev received_request : Request ℕ
received_request = record blank {
  input = some (object []);
  id = some (codes "11");
  source = some (component 4);
  trail = some (inbound_of ("cups.empty" ∷ "~cups.emptied" ∷ []));
}

abbrev after_event : Invocation
after_event = record read_in {
  hops = "cups.empty" ∷ "~cups.emptied" ∷ "pots.read" ∷ [];
  id = some (codes "11");
}

receives : receive 0 spoofed emptied none message ≡ invokes received_request
unfolding receive event received
receives = refl

enters :
    enter pots "read" received_request.trail received_request.id received_request.readonly
    ≡ follows after_event
unfolding enter extend received clip
enters = refl

receive_continues_example :
    (after_event.hops
      ≡ (hops_in message.trail ++ event (destination_of emptied) ∷ []) ++ joined "pots" "read" ∷ [])
    × (length after_event.hops ≤ 32)
    × Says emptied.origin received_request.source
    × Says message.id after_event.id
receive_continues_example =
    receive_continues 0 spoofed emptied none message received_request pots reading after_event
      receives enters refl refl (omega arith)

abbrev digest : Text → Text
digest s = codes "11"

abbrev emptied_row : Row ℕ
emptied_row = record { id = codes "3"; change = 5; trail = some ("cups.empty" ∷ []); time = none }

abbrev emptied_event : Event
emptied_event = record {
  conditioned = false;
  subjective = false;
  label = some "cups.emptied";
  published = true;
}

abbrev emptied_message : Message (Option ℕ)
emptied_message = record {
  payload = some (object []);
  id = some (codes "11");
  trail = some (inbound_of ("cups.empty" ∷ []));
  extensions = none;
}

abbrev change_of : ℕ → Input
change_of n = object []

abbrev timed : Option ℕ → Request ℕ → Request ℕ
timed time q = q

emitted : emit change_of digest emptied_event none emptied_row ≡ emits emptied_message
unfolding emit derive
emitted = refl

emitted_received : receive 0 timed emptied none emptied_message ≡ invokes received_request
unfolding receive event received
emitted_received = refl

emit_continues_example :
    (after_event.hops
      ≡ (hops_of change_of emptied_row ++ event (destination_of emptied) ∷ [])
        ++ joined "pots" "read" ∷ [])
    × (after_event.id
        ≡ some (
            derive digest
              (textual (codes "3") ∷ textual (codes (label_of emptied_event.label)) ∷ [])))
emit_continues_example =
    emit_continues change_of digest emptied_event none emptied_row emptied_message 0 timed emptied
      none received_request pots reading after_event emitted emitted_received enters refl refl
      (omega arith)
