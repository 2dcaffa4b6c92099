-- ===== src/Operation/Tests.antt =====
-- A transition that fills a pot, at a storage that loses writes to another process; and an operation
-- whose calls are made once.
use toa.Prelude.{◌∷◌, ℕ, zero, suc, ◌≡◌, refl, Bool, true, false, Option, none, some, []}
use toa.Entity.{
  Changeset, Record, or_value, filled, first_written, acquire, is_some, is_discarded, set, checked,
  refused_by,
}
use toa.Restrict.{Output, record_of, Reply, absent, replied}
use toa.Outbox.{new}
use toa.State.{
  is_rejected, published, inline_fails, Setup, World, ok, ask, entry, entry_of, commit, stored,
}
use toa.State.Tests.{setup, moment, world, query}
use toa.Operation.{
  invoke, assignment, Algorithm, Definition, Request, Outcome, returned, Fault, fine, faulted, run,
  call, Attempt, answered, lost, found, acquired, placed, committed, ran, attempt, transition, once,
}
use toa.Operation
use toa.Operation.Attempts.{
  IsAnswered, Loses, none_lost, one_lost, transition-IsAnswered, transition_retried,
}

abbrev definition : Definition
definition = record {
  retries = true;
  once = false;
  retention = none;
  local = false;
  projects = true;
}

abbrev accepts : Reply → Bool
accepts r = true

abbrev request : Request ℕ
request = record {
  id = none;
  query = some query;
  input = some 9;
  entity = none;
  authentic = true;
  output = none;
}

abbrev poured : Option ℕ → Record ℕ → Record ℕ
poured none r = r
poured (some n) r = record r { own = n }

abbrev fill : Algorithm (Record ℕ)
fill input r = returned (poured input r) absent fine

transition-IsAnswered_example :
    IsAnswered
      (transition setup definition accepts fill (λ k. moment) request (world 2)).0
      []
      (transition setup definition accepts fill (λ k. moment) request (world 2)).1.handed
unfolding new
transition-IsAnswered_example =
    transition-IsAnswered setup definition accepts refl fill (λ k. moment) request (world 2)

attempt-lost :
    (n : ℕ)
    → attempt setup definition accepts fill moment request (world (suc n)) ≡ (ok lost, world n)
unfolding attempt ran acquired found entry ask entry_of acquire first_written filled is_some run
    faulted committed is_discarded placed set checked refused_by commit stored or_value
    Operation.written
attempt-lost n = refl

abbrev empty : Reply
empty = record { output = absent; error = none }

abbrev made : World ℕ ℕ
made = (attempt setup definition accepts fill moment request (world 0)).1

attempt-made :
    attempt setup definition accepts fill moment request (world 0) ≡ (ok (answered empty), made)
unfolding new is_rejected published inline_fails attempt ran acquired found entry ask entry_of
    acquire first_written filled is_some run faulted committed is_discarded placed set checked
    refused_by commit stored or_value Operation.written
attempt-made = refl

abbrev more : ℕ → ℕ → ℕ
more zero k = k
more (suc j) k = suc (more j k)

losing :
    (j k n : ℕ)
    → Loses setup definition accepts fill
        (λ k. moment)
        request
        (more j k)
        (world (more j n))
        k
        (world n)
losing zero k n = none_lost k (world n)
losing (suc j) k n =
    one_lost (more j k) k (world (suc (more j n))) (world (more j n)) (world n)
      (attempt-lost (more j n)) (losing j k n)

transition_retried_example :
    transition setup definition accepts fill (λ k. moment) request (world 3)
    ≡ (ok (replied empty), made)
transition_retried_example =
    transition_retried setup definition accepts fill (λ k. moment) request 29 (world 3) (world 0)
      made empty refl (losing 3 29 0) attempt-made

-- what the storage recalls of a call, once another process has made it
abbrev remembered : ℕ → Option Reply
remembered zero = none
remembered (suc n) = some empty

abbrev inbox : Setup ℕ ℕ ℕ
inbox = record setup { storage = record setup.storage { recall = λ s id. (remembered s, s) } }

abbrev rendered : Record ℕ → Output
rendered r = record_of ((1, r.own) ∷ [])

abbrev changes : Algorithm (Changeset ℕ)
changes none r = returned r absent fine
changes (some n) r = returned (record r { own = n }) absent fine

abbrev blank : Changeset ℕ
blank = record { version = none; updated = none; own = 0 }

abbrev made_once : Definition
made_once = record definition { once = true }

abbrev identified : Request ℕ
identified = record request { id = some 5; output = some (1 ∷ []) }
