-- ===== src/Throttle/Quotas/Tests.antt =====
-- A quota of two requests in a second, keyed by the route.
use Prim.Native.String.{String}
use toa.Prelude.{ℕ, ◌+◌, ◌-◌, ◌*◌, ◌≤◌, ◌<◌, ◌≡◌, refl, false, none, some, List, [], ◌∷◌, arith}
use toa.Throttle.Keys.{Keys, Context, route, ip, part, fed, digested, get}
use toa.Throttle.Quotas.{Quotas, new, arrival, charge, seconds, decide, check_keyed, check}
use toa.Prelude.Int.{pos}
use toa.Throttle.Sync.{Sync, tick, failed, tick_again}
use toa.Throttle.Quotas.Rate.{Event, checked, flushed, reconciled, admitted, admitted_bounded}

abbrev digest : String → ℕ
digest s = 7

abbrev keys : Keys
keys = record { components = route "/pots" ∷ ip ∷ []; conditions = none }

abbrev two_a_second : Quotas
two_a_second =
    new (record { keys = keys; requests = 2; interval = 1000; conditional = false; name = none })

abbrev request : ℕ → Context
request id = record { id = id; ip = some "10.0.0.1"; pathname = "/pots/1"; identity = none }

abbrev run : List (ℕ × Event)
run =
    (1000, checked (request 1) [])
    ∷ (1000, checked (request 2) [])
    ∷ (1100, checked (request 3) [])
    ∷ (1200, flushed)
    ∷ (1300, reconciled 7 1000 2000)
    ∷ (1500, checked (request 4) [])
    ∷ []

admitted_bounded_example :
    admitted digest 7 two_a_second run * two_a_second.interval
    ≤ two_a_second.interval * two_a_second.requests + (1500 - 1000) * two_a_second.requests
unfolding new
admitted_bounded_example =
    admitted_bounded digest two_a_second 7 1000 1500 run (omega arith) refl (omega arith)

-- the quota after two requests of its key
abbrev spent : Quotas
spent = (check digest (check digest two_a_second (request 1) [] 1000).0 (request 2) [] 1000).0

refused : (check digest spent (request 3) [] 1100).1 ≡ 1
unfolding check check_keyed decide charge seconds get digested fed part new arrival
refused = refl

keyed : get digest spent.keys (request 3) [] ≡ some 7
unfolding check check_keyed decide charge seconds get digested fed part new arrival
keyed = refl

budgeted : 0 < spent.requests
unfolding check check_keyed decide charge seconds get digested fed part new arrival
budgeted = omega arith

-- two keys, of which the first has run its time
abbrev kept : Quotas
kept = record two_a_second {
  entries =
      (7, record { tat = 2000; debt = pos 0 }) ∷ (8, record { tat = 9000; debt = pos 1000 }) ∷ [];
}

abbrev process : Sync
process = record {
  quotas = kept ∷ two_a_second ∷ [];
  timer = none;
  period = none;
  reconciling = false;
}

tick_again_example : (tick 1500 (failed (tick 1200 process).0)).1 ≡ (tick 1200 process).1
tick_again_example = tick_again 1200 1500 process refl

abbrev one_an_hour : Quotas
one_an_hour =
    new (record { keys = keys; requests = 1; interval = 3600000; conditional = false; name = none })
