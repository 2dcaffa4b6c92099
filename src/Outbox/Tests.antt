-- ===== src/Outbox/Tests.antt =====
-- An outbox of two destinations.
use toa.Prelude.{
  Option, arith, ℕ, ◌+◌, ◌≤◌, ◌≡◌, refl, true, false, not, ◌&&◌, none, some, List, [], ◌∷◌,
  count_if, filter,
}
use toa.Outbox.{Sent, Outbox, Row, Options, Environment, nan, natural, new, row}
use toa.Outbox.Groups.{groups, settles, has_published}
use toa.Outbox.Pump.{mark, pump, caught}
use toa.Outbox.Pump.Ending.{IsPaged, pump_ends}
use toa.Outbox.Once.{
  Event, handed, page, landing, failing, settling, sends, times, releases, times-sends-le,
}
use toa.Outbox.Invariant.{IsBounded, after, after-new-IsBounded}
use toa.Outbox.Marking.{settles-groups, mark-Leaves}

abbrev defaults : Options
defaults = record { interval = none; batch = some 10; gap = none }

abbrev unset : Environment
unset = record { interval = nan; batch = natural 0; defer = false }

abbrev outbox : Outbox
outbox = new (1 ∷ 2 ∷ []) true defaults unset

abbrev written : ℕ → Row ℕ
written id = row outbox id (λ n. 0) (some (3 ∷ 4 ∷ [])) 1000 none 0

abbrev run : List (Event ℕ)
run =
    handed (written 5)
    ∷ page (written 5 ∷ written 6 ∷ [])
    ∷ landing 1 5
    ∷ failing 2 5
    ∷ page (written 5 ∷ [])
    ∷ settling true (1 ∷ [], 5 ∷ [])
    ∷ []

times-sends-le_example : times 2 5 (sends outbox run) ≤ 1 + count_if (releases 2 5) run
unfolding new
times-sends-le_example = times-sends-le 2 5 outbox run refl

after-new-IsBounded_example : IsBounded (after outbox run)
after-new-IsBounded_example = after-new-IsBounded (1 ∷ 2 ∷ []) defaults unset run

-- one destination was sent a row, the other is being sent it
abbrev sent : Outbox
sent = record outbox {
  desks =
      (1, record { published = 5 ∷ []; publishing = []; inflight = [] })
      ∷ (2, record { published = []; publishing = 5 ∷ []; inflight = 5 ∷ [] })
      ∷ [];
}

settles-groups_example : settles 1 5 (groups sent) ≡ has_published 1 5 sent.desks
settles-groups_example = settles-groups 1 5 sent

mark-Leaves_example :
    has_published 1 5 (mark (λ g. true) sent).desks
    ≡ (has_published 1 5 sent.desks && not (settles 1 5 (filter (λ g. true) (groups sent))))
mark-Leaves_example = mark-Leaves 1 5 (λ g. true) sent (refl, (refl, tt))

-- a storage with two rows that are due, in one page
abbrev pending : List ℕ → ℕ → Option ℕ → Option (List (Row ℕ))
pending lanes batch none = some (written 5 ∷ written 6 ∷ [])
pending lanes batch (some id) = some []

pending-IsPaged : IsPaged 7 pending
unfolding IsPaged row caught
pending-IsPaged lanes batch none = ((omega arith, omega arith), ((omega arith, omega arith), tt))
pending-IsPaged lanes batch (some id) = tt

pump_ends_example :
    (r : Outbox × Sent) × (pump pending (some (0 ∷ [])) (λ o. o) (λ g. true) (7 + 1) outbox
      ≡ some r)
    × (r.0.pumping ≡ false)
pump_ends_example = pump_ends 7 pending (some (0 ∷ [])) (λ o. o) (λ g. true) outbox pending-IsPaged
