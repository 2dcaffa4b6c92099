-- ===== src/Connector/Link/Cuts.antt =====
-- What is taken down without being closed: `connect` and `disconnect` of connector.ts.
use toa.Prelude.{ℕ, suc, ◌+◌, ◌≤◌, ◌≡◌, refl, Bool, true, false, List, [], ◌∷◌, arith}
use toa.Prelude.Maps.{contains, remove}
use toa.Connector.Link.{
  Link, new, connect, disconnect, drop, discard, report, land, fail, closed, Event, connects,
  closes_down, disposes, lands, fails, disconnects, discards, step, run,
}
use toa.Connector.Link.Closed.{in_use, run-IsLinked, new-IsLinked}

-- How often a connection failed.
abbrev pub failures : List Event → ℕ
failures [] = 0
failures (fails k ∷ es) = suc (failures es)
failures (e ∷ es) = failures es

disconnect-cuts : (linked : Bool) (l : Link) → (disconnect false linked l).cuts ≡ l.cuts
unfolding disconnect
disconnect-cuts linked l = ground arith

interrupt-cuts-le : (l : Link) → (disconnect true false l).cuts ≤ suc l.cuts
unfolding disconnect
interrupt-cuts-le l = ground arith

land-cuts : (k : ℕ) (linked : Bool) (l : Link) → (land k linked l).cuts ≡ l.cuts
unfolding land drop report
land-cuts k linked l =
    ground (arith, disconnect-cuts linked (record (report k l) { discarded = false }))

fail-cuts-le : (k : ℕ) (l : Link) → (fail k l).cuts ≤ suc l.cuts
unfolding fail
fail-cuts-le k l = ground (arith, interrupt-cuts-le (record l { opening = remove k l.opening }))

discard-cuts : (linked : Bool) (l : Link) → (discard linked l).cuts ≡ l.cuts
unfolding discard drop
discard-cuts linked l = ground (arith, disconnect-cuts linked (record l { discarded = false }))

step-cuts-le : (e : Event) (l : Link) → (step e l).cuts ≤ failures (e ∷ []) + l.cuts
unfolding step connect closed
step-cuts-le connects l = ground arith
step-cuts-le closes_down l = ground arith
step-cuts-le disposes l = omega arith
step-cuts-le (lands k linked) l = omega (arith, land-cuts k linked l)
step-cuts-le (fails k) l = omega (arith, fail-cuts-le k l)
step-cuts-le (disconnects linked) l = omega (arith, disconnect-cuts linked l)
step-cuts-le (discards linked) l = omega (arith, discard-cuts linked l)

failures-cons : (e : Event) (es : List Event) → failures (e ∷ es) ≡ failures (e ∷ []) + failures es
failures-cons connects es = omega arith
failures-cons closes_down es = omega arith
failures-cons disposes es = omega arith
failures-cons (lands k linked) es = omega arith
failures-cons (fails k) es = omega arith
failures-cons (disconnects linked) es = omega arith
failures-cons (discards linked) es = omega arith

run-cuts-le : (es : List Event) (l : Link) → (run es l).cuts ≤ failures es + l.cuts
unfolding run
run-cuts-le [] l = omega arith
run-cuts-le (e ∷ es) l =
    omega (arith, run-cuts-le es (step e l), step-cuts-le e l, failures-cons e es)

-- However connections, disconnections, discards, failures and endings follow each other, each
-- connection that came up has been closed once, or is up and not closing, or was taken down
-- unclosed; and that happens at most once for each connection that fails.
pub run-closes :
    (es : List Event)
    → ((run es new).up ≡ (run es new).closes + (run es new).cuts + in_use (run es new))
      × ((run es new).cuts ≤ failures es)
run-closes es =
    let v = run-IsLinked es new new-IsLinked in
    (v.counted, unfold new in omega (arith, run-cuts-le es new))

-- A connection that was given up and fails while another is up takes that one down, and `close` is
-- not called.
fail_stale :
    (k : ℕ) (l : Link)
    → contains k l.opening ≡ true
    → l.connected ≡ true
    → l.disconnecting ≡ false
    → ((fail k l).connected ≡ false)
      × ((fail k l).closes ≡ l.closes)
      × ((fail k l).closing ≡ l.closing)
unfolding fail disconnect
fail_stale k l work up free = simp (work, up, free) (refl, refl, refl)
