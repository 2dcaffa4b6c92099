-- ===== src/Cadence/Dispatcher/Scans.antt =====
-- What a dispatcher has in hand after a scan, and after its lanes changed:
-- extensions/cadence/source/Dispatcher.ts.
use toa.Prelude.{
  ℕ, ◌≡◌, refl, ap, sym, ◌∙◌, inl, inr, Bool, true, false, ◌||◌, none, some, List, [], ◌∷◌, arith,
  ◌==◌, ==_iff, length, if◌then◌else◌, Bool-cases, Option-cases,
}
use toa.Prelude.Maps.{lookup, erase, contains, contains-add}
use toa.Cadence.Row.{Occurrences}
use toa.Cadence.Dispatcher.{
  Row, Armed, Dispatcher, batch, has, holds, arm, arms, ids, give_up, disarm, forget, scanned,
  woken, arm_free, arm_once, disposed, over, timed,
}
use toa.Cadence.Dispatcher.Counts.{has-insert, has-erase, arm_free-Takes, arms_kept, forget_kept}

-- Nothing is armed, and no timer set, by giving up.
give_up_only :
    (keeps : ℕ → Armed → Bool) (id timer : ℕ) (m : List (ℕ × Armed)) (d : Dispatcher)
    → (has id d.armed ≡ false → has id (give_up keeps m d).armed ≡ false)
      × (has timer d.timers ≡ false → has timer (give_up keeps m d).timers ≡ false)
unfolding give_up
give_up_only keeps id timer [] d = (λ h. h, λ h. h)
give_up_only keeps id timer ((i, a) ∷ m) d =
    let d' = record d { timers = erase a.timer d.timers; armed = erase i d.armed } in
    ground (
      arith,
      give_up_only keeps id timer m d,
      give_up_only keeps id timer m d',
      has-erase id i d.armed,
      has-erase timer a.timer d.timers,
    )

-- What is not kept is not armed, and its timer is cleared.
give_up_lem :
    (keeps : ℕ → Armed → Bool) (id : ℕ) (a : Armed) (m : List (ℕ × Armed)) (d : Dispatcher)
    → lookup id m ≡ some a
    → keeps id a ≡ false
    → (has id (give_up keeps m d).armed ≡ false) × (has a.timer (give_up keeps m d).timers ≡ false)
unfolding give_up
give_up_lem keeps id a [] d e lost = cc
give_up_lem keeps id a ((i, b) ∷ m) d e lost =
    let d' = record d { timers = erase b.timer d.timers; armed = erase i d.armed } in
    elim (Bool-cases (id == i)) [
      | inl same ↦
          let i_id = (==_iff id i).0 same in
          let b_a : b ≡ a = ground arith in
          let lost' : keeps i b ≡ false =
            ap (λ j. keeps j b) (sym i_id) ∙ ap (keeps id) b_a ∙ lost in
          let timer = ap (λ x. has x.timer (give_up keeps m d').timers) b_a in
          ground (
            arith,
            give_up_only keeps id b.timer m d',
            has-erase id i d.armed,
            has-erase b.timer b.timer d.timers,
          )
      | inr other ↦ ground (arith, give_up_lem keeps id a m d, give_up_lem keeps id a m d')
    ]

give_up_keeps :
    (keeps : ℕ → Armed → Bool) (id : ℕ) (d : Dispatcher)
    → has id (give_up keeps d.armed d).armed ≡ true
    → (a : Armed) × (lookup id d.armed ≡ some a) × (keeps id a ≡ true)
give_up_keeps keeps id d h = elim (Option-cases (lookup id d.armed)) [
  | inl e ↦ let gone = (give_up_only keeps id 0 d.armed d).0 in ground arith
  | inr (a, e) ↦ (
    a,
    e,
    elim (Bool-cases (keeps id a)) [
      | inl keep ↦ keep
      | inr lost ↦ let gone = (give_up_lem keeps id a d.armed d e lost).0 in ground arith
    ],
  )
]

-- Once a replica learns of the lanes that it holds, what it had armed in another lane is armed no
-- more, and the timer of it never wakes: whoever holds the lane makes that call.
pub disarm_lem :
    (lanes : List ℕ) (d : Dispatcher) (id : ℕ) (a : Armed)
    → lookup id d.armed ≡ some a
    → contains a.lane lanes ≡ false
    → (has id (disarm lanes d).armed ≡ false) × ((woken a.timer (disarm lanes d)).1 ≡ none)
unfolding disarm woken
disarm_lem lanes d id a e other =
    let (gone, cleared) = give_up_lem (λ i x. contains x.lane lanes) id a d.armed d e other in
    (gone, ground arith)

arms_read :
    (occur : Occurrences) (id : ℕ) (page : List (ℕ × Row)) (d : Dispatcher)
    → contains id (ids page) ≡ true
    → holds id (arms occur page d) ≡ true
unfolding arms arm
arms_read occur id [] d h = ground arith
arms_read occur id ((now, r) ∷ page) d h = elim (Bool-cases (id == r.id)) [
  | inl same ↦
      let e = ap (λ k. holds k d) ((==_iff id r.id).0 same) in
      (arms_kept occur id page (arm occur now r d)
        (unfold arm in ground (arith, arm_free-Takes occur id now r d))).0
  | inr other ↦ arms_read occur id page (arm occur now r d) (ground arith)
]

-- What two dispatchers have of a row.
abbrev Agree : ℕ → Dispatcher → Dispatcher → Type 0
Agree id d d' =
    (has id d'.armed ≡ has id d.armed)
    × (has id d'.called ≡ has id d.called)
    × (contains id d'.ended ≡ contains id d.ended)

arm_other :
    (occur : Occurrences) (id now : ℕ) (r : Row) (d : Dispatcher)
    → (id == r.id) ≡ false
    → Agree id d (arm occur now r d)
unfolding arm arm_free arm_once disposed over timed
arm_other occur id now r d other = grind (
  arith,
  has-insert id r.id r.stored.due d.called,
  has-insert id r.id (record { timer = d.serial; lane = r.stored.lane }) d.armed,
  contains-add id r.id d.ended,
)

arms_other :
    (occur : Occurrences) (id : ℕ) (page : List (ℕ × Row)) (d : Dispatcher)
    → contains id (ids page) ≡ false
    → Agree id d (arms occur page d)
unfolding arms
arms_other occur id [] d h = (refl, refl, refl)
arms_other occur id ((now, r) ∷ page) d h =
    ground (arith, arm_other occur id now r d, arms_other occur id page (arm occur now r d))

give_up_rest :
    (keeps : ℕ → Armed → Bool) (m : List (ℕ × Armed)) (d : Dispatcher)
    → ((give_up keeps m d).called ≡ d.called) × ((give_up keeps m d).ended ≡ d.ended)
unfolding give_up
give_up_rest keeps [] d = (refl, refl)
give_up_rest keeps ((i, a) ∷ m) d =
    let d' = record d { timers = erase a.timer d.timers; armed = erase i d.armed } in
    grind (arith, give_up_rest keeps m d, give_up_rest keeps m d')

-- What was not read is in hand only if it was called or is over.
forget_unread :
    (read : List ℕ) (id : ℕ) (d : Dispatcher)
    → contains id read ≡ false
    → holds id (forget read d) ≡ (has id d.called || contains id d.ended)
unfolding forget holds
forget_unread read id d h =
    let keeps : ℕ → Armed → Bool = λ i a. contains i read || has i d.called in
    let (calls, over) = give_up_rest keeps d.armed d in
    let calls' = ap (has id) calls in
    let over' = ap (contains id) over in
    let gone = (give_up_only keeps id 0 d.armed d).0 in
    elim (Option-cases (lookup id d.armed)) [
      | inl e ↦ ground arith
      | inr (a, e) ↦ ground (arith, give_up_lem keeps id a d.armed d e)
    ]

-- After a scan, what was read is in hand: armed, called or over. What was not read and was armed is
-- given up, unless it was called or is over, or the scan filled its batch.
pub holds-scanned :
    (occur : Occurrences) (page : List (ℕ × Row)) (d : Dispatcher) (id : ℕ)
    → holds id (scanned occur page d) ≡ (
        contains id (ids page)
        || (if length page == batch then holds id d else has id d.called || contains id d.ended))
unfolding scanned
holds-scanned occur page d id =
    let d' = arms occur page d in
    elim (Bool-cases (contains id (ids page))) [
      | inl mine ↦ ground (arith, forget_kept id (ids page) d', arms_read occur id page d)
      | inr other ↦
          unfold holds in
          ground (arith, forget_unread (ids page) id d' other, arms_other occur id page d other)
    ]
