-- ===== src/Cadence/Scheduler/Again.antt =====
-- That what is handed over is kept, and kept once: `schedule` of
-- extensions/cadence/source/Scheduler.ts.
use toa.Prelude.{
  ℕ, ◌≡◌, refl, ap, sym, ◌∙◌, true, false, Option, none, some, arith, Bool-cases, Option-cases, inl,
  inr,
}
use mathlib.Core.Path.{subst}
use toa.Prelude.Int.{ℤ, pos, negsuc}
use toa.Prelude.Texts.{Text}
use toa.Cadence.Row.{Stored}
use toa.Cadence.Metronome.{Entry, resume}
use toa.Cadence.Scheduler.{
  duplicate, Result, ok, refused, ◌>>=◌, Stated, Recurrence, recurrence, Request, admitted, limited,
  qualified, calendar, asked_of, Metronome, answered, is_tombstone, Handed, identity, prepared,
  resumed, ensured, written, hand, handed, schedule,
}

ok_inj {ℓ} : {A : Type ℓ} (a b : A) → ok a ≡ ok b → a ≡ b
ok_inj a b h = cc

sequel {ℓ κ} :
    {A : Type ℓ} {B : Type κ} (x : Result A) (f : A → Result B) (b : B)
    → (x >>= f) ≡ ok b
    → (a : A) × (x ≡ ok a) × (f a ≡ ok b)
sequel (ok a) f b h = (a, refl, h)
sequel (refused e) f b h = cc

module _ {W : Type 0} (m : Metronome W) where
  -- What the metronome promises of a row: it is created once, one that is there stays as it is, one
  -- that is a tombstone is refused, and one that is resumed is none.
  pub record IsKept : Type 0 where
    pub creates :
        (id : ℕ) (s : Stored) (w : W)
        → m.observe id w ≡ none
        → ((m.ensure id s w).0 ≡ ok tt)
          × (m.observe id (m.ensure id s w).1
              ≡ some (record { id = id; deleted = none; stored = s }))
    pub stays :
        (id : ℕ) (s : Stored) (w : W) (e : Entry)
        → m.observe id w ≡ some e
        → e.deleted ≡ none
        → m.ensure id s w ≡ (ok tt, w)
    pub refuses :
        (id : ℕ) (s : Stored) (w : W) (e : Entry) (at : ℕ)
        → m.observe id w ≡ some e
        → e.deleted ≡ some at
        → m.ensure id s w ≡ (refused duplicate, w)
    pub revives :
        (id due lane : ℕ) (w : W) (e : Entry)
        → m.observe id w ≡ some e
        → ((m.resume id due lane w).0 ≡ ok tt)
          × (m.observe id (m.resume id due lane w).1
              ≡ some (record (resume due lane e) { deleted = none }))

  -- What others do leaves a row where it is, as a tombstone or not.
  abbrev pub IsKeeping : (W → W) → Type 0
  IsKeeping others =
      (id : ℕ) (w : W) (e : Entry)
      → m.observe id w ≡ some e
      → (e' : Entry) × (m.observe id (others w) ≡ some e')

  abbrev pub IsLive : ℕ → W → Type 0
  IsLive id w = (e : Entry) × (m.observe id w ≡ some e) × (e.deleted ≡ none)

  module _ (digest : Text → Text) (canonical : Option ℕ → Text) (number : Text → ℕ)
      (occurrences : Text → Text → Option (ℕ → Option ℕ)) (kept : IsKept) where
    -- What a call of the metronome leaves.
    Leaves : Text → Result (Unit {0}) × W → Type 0
    Leaves id r = (r.0 ≡ ok tt) × IsLive (number id) r.1

    resumed-Leaves :
        (id : Text) (s : Stored) (w : W) (e : Entry)
        → m.observe (number id) w ≡ some e
        → Leaves id (resumed m digest canonical number occurrences id s w)
    unfolding Leaves resumed
    resumed-Leaves id s w e there =
        let (answer, row) = kept.revives (number id) s.due s.lane w e there in
        (answer, (record (resume s.due s.lane e) { deleted = none }, row, refl))

    passed :
        (others : W → W) (id : Text) (s : Stored) (r : Result (Unit {0}) × W)
        → r.0 ≡ ok tt
        → ensured m digest canonical number occurrences others id s r ≡ (ok tt, r.1)
    unfolding ensured
    passed others id s (ok done, w) h = refl
    passed others id s (refused e, w) h = cc

    ensured-Leaves :
        (others : W → W) (id : Text) (s : Stored) (w : W)
        → IsKeeping others
        → Leaves id
            (ensured m digest canonical number occurrences others id s (m.ensure (number id) s w))
    unfolding Leaves ensured
    ensured-Leaves others id s w keeping = elim (Option-cases (m.observe (number id) w)) [
      | inl missing ↦
          let (answer, row) = kept.creates (number id) s w missing in
          subst (Leaves id) (sym (passed others id s (m.ensure (number id) s w) answer))
            (refl, (record { id = number id; deleted = none; stored = s }, row, refl))
      | inr (e, there) ↦ elim (Option-cases e.deleted) [
        | inl live ↦ simp (kept.stays (number id) s w e there live) (refl, (e, there, live))
        | inr (at, gone) ↦
            let (e', still) = keeping (number id) w e there in
            simp (kept.refuses (number id) s w e at there gone)
              (resumed-Leaves id s (others w) e' still)
      ]
    ]

    was_there : (o : Option Entry) → is_tombstone o ≡ true → (e : Entry) × (o ≡ some e)
    was_there none h = cc
    was_there (some e) h = (e, refl)

    written-Leaves :
        (others : W → W) (id : Text) (s : Stored) (w : W)
        → IsKeeping others
        → Leaves id (written m digest canonical number occurrences others id s w)
    unfolding Leaves written
    written-Leaves others id s w keeping =
        elim (Bool-cases (is_tombstone (m.observe (number id) w))) [
          | inl gone ↦
              let (e, there) = was_there (m.observe (number id) w) gone in
              let (e', still) = keeping (number id) w e there in
              simp gone (resumed-Leaves id s (others w) e' still)
          | inr none_gone ↦ simp none_gone (ensured-Leaves others id s (others w) keeping)
        ]

    answered_ok :
        (id : Text) (r : Result (Unit {0}) × W) → r.0 ≡ ok tt → answered id r ≡ (ok id, r.1)
    unfolding answered
    answered_ok id (ok done, w) h = refl
    answered_ok id (refused e, w) h = cc

    handed-IsLive :
        (others : W → W) (w : W) (h : Handed) (s : Stored)
        → IsKeeping others
        → h.stored ≡ some s
        → let after = handed m digest canonical number occurrences others w (ok h) in
          (after.0 ≡ ok h.id) × IsLive (number h.id) after.1
    unfolding Leaves handed hand
    handed-IsLive others w h s keeping stored =
        let (answer, live) = written-Leaves others h.id s w keeping in
        simp
          (
            stored,
            answered_ok h.id (written m digest canonical number occurrences others h.id s w) answer,
          )
          (refl, live)

    handed_live :
        (w : W) (h : Handed) (s : Stored)
        → h.stored ≡ some s
        → IsLive (number h.id) w
        → handed m digest canonical number occurrences (λ w. w) w (ok h) ≡ (ok h.id, w)
    unfolding handed hand written ensured answered
    handed_live w h s stored (e, there, live) =
        let whole : is_tombstone (m.observe (number h.id) w) ≡ false = simp (there, live) refl in
        simp (stored, whole, kept.stays (number h.id) s w e there live) refl

    limit_of : Option ℤ → Option ℕ
    limit_of none = none
    limit_of (some (pos n)) = some n
    limit_of (some (negsuc n)) = none

    limited_lem :
        (due : Option ℕ) (x : Option ℤ) (e : Option ℕ) → limited due x ≡ ok e → e ≡ limit_of x
    unfolding limited limit_of
    limited_lem due none e h = cc
    limited_lem none (some at) e h = cc
    limited_lem (some due) (some (negsuc n)) e h = cc
    limited_lem (some due) (some (pos at)) e h = ground arith

    -- The id is of what is called, and of the calendar.
    prepared-id :
        (lane now : ℕ) (endpoint : Text) (request : Option Request) (stated : Stated) (h : Handed)
        → prepared m digest canonical number occurrences lane now endpoint request stated ≡ ok h
        → (r : Recurrence) × (recurrence stated ≡ ok r)
          × (h.id
              ≡ identity m digest canonical number occurrences
                  (qualified endpoint)
                  request
                  r
                  (limit_of r.expires))
    unfolding prepared
    prepared-id lane now endpoint request stated h p =
        let (r, recurs, p) = sequel (recurrence stated) _ h p in
        let (_, _, p) = sequel (admitted request) _ h p in
        let (next, _, p) = sequel (calendar (occurrences r.schedule r.zone)) _ h p in
        let (expires, last, p) = sequel (limited (next now) r.expires) _ h p in
        (
          r,
          recurs,
          sym (ap (λ x. x.id) (ok_inj _ h p))
              ∙ ap (identity m digest canonical number occurrences (qualified endpoint) request r)
                  (limited_lem (next now) r.expires expires last),
        )

    -- A schedule that comes once at least is kept under its id and answered, whatever others
    -- cancel meanwhile. Handed over again, when it still comes once and nothing else is done,
    -- under either name of its endpoint and with a request that is spelled the same, it is
    -- answered the same id, and what is kept does not change. The metronome is one that creates a
    -- row once, leaves one that is there, refuses one that is a tombstone, and revives what is
    -- resumed.
    pub schedule_again :
        (others : W → W) (lane lane' now now' : ℕ) (endpoint endpoint' : Text)
        (request request' : Option Request) (stated : Stated) (w : W) (h h' : Handed)
        (s s' : Stored)
        → IsKeeping others
        → prepared m digest canonical number occurrences lane now endpoint request stated ≡ ok h
        → h.stored ≡ some s
        → prepared m digest canonical number occurrences lane' now' endpoint' request' stated
          ≡ ok h'
        → h'.stored ≡ some s'
        → qualified endpoint ≡ qualified endpoint'
        → canonical (asked_of request) ≡ canonical (asked_of request')
        → let schedule = schedule m digest canonical number occurrences in
          let once = schedule others lane now endpoint request stated w in
          (once.0 ≡ ok h.id)
          × IsLive (number h.id) once.1
          × (schedule (λ w. w) lane' now' endpoint' request' stated once.1 ≡ (ok h.id, once.1))
    unfolding schedule identity
    schedule_again others lane lane' now now' endpoint endpoint' request request' stated w h h' s s'
          keeping p stored p' stored' same_call same_request =
        let (r, recurs, id) = prepared-id lane now endpoint request stated h p in
        let (r', recurs', id') = prepared-id lane' now' endpoint' request' stated h' p' in
        let same : r ≡ r' = ok_inj r r' (sym recurs ∙ recurs') in
        let one_id : h'.id ≡ h.id = id' ∙ simp (same_call, same_request, same) refl ∙ sym id in
        let (answer, live) = handed-IsLive others w h s keeping stored in
        let once = handed m digest canonical number occurrences others w (ok h) in
        let again =
          handed_live once.1 h' s' stored'
            (subst (λ x. IsLive (number x) once.1) (sym one_id) live) in
        simp (p, p') (answer, live, again ∙ ap (λ x. (ok x, once.1)) one_id)
