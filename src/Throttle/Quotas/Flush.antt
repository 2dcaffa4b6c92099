-- ===== src/Throttle/Quotas/Flush.antt =====
-- What a flush forgets of a quota.
use toa.Prelude.{
  ℕ, ◌+◌, ◌-◌, ◌≤◌, ◌≡◌, refl, ap, sym, ◌∙◌, none, false, List, [], ◌∷◌, ltb, leb, Bool-cases, inl,
  inr, arith, if◌then◌else◌,
}
use native.Mathlib.Nat.{mul-le-mul_right}
use toa.Prelude.Maps.{lookup, IsKeyed}
use toa.Throttle.Quotas.{
  Quotas, Entry, emission, capacity, at, arrival, seconds, decide, flush, flush_entries, round,
}

kept_none :
    (q : Quotas) (now key : ℕ) (es : List (ℕ × Entry))
    → lookup key es ≡ none
    → lookup key (flush_entries q now es).0 ≡ none
unfolding flush_entries
kept_none q now key [] h = refl
kept_none q now key ((k, e) ∷ es) h = ground (arith, kept_none q now key es)

kept_arrival :
    (q : Quotas) (now t key : ℕ) (es : List (ℕ × Entry))
    → IsKeyed es
    → at q now ≤ t
    → arrival (lookup key (flush_entries q now es).0) t ≡ arrival (lookup key es) t
unfolding flush_entries arrival
kept_arrival q now t key [] u h = refl
kept_arrival q now t key ((k, e) ∷ es) (u, us) h =
    ground (arith, kept_none q now k es u, kept_arrival q now t key es us h)

abbrev told : Quotas → ℕ → ℕ → ℕ
told q t a =
    if ltb (at q t + capacity q) (a + emission q)
    then seconds q.requests (a + emission q - capacity q - at q t)
    else 0

decide-told :
    (q : Quotas) (key t : ℕ)
    → (decide q key t).1 ≡ told q t (arrival (lookup key q.entries) (at q t))
unfolding decide
decide-told q key t = ground arith

-- Flushing a quota, which drops what has run its time, changes no later decision on any key.
pub flush_decides :
    (q : Quotas) (key now later : ℕ)
    → IsKeyed q.entries
    → now ≤ later
    → (decide (flush q now).0 key later).1 ≡ (decide q key later).1
unfolding flush
flush_decides q key now later u h =
    let same = kept_arrival q now (at q later) key q.entries u (mul-le-mul_right q.requests h) in
    decide-told (flush q now).0 key later ∙ ap (told q later) same ∙ sym (decide-told q key later)

-- What is reported is not of the entries that a quota has besides.
flush_entries_of :
    (q : Quotas) (kept : List (ℕ × Entry)) (now : ℕ) (es : List (ℕ × Entry))
    → flush_entries (record q { entries = kept }) now es ≡ flush_entries q now es
unfolding flush_entries round
flush_entries_of q kept now [] = refl
flush_entries_of q kept now (e ∷ es) = rw (flush_entries_of q kept now es) refl

-- An entry that is kept with nothing to report.
quiet_entry :
    (q : Quotas) (later key : ℕ) (e : Entry) (es : List (ℕ × Entry))
    → ltb 0 (round q e.debt) ≡ false
    → (flush_entries q later ((key, e) ∷ es)).1 ≡ (flush_entries q later es).1
unfolding flush_entries
quiet_entry q later key e es h = elim (Bool-cases (leb e.tat (at q later))) [
  | inl gone ↦ rw (h, gone) refl
  | inr waits ↦ rw (h, waits) refl
]

flush_entries_again :
    (q : Quotas) (now later : ℕ) (es : List (ℕ × Entry))
    → (flush_entries q later (flush_entries q now es).0).1 ≡ (flush_entries q now es).1
unfolding flush_entries
flush_entries_again q now later [] = refl
flush_entries_again q now later ((key, e) ∷ es) =
    let rest = flush_entries_again q now later es in
    let kept = (flush_entries q now es).0 in
    elim (Bool-cases (ltb 0 (round q e.debt))) [
      | inl owes ↦ rw (owes, owes) (ap (λ b. (key, round q e.debt) ∷ b) rest)
      | inr free ↦ elim (Bool-cases (leb e.tat (at q now))) [
        | inl gone ↦ rw (free, gone) rest
        | inr waits ↦ rw (free, waits) (quiet_entry q later key e kept free ∙ rest)
      ]
    ]

-- What a flush reports is there to be reported by the next one.
pub flush-flush : (q : Quotas) (now later : ℕ) → (flush (flush q now).0 later).1 ≡ (flush q now).1
unfolding flush
flush-flush q now later =
    let kept = (flush_entries q now q.entries).0 in
    ap (λ r. r.1) (flush_entries_of q kept later kept) ∙ flush_entries_again q now later q.entries
