-- ===== src/Throttle/Sync/Pace.antt =====
-- How often the quotas of a process are reconciled: `register` of throttle/Sync.ts.
use toa.Prelude.{
  ℕ, min, ◌≡◌, refl, ap, sym, ◌∙◌, true, false, Option, none, some, List, [], ◌∷◌, arith,
  Bool-cases, inl, inr,
}
use toa.Throttle.Quotas.{Quotas, period}
use toa.Throttle.Sync.{Sync, new, register, start, is_shorter}

-- The shorter of two periods, of which `none` is Infinity.
abbrev pub shorter : Option ℕ → Option ℕ → Option ℕ
shorter none q = q
shorter (some p) none = some p
shorter (some p) (some q) = some (min p q)

abbrev pub shortest : List Quotas → Option ℕ
shortest [] = none
shortest (q ∷ qs) = shorter (some (period q.interval)) (shortest qs)

abbrev pub register_all : List Quotas → Sync → Sync
register_all [] s = s
register_all (q ∷ qs) s = register_all qs (register q s)

shorter_assoc : (a b c : Option ℕ) → shorter (shorter a b) c ≡ shorter a (shorter b c)
shorter_assoc none b c = refl
shorter_assoc (some a) none c = refl
shorter_assoc (some a) (some b) none = refl
shorter_assoc (some a) (some b) (some c) = ap some (omega arith)

shorter-none : (a : Option ℕ) → shorter a none ≡ a
shorter-none none = refl
shorter-none (some a) = refl

is_shorter-shorter : (x : ℕ) (p : Option ℕ) → is_shorter x p ≡ true → some x ≡ shorter p (some x)
unfolding is_shorter
is_shorter-shorter x none h = refl
is_shorter-shorter x (some p) h = ap some (ground arith)

not_shorter-shorter : (x : ℕ) (p : Option ℕ) → is_shorter x p ≡ false → p ≡ shorter p (some x)
unfolding is_shorter
not_shorter-shorter x none h = cc
not_shorter-shorter x (some p) h = ap some (ground arith)

abbrev pace : Quotas → ℕ
pace q = period q.interval

register-period : (q : Quotas) (s : Sync) → (register q s).period ≡ shorter s.period (some (pace q))
unfolding register
register-period q s = elim (Bool-cases (is_shorter (pace q) s.period)) [
  | inl h ↦ simp h (is_shorter-shorter (pace q) s.period h)
  | inr h ↦ simp h (not_shorter-shorter (pace q) s.period h)
]

register-timer :
    (q : Quotas) (s : Sync) → s.timer ≡ s.period → (register q s).timer ≡ (register q s).period
unfolding register start
register-timer q s same = elim (Bool-cases (is_shorter (pace q) s.period)) [
  | inl h ↦ simp h refl
  | inr h ↦ simp h same
]

register_all-period :
    (qs : List Quotas) (s : Sync) → (register_all qs s).period ≡ shorter s.period (shortest qs)
register_all-period [] s = sym (shorter-none s.period)
register_all-period (q ∷ qs) s =
    register_all-period qs (register q s)
    ∙ ap (λ p. shorter p (shortest qs)) (register-period q s)
    ∙ shorter_assoc s.period (some (pace q)) (shortest qs)

register_all-timer :
    (qs : List Quotas) (s : Sync)
    → s.timer ≡ s.period
    → (register_all qs s).timer ≡ (register_all qs s).period
register_all-timer [] s same = same
register_all-timer (q ∷ qs) s same = register_all-timer qs (register q s) (register-timer q s same)

-- Whatever quotas are registered in a process that had none, and in whatever order, the interval is
-- the shortest of their periods, and is not set when there are none.
pub register_all-shortest : (qs : List Quotas) → (register_all qs new).timer ≡ shortest qs
unfolding new
register_all-shortest qs = register_all-timer qs new refl ∙ register_all-period qs new
