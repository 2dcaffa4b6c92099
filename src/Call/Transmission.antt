-- ===== src/Call/Transmission.antt =====
-- Which binding a call is handed to: runtime/core/source/transmission.ts.
--
-- A binding is what it makes of the call: of a request and, if it takes tasks, of a task.
use toa.Prelude.{
  ◌≡◌, refl, ap, ℕ, Bool, true, false, Option, none, some, List, [], ◌∷◌, ◌++◌, All, ◌⊎◌, inl, inr,
}
use toa.Call.{Exception, rejected, Result, ok, raise}
use toa.Call.Invoke.{Reply, nothing}

-- `false`, a reply, or what is thrown.
pub data Offer : Type 0 where
  declined : Offer
  replies : Reply → Offer
  throws : Exception → Offer

pub record Binding : Type 0 where
  pub id : ℕ
  pub request : Offer
  -- what a task is taken with, if tasks are
  pub task : Option (Option Exception)

-- `await binding.task(request); reply = null`
tasked : Option Exception → Offer
tasked none = replies nothing
tasked (some e) = throws e

-- What is asked of a binding, unless it is passed over.
pub asked : Bool → Binding → Option Offer
unfolding tasked
asked false b = some b.request
asked true b = elim b.task [ none ↦ none | some done ↦ some (tasked done) ]

also : ℕ → Result Reply × List ℕ → Result Reply × List ℕ
also id (r, ids) = (r, id ∷ ids)

-- How the loop goes on after a binding, of which `rest` is the rest.
onward : ℕ → Option Offer → Result Reply × List ℕ → Result Reply × List ℕ
unfolding also
onward id none rest = rest
onward id (some declined) rest = also id rest
onward id (some (replies r)) rest = (ok r, id ∷ [])
onward id (some (throws e)) rest = (raise e, id ∷ [])

-- `request`, with the bindings that were asked
pub request : Bool → List Binding → Result Reply × List ℕ
unfolding onward asked
request task [] = (raise rejected, [])
request task (b ∷ bs) = let rest = request task bs in onward b.id (asked task b) rest

-- A binding that takes no task, or declines.
abbrev Declines : Option Offer → Type 0
Declines none = Unit
Declines (some declined) = Unit
Declines (some (replies r)) = ⊥
Declines (some (throws e)) = ⊥

abbrev handed_to : ℕ → Option Offer → List ℕ → List ℕ
handed_to id none ids = ids
handed_to id (some o) ids = id ∷ ids

-- The bindings that a call may be handed to.
abbrev able : Bool → List Binding → List ℕ
able task [] = []
able task (b ∷ bs) = handed_to b.id (asked task b) (able task bs)

-- What the first binding that does not decline settles a call with.
abbrev Settles : Option Offer → Result Reply → Type 0
Settles none r = ⊥
Settles (some declined) r = ⊥
Settles (some (replies reply)) r = r ≡ ok reply
Settles (some (throws e)) r = r ≡ raise e

-- A call in which every binding declined.
pub record IsRejected (task : Bool) (bs : List Binding) : Type 0 where
  pub all : All (λ b. Declines (asked task b)) bs
  pub result : request task bs ≡ (raise rejected, able task bs)

-- A call that a binding settled, and those before it declined.
pub record IsSettled (task : Bool) (bs : List Binding) : Type 0 where
  pub before : List Binding
  pub by : Binding
  pub after : List Binding
  pub order : bs ≡ before ++ by ∷ after
  pub declines : All (λ b. Declines (asked task b)) before
  pub settles : Settles (asked task by) (request task bs).0
  pub handed : (request task bs).1 ≡ able task before ++ by.id ∷ []

-- What a binding that declines, or is passed over, leaves to the others.
IsRejected-on :
    (task : Bool) (b : Binding) (bs : List Binding) (o : Option Offer)
    → asked task b ≡ o
    → Declines o
    → IsRejected task bs
    → IsRejected task (b ∷ bs)
unfolding request onward also
IsRejected-on task b bs none e d r = record {
  all = (simp e tt, r.all);
  result = simp (e, r.result) refl;
}
IsRejected-on task b bs (some declined) e d r = record {
  all = (simp e tt, r.all);
  result = simp (e, r.result) refl;
}
IsRejected-on task b bs (some (replies x)) e d r = absurd d
IsRejected-on task b bs (some (throws x)) e d r = absurd d

IsSettled-on :
    (task : Bool) (b : Binding) (bs : List Binding) (o : Option Offer)
    → asked task b ≡ o
    → Declines o
    → IsSettled task bs
    → IsSettled task (b ∷ bs)
unfolding request onward also
IsSettled-on task b bs none e d s = record {
  before = b ∷ s.before;
  by = s.by;
  after = s.after;
  order = ap (λ xs. b ∷ xs) s.order;
  declines = (simp e tt, s.declines);
  settles = simp e s.settles;
  handed = simp (e, s.handed) refl;
}
IsSettled-on task b bs (some declined) e d s = record {
  before = b ∷ s.before;
  by = s.by;
  after = s.after;
  order = ap (λ xs. b ∷ xs) s.order;
  declines = (simp e tt, s.declines);
  settles = simp e s.settles;
  handed = simp (e, s.handed) refl;
}
IsSettled-on task b bs (some (replies x)) e d s = absurd d
IsSettled-on task b bs (some (throws x)) e d s = absurd d

settles_at :
    (task : Bool) (b : Binding) (bs : List Binding) (o : Option Offer)
    → asked task b ≡ o
    → IsRejected task bs ⊎ IsSettled task bs
    → IsRejected task (b ∷ bs) ⊎ IsSettled task (b ∷ bs)
unfolding request onward
settles_at task b bs none e (inl r) = inl (IsRejected-on task b bs none e tt r)
settles_at task b bs none e (inr s) = inr (IsSettled-on task b bs none e tt s)
settles_at task b bs (some declined) e (inl r) =
    inl (IsRejected-on task b bs (some declined) e tt r)
settles_at task b bs (some declined) e (inr s) = inr (IsSettled-on task b bs (some declined) e tt s)
settles_at task b bs (some (replies x)) e rest = inr (record {
  before = [];
  by = b;
  after = bs;
  order = refl;
  declines = tt;
  settles = simp e refl;
  handed = simp e refl;
})
settles_at task b bs (some (throws x)) e rest = inr (record {
  before = [];
  by = b;
  after = bs;
  order = refl;
  declines = tt;
  settles = simp e refl;
  handed = simp e refl;
})

-- A call is handed to the bindings in their order, a task to those only that take one, until one
-- does not decline; its reply, or what it throws, is the call's, and no other is asked after it. If
-- all decline, or there are none, the call is rejected.
pub request-settles : (task : Bool) (bs : List Binding) → IsRejected task bs ⊎ IsSettled task bs
unfolding request
request-settles task [] = inl (record { all = tt; result = refl })
request-settles task (b ∷ bs) = settles_at task b bs (asked task b) refl (request-settles task bs)
