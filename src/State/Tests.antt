-- ===== src/State/Tests.antt =====
-- A storage that holds one record, and writes what is of the next version.
use toa.Prelude.{ℕ, zero, suc, Bool, none, some, [], ◌∷◌, true, false}
use toa.Entity.{Record, Entity, Changeset, event}
use toa.Outbox.{Outbox, new, nan}
use toa.State.{Query, Storage, Setup, Moment, World, done, row_of, is_rejected, commit}
use toa.State.Commits.{IsCommitted, commit_hands}

abbrev pot : Record ℕ
pot = record {
  id = 7;
  version = some 2;
  created = some 10;
  updated = some 20;
  deleted = none;
  region = some 3;
  trailers = none;
  discard = none;
  own = 4;
}

abbrev lucky : ℕ → Bool
lucky zero = true
lucky (suc n) = false

abbrev spent : ℕ → ℕ
spent zero = 0
spent (suc n) = n

-- the state is how many writes are lost before one is made
abbrev storage : Storage ℕ ℕ ℕ
storage = record {
  get = λ s q. (some pot, s);
  find = λ s q. (pot ∷ [], s);
  store = λ s r row call. (done (lucky s), spent s);
  mass_store = λ s rs rows. (lucky s, spent s);
  upsert = λ s q change row call. (done (some (record pot { own = change.own })), s);
  ensure = λ s q ps r row call. (done r, s);
  recall = λ s id. (none, s);
}

abbrev outbox : Outbox
outbox =
    new (1 ∷ 2 ∷ []) true (record { interval = none; batch = none; gap = none })
      (record { interval = nan; batch = nan; defer = false })

abbrev pub setup : Setup ℕ ℕ ℕ
setup = record {
  storage = storage;
  schemas = record { fits = λ r. true; guards = []; blank = 0; region = 3 };
  outbox = some outbox;
  associated = false;
  assign = λ v p. p;
}

abbrev pub moment : Moment
moment = record { now = 40; fresh = 8; pick = λ n. 0; owned = none; hops = none; fails = false }

abbrev pub world : ℕ → World ℕ ℕ
world n = record { store = n; handed = [] }

abbrev entity : Entity ℕ
entity = record { deleted = false; origin = some pot; state = pot; mutable = true }

abbrev pub query : Query
query = record {
  id = some 7;
  ids = none;
  version = none;
  criteria = none;
  deleted = false;
  projection = none;
}

abbrev change : Changeset ℕ
change = record { version = none; updated = some 40; own = 9 }

commit_hands_example :
    IsCommitted
      (world 0)
      (row_of setup moment (event entity (some 5)))
      (is_rejected setup moment (row_of setup moment (event entity (some 5))))
      (done true, 0)
      (commit setup moment entity (some 5) none (world 0))
commit_hands_example = commit_hands setup moment entity (some 5) none (world 0)
