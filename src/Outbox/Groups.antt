-- ===== src/Outbox/Groups.antt =====
-- What a cycle marks, as rows that share the destinations that completed for them: `#groups`.
--
-- A group is keyed by the names of its destinations joined by a character that no name holds;
-- here by the names themselves, which is the same key.
use toa.Prelude.{
  ℕ, Bool, true, false, ◌&&◌, Option, none, some, List, [], ◌∷◌, ◌++◌, any, if◌then◌else◌, ◌==◌,
}
use toa.Prelude.Maps.{lookup, insert, contains}
use toa.Outbox.{Desk, Outbox}

abbrev pub Group : Type 0
Group = List ℕ × List ℕ

unfoldable pub complete : ℕ → ℕ → Option (List ℕ) → List (ℕ × List ℕ) → List (ℕ × List ℕ)
complete d id none m = insert id (d ∷ []) m
complete d id (some names) m = insert id (names ++ d ∷ []) m

unfoldable pub complete_ids : ℕ → List ℕ → List (ℕ × List ℕ) → List (ℕ × List ℕ)
unfolding complete
complete_ids d [] m = m
complete_ids d (id ∷ ids) m = complete_ids d ids (complete d id (lookup id m) m)

-- The destinations that completed for an id, in the order the destinations are held.
unfoldable pub completed : List (ℕ × Desk) → List (ℕ × List ℕ) → List (ℕ × List ℕ)
unfolding complete_ids
completed [] m = m
completed ((d, x) ∷ desks) m = completed desks (complete_ids d x.published m)

unfoldable pub same_names : List ℕ → List ℕ → Bool
same_names [] [] = true
same_names [] (y ∷ ys) = false
same_names (x ∷ xs) [] = false
same_names (x ∷ xs) (y ∷ ys) = x == y && same_names xs ys

unfoldable pub grouped : List ℕ → ℕ → List Group → List Group
unfolding same_names
grouped names id [] = (names, id ∷ []) ∷ []
grouped names id ((ds, ids) ∷ gs) =
    if same_names ds names then (ds, ids ++ id ∷ []) ∷ gs else (ds, ids) ∷ grouped names id gs

unfoldable pub group_all : List (ℕ × List ℕ) → List Group → List Group
unfolding grouped
group_all [] gs = gs
group_all ((id, names) ∷ m) gs = group_all m (grouped names id gs)

unfoldable pub groups : Outbox → List Group
unfolding completed group_all
groups o = group_all (completed o.desks []) []

-- Whether marking these groups takes a destination out of what a row is outstanding for.
unfoldable pub settles : ℕ → ℕ → List Group → Bool
settles d id = any (λ g. contains d g.0 && contains id g.1)

-- Whether a destination holds a row as published.
unfoldable pub has_published : ℕ → ℕ → List (ℕ × Desk) → Bool
has_published d id = any (λ x. d == x.0 && contains id x.1.published)
