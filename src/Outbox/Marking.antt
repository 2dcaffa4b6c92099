-- ===== src/Outbox/Marking.antt =====
-- Which rows a cycle marks, and what it lets go of.
use toa.Prelude.{
  ℕ, ◌≡◌, refl, ap, ◌∙◌, Bool, true, false, ◌&&◌, ◌||◌, Option, none, some, List, [], ◌∷◌, ◌++◌,
  arith, any, if◌then◌else◌, ◌==◌, ==_iff, not, filter, Bool-cases, inl, inr,
}
use toa.Prelude.Maps.{IsKeyed, lookup, insert, contains, lookup-insert}
use toa.Outbox.{Desk, Outbox}
use toa.Outbox.Pump.{remove_all, settle_from, settle_desks, settle, settle_all, mark}
use toa.Outbox.Once.{contains-remove_all}
use toa.Outbox.Groups.{
  Group, complete, complete_ids, completed, same_names, grouped, group_all, groups, settles,
  has_published,
}

insert-IsKeyed :
    {V : Type 0} (k : ℕ) (v : V) (m : List (ℕ × V)) → IsKeyed m → IsKeyed (insert k v m)
insert-IsKeyed k v [] h = (refl, tt)
insert-IsKeyed k v (e ∷ m) h = ground (arith, insert-IsKeyed k v m h.1, lookup-insert e.0 k v m)

-- Whether an id completed at a destination.
in_completed : ℕ → ℕ → List (ℕ × List ℕ) → Bool
in_completed d id = any (λ e. id == e.0 && contains d e.1)

in_completed_absent :
    (d id : ℕ) (m : List (ℕ × List ℕ)) → lookup id m ≡ none → in_completed d id m ≡ false
unfolding in_completed
in_completed_absent d id [] h = refl
in_completed_absent d id (e ∷ m) h = ground (arith, in_completed_absent d id m)

in_completed_found :
    (d id : ℕ) (m : List (ℕ × List ℕ)) (names : List ℕ)
    → IsKeyed m
    → lookup id m ≡ some names
    → in_completed d id m ≡ contains d names
unfolding in_completed
in_completed_found d id [] names k h = cc
in_completed_found d id ((j, ns) ∷ m) names (fresh, k) h = elim (Bool-cases (id == j)) [
  | inl same ↦
      let e : lookup id m ≡ none = ap (λ k. lookup k m) ((==_iff id j).0 same) ∙ fresh in
      ground (arith, in_completed_absent d id m e)
  | inr other ↦ ground (arith, in_completed_found d id m names k)
]

in_completed-insert :
    (d j id : ℕ) (names : List ℕ) (m : List (ℕ × List ℕ))
    → IsKeyed m
    → in_completed d j (insert id names m)
      ≡ (if j == id then contains d names else in_completed d j m)
unfolding in_completed
in_completed-insert d j id names [] k = ground arith
in_completed-insert d j id names ((i, ns) ∷ m) (fresh, k) =
    ground (arith, in_completed-insert d j id names m k, in_completed_absent d j m)

contains-append :
    (d : ℕ) (xs ys : List ℕ) → contains d (xs ++ ys) ≡ (contains d xs || contains d ys)
contains-append d [] ys = refl
contains-append d (x ∷ xs) ys = ground (arith, contains-append d xs ys)

in_completed-complete :
    (d j d' id : ℕ) (m : List (ℕ × List ℕ)) (o : Option (List ℕ))
    → IsKeyed m
    → lookup id m ≡ o
    → (in_completed d j (complete d' id o m) ≡ (in_completed d j m || (d == d' && j == id)))
      × IsKeyed (complete d' id o m)
unfolding complete
in_completed-complete d j d' id m none k e = (
  ground (
    arith,
    in_completed-insert d j id (d' ∷ []) m k,
    in_completed_absent d id m e,
    ap (λ i. in_completed d i m) {x = j} {y = id},
  ),
  insert-IsKeyed id (d' ∷ []) m k,
)
in_completed-complete d j d' id m (some names) k e = (
  ground (
    arith,
    in_completed-insert d j id (names ++ d' ∷ []) m k,
    contains-append d names (d' ∷ []),
    in_completed_found d id m names k e,
    ap (λ i. in_completed d i m) {x = j} {y = id},
  ),
  insert-IsKeyed id (names ++ d' ∷ []) m k,
)

same_names-eq : (xs ys : List ℕ) → same_names xs ys ≡ true → xs ≡ ys
unfolding same_names
same_names-eq [] [] h = refl
same_names-eq [] (y ∷ ys) h = cc
same_names-eq (x ∷ xs) [] h = cc
same_names-eq (x ∷ xs) (y ∷ ys) h = ground (arith, same_names-eq xs ys)

settles-grouped :
    (d j : ℕ) (names : List ℕ) (id : ℕ) (gs : List Group)
    → settles d j (grouped names id gs) ≡ (settles d j gs || (contains d names && j == id))
unfolding settles grouped
settles-grouped d j names id [] = ground arith
settles-grouped d j names id ((ds, ids) ∷ gs) = ground (
  arith,
  settles-grouped d j names id gs,
  contains-append j ids (id ∷ []),
  λ (e : same_names ds names ≡ true). ap (contains d) (same_names-eq ds names e),
)

settles-group_all :
    (d j : ℕ) (m : List (ℕ × List ℕ)) (gs : List Group)
    → settles d j (group_all m gs) ≡ (settles d j gs || in_completed d j m)
unfolding group_all in_completed
settles-group_all d j [] gs = ground arith
settles-group_all d j ((id, names) ∷ m) gs =
    ground (arith, settles-group_all d j m (grouped names id gs), settles-grouped d j names id gs)

in_completed-complete_ids :
    (d j d' : ℕ) (ids : List ℕ) (m : List (ℕ × List ℕ))
    → IsKeyed m
    → (in_completed d j (complete_ids d' ids m)
        ≡ (in_completed d j m || (d == d' && contains j ids)))
      × IsKeyed (complete_ids d' ids m)
unfolding complete_ids
in_completed-complete_ids d j d' [] m k = (ground arith, k)
in_completed-complete_ids d j d' (id ∷ ids) m k =
    let (now, keyed) = in_completed-complete d j d' id m (lookup id m) k refl in
    let (rest, done) =
      in_completed-complete_ids d j d' ids (complete d' id (lookup id m) m) keyed in
    (ground arith, done)

in_completed-completed :
    (d j : ℕ) (desks : List (ℕ × Desk)) (m : List (ℕ × List ℕ))
    → IsKeyed m
    → in_completed d j (completed desks m) ≡ (in_completed d j m || has_published d j desks)
unfolding completed has_published
in_completed-completed d j [] m k = ground arith
in_completed-completed d j ((d', x) ∷ desks) m k =
    let (now, keyed) = in_completed-complete_ids d j d' x.published m k in
    let rest = in_completed-completed d j desks (complete_ids d' x.published m) keyed in
    ground arith

-- The groups that a cycle marks take a destination out of a row exactly where this process has sent
-- the row to that destination and not marked it: nothing unsent is ever marked, and nothing sent is
-- left out.
pub settles-groups : (d id : ℕ) (o : Outbox) → settles d id (groups o) ≡ has_published d id o.desks
unfolding groups in_completed settles
settles-groups d id o =
    settles-group_all d id (completed o.desks []) [] ∙ in_completed-completed d id o.desks [] tt

has_published_absent :
    (d id : ℕ) (m : List (ℕ × Desk)) → lookup d m ≡ none → has_published d id m ≡ false
unfolding has_published
has_published_absent d id [] h = refl
has_published_absent d id (e ∷ m) h = ground (arith, has_published_absent d id m)

has_published-insert :
    (d id d' : ℕ) (y : Desk) (m : List (ℕ × Desk))
    → IsKeyed m
    → has_published d id (insert d' y m)
      ≡ (if d == d' then contains id y.published else has_published d id m)
unfolding has_published
has_published-insert d id d' y [] k = ground arith
has_published-insert d id d' y ((i, x) ∷ m) (fresh, k) =
    ground (arith, has_published-insert d id d' y m k, has_published_absent d id m)

has_published_found :
    (d id : ℕ) (m : List (ℕ × Desk)) (x : Desk)
    → IsKeyed m
    → lookup d m ≡ some x
    → has_published d id m ≡ contains id x.published
unfolding has_published
has_published_found d id [] x k h = cc
has_published_found d id ((j, y) ∷ m) x (fresh, k) h = elim (Bool-cases (d == j)) [
  | inl same ↦
      let e : lookup d m ≡ none = ap (λ k. lookup k m) ((==_iff d j).0 same) ∙ fresh in
      ground (arith, has_published_absent d id m e)
  | inr other ↦ ground (arith, has_published_found d id m x k)
]

-- What a write of these rows for one destination leaves.
abbrev Leaves : ℕ → ℕ → List (ℕ × Desk) → Bool → Outbox → Type 0
Leaves d id desks taken o' =
    (has_published d id o'.desks ≡ (has_published d id desks && not taken)) × IsKeyed o'.desks

settle_from-Leaves :
    (d id : ℕ) (ids : List ℕ) (d' : ℕ) (o : Outbox) (x : Option Desk)
    → IsKeyed o.desks
    → lookup d' o.desks ≡ x
    → Leaves d id o.desks (d == d' && contains id ids) (settle_from ids d' o x)
unfolding settle_from
settle_from-Leaves d id ids d' o none k e = (
  ground (
    arith,
    has_published_absent d' id o.desks e,
    ap (λ i. has_published i id o.desks) {x = d} {y = d'},
  ),
  k,
)
settle_from-Leaves d id ids d' o (some x) k e = (
  ground (
    arith,
    has_published-insert d id d' (record x { published = remove_all ids x.published }) o.desks k,
    has_published_found d' id o.desks x k e,
    contains-remove_all id ids x.published,
    ap (λ i. has_published i id o.desks) {x = d} {y = d'},
  ),
  insert-IsKeyed d' (record x { published = remove_all ids x.published }) o.desks k,
)

settle_desks-Leaves :
    (d id : ℕ) (ids ds : List ℕ) (o : Outbox)
    → IsKeyed o.desks
    → Leaves d id o.desks (contains d ds && contains id ids) (settle_desks ids ds o)
unfolding settle_desks
settle_desks-Leaves d id ids [] o k = (ground arith, k)
settle_desks-Leaves d id ids (d' ∷ ds) o k =
    let now = settle_from-Leaves d id ids d' o (lookup d' o.desks) k refl in
    let rest = settle_desks-Leaves d id ids ds (settle_from ids d' o (lookup d' o.desks)) now.1 in
    (ground arith, rest.1)

settle-Leaves :
    (d id : ℕ) (stored : Group → Bool) (g : Group) (o : Outbox)
    → IsKeyed o.desks
    → Leaves d id o.desks (stored g && (contains d g.0 && contains id g.1)) (settle stored g o)
unfolding settle
settle-Leaves d id stored g o k = go (stored g)
  where
    go :
        (b : Bool)
        → Leaves d id o.desks
            (b && (contains d g.0 && contains id g.1))
            (if b then settle_desks g.1 g.0 o else o)
    go true = settle_desks-Leaves d id g.1 g.0 o k
    go false = (ground arith, k)

settle_all-Leaves :
    (d id : ℕ) (stored : Group → Bool) (gs : List Group) (o : Outbox)
    → IsKeyed o.desks
    → Leaves d id o.desks (settles d id (filter stored gs)) (settle_all stored gs o)
unfolding settle_all settles
settle_all-Leaves d id stored [] o k = (ground arith, k)
settle_all-Leaves d id stored (g ∷ gs) o k =
    let now = settle-Leaves d id stored g o k in
    let rest = settle_all-Leaves d id stored gs (settle stored g o) now.1 in (ground arith, rest.1)

-- Marking lets go of a row at a destination exactly where a group with both was written: what a
-- failed write was for is kept, to be marked by a later cycle.
pub mark-Leaves :
    (d id : ℕ) (stored : Group → Bool) (o : Outbox)
    → IsKeyed o.desks
    → has_published d id (mark stored o).desks
      ≡ (has_published d id o.desks && not (settles d id (filter stored (groups o))))
unfolding mark
mark-Leaves d id stored o k = (settle_all-Leaves d id stored (groups o) o k).0
