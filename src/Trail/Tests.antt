-- ===== src/Trail/Tests.antt =====
-- A chain of two hops, and calls of one invocation.
use Prim.Native.String.{String}
use toa.Prelude.{◌≤◌, ◌<◌, refl, List, [], ◌∷◌, length, arith}
use toa.Trail.{Inbound, items, other, string, alien, Limits, received, clip, seen, extend, texts}
use toa.Trail.Bounds.{CallPath, root, hop, CallPath-bounded}

abbrev three : Limits
three = record { repeats = 3; depth = 32 }

abbrev off : Limits
off = record { repeats = 0; depth = 2 }

abbrev arrived : Inbound
arrived = items (string "pots.fill" ∷ alien ∷ string "cups.pour" ∷ [])

abbrev chain : List String
chain = "pots.fill" ∷ "cups.pour" ∷ []

called_path : CallPath three chain
unfolding extend received texts clip
called_path =
    hop (items (string "pots.fill" ∷ [])) "cups.pour" (hop other "pots.fill" root refl refl) refl
      refl

CallPath-bounded_example : (length chain ≤ 32) × (seen "pots.fill" chain < 3)
CallPath-bounded_example = CallPath-bounded {lim = three} "pots.fill" (omega arith) called_path
