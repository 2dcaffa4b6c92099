-- ===== src/Trail.antt =====
-- The chain of hops that a call came by, and the rule that refuses one that has come back to
-- where it had been: runtime/core/source/trail.ts.
--
-- `AsyncLocalStorage`, which holds the invocation running now, is the platform's; `current` and
-- `follow` only pass it on and are not modelled.
pub mod Bounds
pub mod Calls
mod Tests
use Prim.Native.String.{String}
use Prim.Native.Nat.{ℕ}
use text.Mathlib.Text.{◌==◌ as str_eq}
use toa.Prelude.{
  ◌+◌, Bool, true, false, List, [], ◌∷◌, ◌++◌, Option, none, some, length, take, count_if, ltb, leb,
  ◌==◌, if◌then◌else◌,
}

-- Off the wire comes anything at all: an array is told from the rest, and in it the texts are.
pub data Item : Type 0 where
  string : String → Item
  alien : Item

pub data Inbound : Type 0 where
  items : List Item → Inbound
  other : Inbound

pub record Limits : Type 0 where
  pub repeats : ℕ
  pub depth : ℕ

-- What `Number(environment.get(…))` answers; what is declared is a whole number.
pub data Declared : Type 0 where
  nan negative : Declared
  natural : ℕ → Declared

pub number : Declared → ℕ → ℕ
number nan fallback = fallback
number negative fallback = fallback
number (natural n) fallback = n

-- `environment` is what is declared of TOA_TRAIL_REPEATS and of TOA_TRAIL_DEPTH.
pub limits : Declared → Declared → Limits
unfolding number
limits repeats depth = record { repeats = number repeats 3; depth = number depth 32 }

-- The two raises of `LoopException`, each with the trail that it reports.
pub data LoopException : Type 0 where
  deep : ℕ → List String → LoopException
  repeated : String → ℕ → List String → LoopException

pub data Result : Type 0 where
  ok : List String → Result
  raise : LoopException → Result

unfoldable pub texts : List Item → List String
texts [] = []
texts (string s ∷ xs) = s ∷ texts xs
texts (alien ∷ xs) = texts xs

unfoldable pub received : Inbound → List String
unfolding texts
received (items xs) = texts xs
received other = []

unfoldable pub clip : List String → ℕ → List String
clip hops depth = if ltb depth (length hops) then take depth hops else hops

-- `for (const passed of hops) if (passed === hop) seen++`
abbrev pub seen : String → List String → ℕ
seen hop = count_if (λ passed. str_eq passed hop)

unfoldable pub extend : Inbound → String → Limits → Result
extend inbound hop lim =
    let hops = clip (received inbound) lim.depth in
    let trail = hops ++ hop ∷ [] in
    if lim.repeats == 0
    then ok trail
    else if ltb lim.depth (length trail)
    then raise (deep (length trail) trail)
    else if leb lim.repeats (seen hop hops + 1)
    then raise (repeated hop (seen hop hops + 1) trail)
    else ok trail

unfoldable pub event : String → String
event destination = String.◌∷◌ "~" destination

-- The calls already made under an invocation, by endpoint.
abbrev pub Calls : Type 0
Calls = List (String × ℕ)

pub made : String → Calls → ℕ
made endpoint [] = 0
made endpoint ((e, n) ∷ calls) = if str_eq e endpoint then n else made endpoint calls

count : String → ℕ → Calls → Calls
count endpoint n [] = (endpoint, n) ∷ []
count endpoint n ((e, k) ∷ calls) =
    if str_eq e endpoint then (e, n) ∷ calls else (e, k) ∷ count endpoint n calls

-- `invocation.calls ??= new Map()`: an absent map is an empty one.
pub ordinal : Option Calls → String → ℕ × Option Calls
unfolding made count
ordinal none endpoint = (0, some (count endpoint 1 []))
ordinal (some calls) endpoint =
    (made endpoint calls, some (count endpoint (made endpoint calls + 1) calls))
