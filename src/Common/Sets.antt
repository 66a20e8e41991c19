-- ===== src/Common/Sets.antt =====
-- Python's sets of strings, as lists in the order of first insertion, and `sorted` on them.
use Prim.Native.Nat.{Ordering}
use Prim.Native.String.{String, compare}
use mathlib.Core.Path.{◌≡◌, refl}
use mathlib.Core.List.{List, [], ◌∷◌, ◌++◌}
use nl2sql_agent.Common.Tests.{if◌then◌else◌}
use nl2sql_agent.Common.Strings.{mem_text}

-- `s.add(x)`
abbrev pub add : String → List String → List String
add x s = if mem_text x s then s else s ++ x ∷ []

unfoldable pub insert_sorted : String → List String → List String
insert_sorted x [] = x ∷ []
insert_sorted x (y ∷ ys) =
    let later = insert_sorted x ys in
    elim (compare x y) [ Ordering.gt ↦ y ∷ later | _ ↦ x ∷ y ∷ ys ]

-- `sorted(s)`
unfoldable pub sorted : List String → List String
unfolding insert_sorted
sorted [] = []
sorted (x ∷ xs) = insert_sorted x (sorted xs)

sorted_example : sorted ("b" ∷ "c" ∷ "a" ∷ []) ≡ "a" ∷ "b" ∷ "c" ∷ []
unfolding sorted
sorted_example = refl
