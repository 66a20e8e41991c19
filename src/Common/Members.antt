-- ===== src/Common/Members.antt =====
-- Membership in the lists that stand for Python's sets of strings.
use Prim.Native.Nat.{suc}
use Prim.Native.Nat.{Ordering}
use Prim.Native.String.{String, compare}
use mathlib.Core.Path.{◌≡◌, refl, ap, ◌∙◌}
use mathlib.Core.Logic.{inl, inr}
use mathlib.Core.Bool.{true, false, ◌&&◌, ◌||◌}
use mathlib.Core.List.{List, [], ◌∷◌, ◌++◌}
use native.Mathlib.Omega.{arith}
use text.Mathlib.Text.{◌==◌}
use text.Mathlib.TextEquality.{eq_iff}
use nl2sql_agent.Common.Tests.{Bool-cases}
use nl2sql_agent.Common.Lists.{length}
use nl2sql_agent.Common.Strings.{mem_text}
use nl2sql_agent.Common.Sets.{add, insert_sorted, sorted}

pub mem-nothing : (x : String) → mem_text x [] ≡ false
unfolding mem_text
mem-nothing x = refl

pub mem-cons : (x y : String) (ys : List String) → mem_text x (y ∷ ys) ≡ ((x == y) || mem_text x ys)
unfolding mem_text
mem-cons x y ys = refl

pub mem-nil : (y : String) (known : List String) → mem_text y [] ≡ (mem_text y known && false)
mem-nil y known = ground (arith, mem-nothing y)

pub mem-append :
    (x : String) (xs ys : List String) → mem_text x (xs ++ ys) ≡ (mem_text x xs || mem_text x ys)
unfolding mem_text
mem-append x [] ys = refl
mem-append x (y ∷ xs) ys = ground (arith, mem-append x xs ys)

pub mem-same : (x y : String) (xs : List String) → (x == y) ≡ true → mem_text x xs ≡ mem_text y xs
mem-same x y xs h = ap (λ z. mem_text z xs) ((eq_iff x y).0 h)

pub mem-single : (x y : String) → mem_text x (y ∷ []) ≡ (x == y)
unfolding mem_text
mem-single x y = ground arith

pub mem-add :
    (x y : String) (xs : List String) → mem_text x (add y xs) ≡ ((x == y) || mem_text x xs)
mem-add x y xs = elim (Bool-cases (mem_text y xs)) [
  | inl there ↦ rw there (elim (Bool-cases (x == y)) [
    | inl same ↦ rw same (mem-same x y xs same ∙ there)
    | inr other ↦ rw other refl
  ])
  | inr new ↦ rw new (mem-append x xs (y ∷ []) ∙ rw (mem-single x y) (ground arith))
]

-- An insertion into a sorted list adds one element.
insert_sorted-mem :
    (a x : String) (ys : List String)
    → mem_text a (insert_sorted x ys) ≡ ((a == x) || mem_text a ys)
unfolding insert_sorted mem_text
insert_sorted-mem a x [] = refl
insert_sorted-mem a x (y ∷ ys) =
    elim (compare x y)
      as (λ o.
        mem_text a (elim o [ Ordering.gt ↦ y ∷ insert_sorted x ys | _ ↦ x ∷ y ∷ ys ])
        ≡ ((a == x) || mem_text a (y ∷ ys))) [
          | Ordering.lt ↦ refl
          | Ordering.eq ↦ refl
          | Ordering.gt ↦ ground (arith, insert_sorted-mem a x ys)
        ]

pub mem-sorted : (a : String) (s : List String) → mem_text a (sorted s) ≡ mem_text a s
unfolding sorted mem_text
mem-sorted a [] = refl
mem-sorted a (x ∷ s) = insert_sorted-mem a x (sorted s) ∙ ap (λ b. (a == x) || b) (mem-sorted a s)

insert_sorted-length :
    (x : String) (ys : List String) → length (insert_sorted x ys) ≡ suc (length ys)
unfolding insert_sorted
insert_sorted-length x [] = refl
insert_sorted-length x (y ∷ ys) =
    elim (compare x y)
      as (λ o.
        length (elim o [ Ordering.gt ↦ y ∷ insert_sorted x ys | _ ↦ x ∷ y ∷ ys ])
        ≡ suc (suc (length ys))) [
          | Ordering.lt ↦ refl
          | Ordering.eq ↦ refl
          | Ordering.gt ↦ ap suc (insert_sorted-length x ys)
        ]

pub length-sorted : (s : List String) → length (sorted s) ≡ length s
unfolding sorted
length-sorted [] = refl
length-sorted (x ∷ s) = insert_sorted-length x (sorted s) ∙ ap suc (length-sorted s)
