-- ===== src/Retrieval/ColumnPrune/Kept.antt =====
-- What the pruning keeps of a table: its keys, and the columns of the best scores.
use nl2sql_agent.Common.{
  ℕ, zero, suc, ◌-◌, ◌≤◌, min, ◌≡◌, refl, ap, ◌∙◌, String, false, some, List, [], ◌∷◌, ◌++◌, arith,
  All, length, length-take, take, leb, if_cases,
}
use mathlib.Core.List.{Perm}
use mathlib.Core.List.Perm
use nl2sql_agent.Common.Strings.{lower}
use nl2sql_agent.Common.Sets.{sorted}
use nl2sql_agent.Retrieval.Schema.{TableInfo}
use nl2sql_agent.Retrieval.ColumnPrune.{
  Scored, names_of, insert_scored, sort_scored, scored_columns, mandatory, top_columns, find_table,
  prune_table,
}

-- `x` scores at least as much as each of a list.
abbrev pub IsAbove : List Scored → Scored → Type 0
IsAbove ys x = All (λ (y : Scored). y.score ≤ x.score) ys

-- From the highest score down.
abbrev pub IsDescending : List Scored → Type 0
IsDescending [] = Unit
IsDescending (x ∷ xs) = IsAbove xs x × IsDescending xs

IsAbove-le : (xs : List Scored) (x y : Scored) → y.score ≤ x.score → IsAbove xs y → IsAbove xs x
IsAbove-le [] x y h a = tt
IsAbove-le (z ∷ xs) x y h a = (omega arith, IsAbove-le xs x y h a.1)

insert-IsAbove :
    (x y : Scored) (xs : List Scored)
    → x.score ≤ y.score
    → IsAbove xs y
    → IsAbove (insert_scored x xs) y
unfolding insert_scored
insert-IsAbove x y [] h a = (h, tt)
insert-IsAbove x y (z ∷ xs) h a =
    if_cases (λ ys. IsAbove ys y) (leb z.score x.score) _ _ (λ _. (h, a))
      (λ _. (a.0, insert-IsAbove x y xs h a.1))

insert-IsDescending :
    (x : Scored) (xs : List Scored) → IsDescending xs → IsDescending (insert_scored x xs)
unfolding insert_scored
insert-IsDescending x [] d = (tt, tt)
insert-IsDescending x (z ∷ xs) d =
    if_cases IsDescending (leb z.score x.score) _ _
      (λ low. ((ground arith, IsAbove-le xs x z (ground arith) d.0), d))
      (λ high. (insert-IsAbove x z xs (ground arith) d.0, insert-IsDescending x xs d.1))

pub sort-IsDescending : (xs : List Scored) → IsDescending (sort_scored xs)
unfolding sort_scored
sort-IsDescending [] = tt
sort-IsDescending (x ∷ xs) = insert-IsDescending x (sort_scored xs) (sort-IsDescending xs)

insert-perm : (x : Scored) (xs : List Scored) → Perm (insert_scored x xs) (x ∷ xs)
unfolding insert_scored
insert-perm x [] = Perm.rfl
insert-perm x (z ∷ xs) =
    if_cases (λ ys. Perm ys (x ∷ z ∷ xs)) (leb z.score x.score) _ _ (λ _. Perm.rfl)
      (λ _. Perm.trans (Perm.cons z (insert-perm x xs)) (Perm.swap x z xs))

pub sort-perm : (xs : List Scored) → Perm (sort_scored xs) xs
unfolding sort_scored
sort-perm [] = Perm.rfl
sort-perm (x ∷ xs) = Perm.trans (insert-perm x (sort_scored xs)) (Perm.cons x (sort-perm xs))

insert-length : (x : Scored) (xs : List Scored) → length (insert_scored x xs) ≡ suc (length xs)
unfolding insert_scored
insert-length x [] = refl
insert-length x (z ∷ xs) = ground (arith, insert-length x xs)

sort-length : (xs : List Scored) → length (sort_scored xs) ≡ length xs
unfolding sort_scored
sort-length [] = refl
sort-length (x ∷ xs) = insert-length x (sort_scored xs) ∙ ap suc (sort-length xs)

abbrev drop : ℕ → List Scored → List Scored
drop zero xs = xs
drop (suc n) [] = []
drop (suc n) (x ∷ xs) = drop n xs

take-drop : (n : ℕ) (xs : List Scored) → take n xs ++ drop n xs ≡ xs
take-drop zero xs = refl
take-drop (suc n) [] = refl
take-drop (suc n) (x ∷ xs) = ap (λ ys. x ∷ ys) (take-drop n xs)

drop-IsAbove : (n : ℕ) (x : Scored) (xs : List Scored) → IsAbove xs x → IsAbove (drop n xs) x
drop-IsAbove zero x xs a = a
drop-IsAbove (suc n) x [] a = tt
drop-IsAbove (suc n) x (y ∷ xs) a = drop-IsAbove n x xs a.1

take-IsAbove : (n : ℕ) (xs : List Scored) → IsDescending xs → All (IsAbove (drop n xs)) (take n xs)
take-IsAbove zero xs d = tt
take-IsAbove (suc n) [] d = tt
take-IsAbove (suc n) (x ∷ xs) d = (drop-IsAbove n x xs d.0, take-IsAbove n xs d.1)

-- `kept` and `dropped` are the columns that are not keys, and none of those dropped scores more than
-- one of those kept.
abbrev pub Splits : List Scored → List Scored → List Scored → Type 0
Splits scored kept dropped = Perm (kept ++ dropped) scored × All (IsAbove dropped) kept

module _ (schema : List TableInfo) (tokens : List String) (max_cols threshold : ℕ) (t : String)
    (i : TableInfo) where
  abbrev pub candidates : List Scored
  candidates = scored_columns t tokens (mandatory i) i.columns

  -- Of a table with more columns than the threshold, the pruning keeps the keys and, of the other
  -- columns, as many as there is room for beside the keys; none that is dropped scores more than one
  -- that is kept.
  pub prune_table-top :
      find_table schema (lower t) ≡ some i
      → leb (length i.columns) threshold ≡ false
      → (kept : List Scored) × (dropped : List Scored) × (prune_table schema tokens max_cols
            threshold t
          ≡ sorted (mandatory i) ++ names_of kept)
        × Splits candidates kept dropped
        × (length kept ≡ min (max_cols - length (mandatory i)) (length candidates))
  unfolding prune_table top_columns
  prune_table-top found large =
      let room = max_cols - length (mandatory i) in
      let best = sort_scored candidates in
      let whole : Perm (take room best ++ drop room best) candidates =
        rw (take-drop room best) (sort-perm candidates) in
      (
        take room best,
        drop room best,
        rw (found, large, prune_table) refl,
        (whole, take-IsAbove room best (sort-IsDescending candidates)),
        length-take room best ∙ ap (λ n. min room n) (sort-length candidates),
      )
