-- ===== src/Retrieval/Hybrid/Sorted.antt =====
-- The sorted merge of the two searches, and the bound on what the hybrid search returns.
use mathlib.Core.Path.{ap₂}
use nl2sql_agent.Common.{
  ◌≡◌, refl, sym, ap, ◌∙◌, String, false, ◌||◌, some, List, [], ◌∷◌, ◌++◌, ◌==◌, arith, All,
  Bool-cases, inl, inr, eq_iff, if_cases,
}
use nl2sql_agent.Common.Strings.{mem_text}
use nl2sql_agent.Common.Members.{mem-cons}
use nl2sql_agent.Agent.State.{Chunk}
use nl2sql_agent.Retrieval.Hybrid.{
  Scores, Entry, chunk_key, chunk_keys, keys_of, items_of, rank_from, insert_entry, sort_entries,
  rrf_merge,
}
use nl2sql_agent.Retrieval.Hybrid.Merge.{IsUnique, first_with, Stands, rank_from-Stands}

first_with-key :
    (k : String) (cs : List Chunk) (c : Chunk) → first_with k cs ≡ some c → chunk_key c ≡ k
unfolding first_with
first_with-key k [] c h = absurd (cc)
first_with-key k (b ∷ cs) c h = elim (Bool-cases (k == chunk_key b)) [
  | inl here ↦
      let same : some b ≡ some c = rw here at h in
      let b_is : b ≡ c = cc in rw (← b_is) (sym ((eq_iff k (chunk_key b)).0 here))
  | inr other ↦ first_with-key k cs c (rw other at h)
]

module _ (numbers : Scores) where
  insert-keys :
      (k : String) (x : Entry numbers) (ys : List (Entry numbers))
      → mem_text k (keys_of numbers (insert_entry numbers x ys))
        ≡ ((k == x.key) || mem_text k (keys_of numbers ys))
  unfolding insert_entry mem_text
  insert-keys k x [] = refl
  insert-keys k x (y ∷ ys) = ground (arith, insert-keys k x ys)

  insert-IsUnique :
      (x : Entry numbers) (ys : List (Entry numbers))
      → mem_text x.key (keys_of numbers ys) ≡ false
      → IsUnique (keys_of numbers ys)
      → IsUnique (keys_of numbers (insert_entry numbers x ys))
  unfolding insert_entry
  insert-IsUnique x [] new u = (new, tt)
  insert-IsUnique x (y ∷ ys) new u =
      if_cases (λ zs. IsUnique (keys_of numbers zs)) (numbers.is_greater y.score x.score) _ _
        (λ _. (
          ground (
            arith,
            insert-keys y.key x ys,
            u.0,
            mem-cons x.key y.key (keys_of numbers ys),
            eq_iff x.key y.key,
            eq_iff y.key x.key,
          ),
          insert-IsUnique x ys (ground (arith, mem-cons x.key y.key (keys_of numbers ys), new)) u.1,
        ))
        (λ _. (new, u))

  insert-All :
      (P : Entry numbers → Type 0) (x : Entry numbers) (ys : List (Entry numbers))
      → P x
      → All P ys
      → All P (insert_entry numbers x ys)
  unfolding insert_entry
  insert-All P x [] h all = (h, tt)
  insert-All P x (y ∷ ys) h all =
      if_cases (All P) (numbers.is_greater y.score x.score) _ _
        (λ _. (all.0, insert-All P x ys h all.1)) (λ _. (h, all))

  sort-keys :
      (k : String) (xs : List (Entry numbers))
      → mem_text k (keys_of numbers (sort_entries numbers xs)) ≡ mem_text k (keys_of numbers xs)
  unfolding sort_entries
  sort-keys k [] = refl
  sort-keys k (x ∷ xs) =
      insert-keys k x (sort_entries numbers xs)
      ∙ ap (λ b. (k == x.key) || b) (sort-keys k xs)
      ∙ sym (mem-cons k x.key (keys_of numbers xs))

  sort-IsUnique :
      (xs : List (Entry numbers))
      → IsUnique (keys_of numbers xs)
      → IsUnique (keys_of numbers (sort_entries numbers xs))
  unfolding sort_entries
  sort-IsUnique [] u = tt
  sort-IsUnique (x ∷ xs) u =
      insert-IsUnique x (sort_entries numbers xs) (sort-keys x.key xs ∙ u.0) (sort-IsUnique xs u.1)

  sort-All :
      (P : Entry numbers → Type 0) (xs : List (Entry numbers))
      → All P xs
      → All P (sort_entries numbers xs)
  unfolding sort_entries
  sort-All P [] all = tt
  sort-All P (x ∷ xs) all = insert-All P x (sort_entries numbers xs) all.0 (sort-All P xs all.1)

  keys-items :
      (cs : List Chunk) (es : List (Entry numbers))
      → All (λ (e : Entry numbers). first_with e.key cs ≡ some e.item) es
      → chunk_keys (items_of numbers es) ≡ keys_of numbers es
  keys-items cs [] all = refl
  keys-items cs (e ∷ es) all =
      ap₂ (λ k ks. k ∷ ks) (first_with-key e.key cs e.item all.0) (keys-items cs es all.1)

  items-All :
      (cs : List Chunk) (es : List (Entry numbers))
      → All (λ (e : Entry numbers). first_with e.key cs ≡ some e.item) es
      → All (λ (c : Chunk). first_with (chunk_key c) cs ≡ some c) (items_of numbers es)
  items-All cs [] all = tt
  items-All cs (e ∷ es) all =
      (rw (first_with-key e.key cs e.item all.0) all.0, items-All cs es all.1)

  -- The merge of two ranked lists holds exactly the keys of the two, each once, and under each the
  -- first chunk that has it, that of the first list where both have one.
  pub rrf_merge-firsts :
      (xs ys : List Chunk)
      → let r = rrf_merge numbers xs ys in
        IsUnique (chunk_keys r)
        × ((k : String) → mem_text k (chunk_keys r) ≡ mem_text k (chunk_keys (xs ++ ys)))
        × All (λ (c : Chunk). first_with (chunk_key c) (xs ++ ys) ≡ some c) r
  unfolding rrf_merge
  rrf_merge-firsts xs ys =
      let nothing : Stands numbers [] [] = record { unique = tt; keys = λ k. refl; firsts = tt } in
      let es = rank_from numbers 0 ys (rank_from numbers 0 xs []) in
      let s =
        rank_from-Stands numbers xs 0 ys (rank_from numbers 0 xs [])
          (rank_from-Stands numbers [] 0 xs [] nothing) in
      let P = λ (e : Entry numbers). first_with e.key (xs ++ ys) ≡ some e.item in
      let sorted_firsts = sort-All P es s.firsts in
      let same = keys-items (xs ++ ys) (sort_entries numbers es) sorted_firsts in
      (
        rw same (sort-IsUnique es s.unique),
        λ k. rw same (sort-keys k es ∙ s.keys k),
        items-All (xs ++ ys) (sort_entries numbers es) sorted_firsts,
      )
