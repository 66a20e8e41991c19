-- ===== src/Retrieval/Hybrid/Tests.antt =====
-- The merge of two concrete lists, scored in whole numbers.
use nl2sql_agent.Common.{◌+◌, ◌-◌, ◌≡◌, refl, String, List, [], ◌∷◌, ◌++◌, All, some, ltb}
use nl2sql_agent.Common.Strings.{mem_text}
use nl2sql_agent.Agent.State.{Chunk}
use nl2sql_agent.Retrieval.Hybrid.{Scores, chunk_key, chunk_keys, rrf_merge, upsert}
use nl2sql_agent.Retrieval.Hybrid.Merge.{IsUnique, first_with}
use nl2sql_agent.Retrieval.Hybrid.Sorted.{rrf_merge-firsts}

-- A score that falls with the rank.
abbrev whole_numbers : Scores
whole_numbers = record {
  Number = Prim.Native.Nat.ℕ;
  reciprocal = λ n. 1000 - n;
  plus = λ m n. m + n;
  is_greater = λ m n. ltb n m;
}

abbrev chunk : String → String → Chunk
chunk table text = record {
  db_id = "shop";
  table_name = table;
  chunk_type = "schema";
  content = text;
  source = "";
  heading = "";
}

abbrev semantic : List Chunk
semantic = chunk "orders" "a" ∷ chunk "items" "b" ∷ []

abbrev keyword : List Chunk
keyword = chunk "items" "c" ∷ chunk "customers" "d" ∷ []

merged :
    rrf_merge whole_numbers semantic keyword
    ≡ chunk "items" "b" ∷ chunk "orders" "a" ∷ chunk "customers" "d" ∷ []
unfolding rrf_merge upsert
merged = refl

rrf_merge-firsts_example :
    let r = rrf_merge whole_numbers semantic keyword in
    IsUnique (chunk_keys r)
    × ((k : String) → mem_text k (chunk_keys r) ≡ mem_text k (chunk_keys (semantic ++ keyword)))
    × All (λ (c : Chunk). first_with (chunk_key c) (semantic ++ keyword) ≡ some c) r
rrf_merge-firsts_example = rrf_merge-firsts whole_numbers semantic keyword
