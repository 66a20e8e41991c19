-- ===== src/Retrieval/Hybrid.antt =====
-- retrieval/hybrid_search.py: the merge of two ranked lists of chunks. Arguments are the floating
-- point numbers in which the ranks are scored (`reciprocal n` is 1.0 / n), the scores of BM25, and
-- the semantic search.
pub mod Merge
pub mod Sorted
mod Tests
use Prim.Native.Char.{Char, code}
use nl2sql_agent.Common.{
  ℕ, zero, suc, ◌+◌, ◌*◌, String, Bool, true, false, not, ◌&&◌, ◌||◌, List, [], ◌∷◌, ◌++◌, ◌==◌,
  if◌then◌else◌, leb, length, take, is_nil, any, concat,
}
use nl2sql_agent.Common.Strings.{lower}
use nl2sql_agent.Agent.State.{Chunk}

-- The numbers of the scores.
pub record Scores : Type 1 where
  pub Number : Type 0
  pub reciprocal : ℕ → Number
  pub plus : Number → Number → Number
  pub is_greater : Number → Number → Bool

-- `_key`
abbrev pub chunk_key : Chunk → String
chunk_key c = concat (c.db_id ∷ "::" ∷ c.table_name ∷ "::" ∷ c.chunk_type ∷ [])

abbrev pub chunk_keys : List Chunk → List String
chunk_keys [] = []
chunk_keys (c ∷ cs) = chunk_key c ∷ chunk_keys cs

-- Whether the tuples of database, table and type are equal.
abbrev pub same_key : Chunk → Chunk → Bool
same_key c d = c.db_id == d.db_id && c.table_name == d.table_name && c.chunk_type == d.chunk_type

-- `_RRF_K`
abbrev pub rrf_k : ℕ
rrf_k = 60

module _ (numbers : Scores) where
  -- An entry of the two dicts: the score under a key, and the first item with it.
  pub record Entry : Type 0 where
    pub key : String
    pub score : numbers.Number
    pub item : Chunk

  abbrev pub keys_of : List Entry → List String
  keys_of [] = []
  keys_of (e ∷ es) = e.key ∷ keys_of es

  -- One item at its rank; a first score is added to 0.
  unfoldable pub upsert : Chunk → ℕ → List Entry → List Entry
  upsert c rank [] =
      record { key = chunk_key c; score = numbers.reciprocal (rrf_k + rank + 1); item = c } ∷ []
  upsert c rank (e ∷ es) =
      let rest = upsert c rank es in
      if chunk_key c == e.key
      then record e { score = numbers.plus e.score (numbers.reciprocal (rrf_k + rank + 1)) } ∷ es
      else e ∷ rest

  unfoldable pub rank_from : ℕ → List Chunk → List Entry → List Entry
  rank_from rank [] es = es
  rank_from rank (c ∷ cs) es = rank_from (suc rank) cs (upsert c rank es)

  -- `sorted(…, reverse=True)`: equal scores keep their order.
  unfoldable pub insert_entry : Entry → List Entry → List Entry
  insert_entry x [] = x ∷ []
  insert_entry x (y ∷ ys) =
      let later = insert_entry x ys in
      if numbers.is_greater y.score x.score then y ∷ later else x ∷ y ∷ ys

  unfoldable pub sort_entries : List Entry → List Entry
  unfolding insert_entry
  sort_entries [] = []
  sort_entries (x ∷ xs) = insert_entry x (sort_entries xs)

  abbrev pub items_of : List Entry → List Chunk
  items_of [] = []
  items_of (e ∷ es) = e.item ∷ items_of es

  -- `_rrf_merge` of two lists
  unfoldable pub rrf_merge : List Chunk → List Chunk → List Chunk
  unfolding rank_from sort_entries
  rrf_merge xs ys = items_of (sort_entries (rank_from 0 ys (rank_from 0 xs [])))

  -- A chunk of the corpus with its BM25 score.
  pub record Hit : Type 0 where
    pub score : numbers.Number
    pub chunk : Chunk

  unfoldable pub insert_hit : Hit → List Hit → List Hit
  insert_hit x [] = x ∷ []
  insert_hit x (y ∷ ys) =
      let later = insert_hit x ys in
      if numbers.is_greater y.score x.score then y ∷ later else x ∷ y ∷ ys

  unfoldable pub sort_hits : List Hit → List Hit
  unfolding insert_hit
  sort_hits [] = []
  sort_hits (x ∷ xs) = insert_hit x (sort_hits xs)

  abbrev of_database : String → List Hit → List Hit
  of_database db [] = []
  of_database db (h ∷ hs) = if h.chunk.db_id == db then h ∷ of_database db hs else of_database db hs

  -- The first hit of each key, at most `k`, and one at least if there is any: the count is compared
  -- after an append. `found` are the chunks picked before.
  unfoldable pub pick : ℕ → List Chunk → List Hit → List Chunk
  pick k found [] = []
  pick k found (h ∷ hs) =
      let skipped = pick k found hs in
      let picked = h.chunk ∷ pick k (h.chunk ∷ found) hs in
      if any (same_key h.chunk) found
      then skipped
      else if leb k (suc (length found))
      then h.chunk ∷ []
      else picked

  -- `_bm25_search`, of the scored corpus; a question without words finds nothing.
  unfoldable pub bm25_search : Bool → List Hit → String → ℕ → List Chunk
  unfolding sort_hits pick
  bm25_search has_words corpus db_id k =
      if not has_words || is_nil corpus
      then []
      else pick k [] (sort_hits (of_database db_id corpus))

  -- `hybrid_retrieve`, from what the two searches find for twice as many.
  unfoldable pub hybrid_retrieve : (ℕ → List Chunk) → (ℕ → List Chunk) → ℕ → List Chunk
  unfolding rrf_merge
  hybrid_retrieve semantic keyword k =
      if is_nil (keyword (k * 2))
      then take k (semantic (k * 2))
      else if is_nil (semantic (k * 2))
      then take k (keyword (k * 2))
      else take k (rrf_merge (semantic (k * 2)) (keyword (k * 2)))
