-- ===== src/Retrieval/ColumnPrune/Tests.antt =====
-- The pruning of a table of four columns to two.
use nl2sql_agent.Common.{◌≡◌, refl, String, List, [], ◌∷◌, ◌++◌, length, true, some}
use nl2sql_agent.Common.Result.{ok}
use nl2sql_agent.Common.Strings.{lower, mem_text}
use nl2sql_agent.Common.Sets.{sorted}
use nl2sql_agent.Retrieval.Schema.{TableInfo, Column}
use nl2sql_agent.Retrieval.ColumnPrune.{
  Scored, names_of, mandatory, prune_table, prune_columns, build_compact_ddl, find_table,
  score_column, scored_columns,
}
use nl2sql_agent.Retrieval.ColumnPrune.Kept.{Splits, candidates, prune_table-top}
use nl2sql_agent.Retrieval.ColumnPrune.Ddl.{build_compact_ddl-ok}

abbrev column : String → Column
column name = record { name = name; type = "TEXT"; nullable = true }

abbrev orders : TableInfo
orders = record {
  key = "orders";
  actual_name = "orders";
  columns = column "id" ∷ column "city" ∷ column "price" ∷ column "date" ∷ [];
  pk_cols = "id" ∷ [];
  fk_cols = [];
  fks = [];
}

abbrev tokens : List String
tokens = "the" ∷ "price" ∷ []

price_kept : prune_table (orders ∷ []) tokens 2 3 "orders" ≡ "id" ∷ "price" ∷ []
unfolding prune_table lower sorted mandatory mem_text score_column
price_kept = refl

orders_found : find_table (orders ∷ []) (lower "orders") ≡ some orders
unfolding find_table lower
orders_found = refl

prune_table-top_example :
    (kept : List Scored) × (dropped : List Scored) × (prune_table (orders ∷ []) tokens 2 3 "orders"
      ≡ sorted (mandatory orders) ++ names_of kept)
    × Splits (candidates (orders ∷ []) tokens 2 3 "orders" orders) kept dropped
    × (length kept ≡ 1)
unfolding mandatory mem_text scored_columns
prune_table-top_example = prune_table-top (orders ∷ []) tokens 2 3 "orders" orders orders_found refl

build_compact_ddl-ok_example :
    (ddl : String) × (build_compact_ddl
        (orders ∷ [])
        "sqlite:///shop.db"
        ("orders" ∷ [])
        (prune_columns (orders ∷ []) "the price" ("orders" ∷ []) 2 3)
      ≡ ok ddl)
unfolding mem_text mandatory scored_columns
build_compact_ddl-ok_example =
    build_compact_ddl-ok (orders ∷ []) (((refl, tt), tt), tt) "the price" ("orders" ∷ []) 2 3
      "sqlite:///shop.db"
