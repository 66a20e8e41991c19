-- ===== src/Retrieval/Tests.antt =====
-- The expansion along foreign keys on a database of two tables.
use nl2sql_agent.Common.{◌≡◌, refl, ◌||◌, List, [], ◌∷◌, any}
use nl2sql_agent.Common.Strings.{lower, mem_text}
use nl2sql_agent.Retrieval.Schema.{TableInfo}
use nl2sql_agent.Retrieval.FkExpand.{
  expand_tables, expand_from, union, references, referenced_by, targets,
}
use nl2sql_agent.Retrieval.FkExpand.Joins.{joins, expand_tables-joins}

abbrev shop : List TableInfo
shop =
    record {
      key = "orders";
      actual_name = "Orders";
      columns = [];
      pk_cols = [];
      fk_cols = "customer" ∷ [];
      fks =
          record {
            constrained_columns = "customer" ∷ [];
            referred_table = "Customers";
            referred_columns = "id" ∷ [];
          }
          ∷ [];
    }
    ∷ record {
      key = "customers";
      actual_name = "Customers";
      columns = [];
      pk_cols = [];
      fk_cols = [];
      fks = [];
    }
    ∷ []

expand_tables-joins_example : mem_text "orders" (expand_tables shop ("customers" ∷ [])) ≡ (
    mem_text "orders" ("customers" ∷ [])
    || any (λ t. joins shop (lower t) "orders") ("customers" ∷ []))
expand_tables-joins_example = expand_tables-joins shop ("customers" ∷ []) "orders"

customers_expanded : expand_tables shop ("customers" ∷ []) ≡ "customers" ∷ "orders" ∷ []
unfolding expand_tables expand_from union references referenced_by targets lower mem_text
customers_expanded = refl
