-- ===== src/Agent/Semantic/Tests.antt =====
-- The texts of the prompt of the semantic check on a schema of two tables.
use nl2sql_agent.Common.Sets.{sorted}
use nl2sql_agent.Common.Strings.{mem_text, lower, is_space, strip}
use nl2sql_agent.Common.{◌≡◌, refl, [], ◌∷◌, str}
use nl2sql_agent.Common.Regex.{ascii_only, is_word, find_all, size}
use nl2sql_agent.Agent.Semantic.Prompt.{
  extract_sql_tables, filter_schema_text, truncate_at_ddl_boundary, half,
}
use nl2sql_agent.Agent.Semantic.Cut.{IsCut, truncate-IsCut}

two_tables :
    extract_sql_tables ascii_only "SELECT * FROM Orders o JOIN items ON 1=1"
    ≡ "orders" ∷ "items" ∷ []
unfolding extract_sql_tables is_word find_all mem_text lower is_space
two_tables = refl

items_shown :
    filter_schema_text ascii_only "CREATE TABLE orders (id INT);\nCREATE TABLE items (id INT);"
      ("items" ∷ [])
      100
    ≡ "CREATE TABLE items (id INT);\n\n-- Note: 1 other table(s) in schema but not referenced by this SQL: orders"
unfolding filter_schema_text lower is_space is_word mem_text str sorted strip
items_shown = refl

cut_short :
    truncate_at_ddl_boundary ascii_only "CREATE TABLE a (id INT);\nCREATE TABLE b (id INT);" 30
    ≡ "CREATE TABLE a (id INT);\n\n-- NOTE: Schema truncated at 30 chars. 1 table(s) omitted. Only the tables referenced by the SQL and shown above are relevant."
unfolding truncate_at_ddl_boundary find_all str size half is_space
cut_short = refl

truncate-IsCut_example :
    IsCut ascii_only 30 "CREATE TABLE a (id INT);\nCREATE TABLE b (id INT);"
      (truncate_at_ddl_boundary ascii_only "CREATE TABLE a (id INT);\nCREATE TABLE b (id INT);" 30)
truncate-IsCut_example =
    truncate-IsCut ascii_only 30 "CREATE TABLE a (id INT);\nCREATE TABLE b (id INT);"
