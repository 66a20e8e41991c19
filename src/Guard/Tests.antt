-- ===== src/Guard/Tests.antt =====
-- Concrete runs of the SQL checks.
use nl2sql_agent.Common.{
  String, ◌≡◌, ◌≢◌, ◌↔◌, refl, true, false, none, some, List, [], ◌∷◌, arith, inl, eq_iff,
}
use nl2sql_agent.Common.Result.{ok, raised}
use nl2sql_agent.Common.Strings.{upper, strip, contains, split, mem_text, lower}
use nl2sql_agent.Common.Sets.{sorted}
use nl2sql_agent.Guard.Sqlglot.{Sqlglot, Tree}
use nl2sql_agent.Guard.Safety.{
  SafetyResult, check_safety, ast_check, ast_parsed, ast_statements, text_issues, select_issues,
  keyword_issues, statement_issues, statements, kind_issues, table_references,
}
use nl2sql_agent.Guard.Safety.Valid.{
  IsPlainSelect, IsOneQuery, valid-IsReadOnly, IsReadOnly-valid, OnlyEmpty, raises_iff_OnlyEmpty,
}
use nl2sql_agent.Guard.Hallucinations.{check_hallucinations}
use nl2sql_agent.Guard.Hallucinations.Grounded.{IsGrounded}
use nl2sql_agent.Guard.Hallucinations.Sound.{valid_iff_IsGrounded}
use nl2sql_agent.Retrieval.Schema.{TableInfo}

abbrev orders : Tree
orders = record {
  cte_aliases = [];
  tables = record { name = "orders"; alias = "o" } ∷ [];
  columns = record { table = "o"; name = "id" } ∷ [];
  select_aliases = [];
}

-- Parsers that read one SELECT, and one empty statement.
abbrev selects : Sqlglot
selects = record {
  parse = λ sql dialect. ok (some "select" ∷ []);
  parse_one = λ sql dialect. ok orders;
}

abbrev reads_empty : Sqlglot
reads_empty = record {
  parse = λ sql dialect. ok (none ∷ []);
  parse_one = λ sql dialect. raised "no statement";
}

abbrev query : String
query = "SELECT o.id FROM orders o"

abbrev accepted : SafetyResult
accepted = record {
  valid = true;
  issues = [];
  statement_type = "SELECT";
  table_references = "orders" ∷ [];
}

query-safe : check_safety selects query "" ≡ ok accepted
unfolding check_safety ast_check ast_parsed ast_statements text_issues select_issues keyword_issues
    statement_issues statements kind_issues table_references strip split contains upper sorted
    mem_text lower
query-safe = refl

valid-IsReadOnly_example : (strip query ≢ "") × IsPlainSelect query × IsOneQuery selects query ""
valid-IsReadOnly_example = valid-IsReadOnly selects query "" accepted query-safe refl

query_filled : strip query ≢ ""
unfolding strip
query_filled h = ground (arith, eq_iff "SELECT o.id FROM orders o" "", h)

plain_query : IsPlainSelect query
unfolding upper contains statements split strip
plain_query = record { reads = inl refl; no_keyword = ground arith; one_piece = omega arith }

one_select : IsOneQuery selects query ""
unfolding mem_text lower upper
one_select = record {
  parsed = some "select" ∷ [];
  kind = "select";
  parses = refl;
  single = refl;
  allowed = refl;
}

IsReadOnly-valid_example :
    (s : SafetyResult) × (check_safety selects query "" ≡ ok s)
    × (s.valid ≡ true)
    × (s.issues ≡ [])
    × (s.statement_type ≡ upper one_select.kind)
IsReadOnly-valid_example = IsReadOnly-valid selects query "" query_filled plain_query one_select

comment_filled : strip "-- SELECT" ≢ ""
unfolding strip
comment_filled h = ground (arith, eq_iff "-- SELECT" "", h)

only_empty : OnlyEmpty reads_empty "-- SELECT" ""
only_empty = (none ∷ [], refl, λ h. cc, refl)

comment-raises :
    check_safety reads_empty "-- SELECT" "" ≡ raised "IndexError: list index out of range"
unfolding check_safety ast_check ast_parsed ast_statements strip
comment-raises = refl

raises_iff_OnlyEmpty_example :
    ((e : String) × (check_safety reads_empty "-- SELECT" "" ≡ raised e))
    ↔ OnlyEmpty reads_empty "-- SELECT" ""
raises_iff_OnlyEmpty_example = raises_iff_OnlyEmpty reads_empty "-- SELECT" "" comment_filled

abbrev schema : List TableInfo
schema =
    record {
      key = "orders";
      actual_name = "orders";
      columns = record { name = "id"; type = "INTEGER"; nullable = false } ∷ [];
      pk_cols = "id" ∷ [];
      fk_cols = [];
      fks = [];
    }
    ∷ []

valid_iff_IsGrounded_example :
    ((check_hallucinations selects query schema).valid ≡ true)
    ↔ ((tree : Tree) × (selects.parse_one query "" ≡ ok tree) × IsGrounded schema tree)
valid_iff_IsGrounded_example = valid_iff_IsGrounded selects query schema
