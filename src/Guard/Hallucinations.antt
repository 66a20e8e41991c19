-- ===== src/Guard/Hallucinations.antt =====
-- `check_hallucinations` of guard/safety_rules.py: the names in a query against the schema.
pub mod Grounded
pub mod Sound
use nl2sql_agent.Common.{
  String, Bool, false, not, ◌&&◌, ◌||◌, List, [], ◌∷◌, ◌++◌, ◌==◌, if◌then◌else◌, leb, is_nil,
  truthy, concat, codes, length, all, map,
}
use nl2sql_agent.Common.Strings.{lower, mem_text}
use nl2sql_agent.Common.Sets.{add}
use nl2sql_agent.Common.Result.{Result, ok, raised}
use nl2sql_agent.Agent.State.{Issue}
use nl2sql_agent.Retrieval.Schema.{TableInfo, column_names}
use nl2sql_agent.Guard.Sqlglot.{Sqlglot, Tree, TableRef, ColumnRef}

pub record HallucinationResult : Type 0 where
  pub valid : Bool
  pub issues : List Issue

abbrev pub hallucination : List String → Issue
hallucination pieces = record { kind = "hallucination"; detail = concat pieces }

-- `_SQL_KW`
abbrev pub sql_keywords : List String
sql_keywords =
    "select" ∷ "from" ∷ "where" ∷ "and" ∷ "or" ∷ "not" ∷ "in" ∷ "on" ∷ "as" ∷ "by" ∷ "group"
    ∷ "order" ∷ "having" ∷ "limit" ∷ "join" ∷ "left" ∷ "right" ∷ "inner" ∷ "outer" ∷ "cross"
    ∷ "full" ∷ "union" ∷ "all" ∷ "distinct" ∷ "case" ∷ "when" ∷ "then" ∷ "else" ∷ "end" ∷ "between"
    ∷ "like" ∷ "is" ∷ "null" ∷ "true" ∷ "false" ∷ "count" ∷ "sum" ∷ "avg" ∷ "min" ∷ "max" ∷ "date"
    ∷ "strftime" ∷ "cast" ∷ "coalesce" ∷ "exists" ∷ "asc" ∷ "desc" ∷ "set" ∷ "into" ∷ "values"
    ∷ "create" ∷ "drop" ∷ "alter" ∷ "table" ∷ "index" ∷ "view" ∷ "database" ∷ "with" ∷ "over"
    ∷ "partition" ∷ "window" ∷ "row" ∷ "number" ∷ "rank" ∷ "dense" ∷ "first" ∷ "last" ∷ "round"
    ∷ "abs" ∷ "random" ∷ "length" ∷ "substr" ∷ "substring" ∷ "replace" ∷ "trim" ∷ "ltrim" ∷ "rtrim"
    ∷ "upper" ∷ "lower" ∷ "typeof" ∷ "ifnull" ∷ "printf" ∷ "hex" ∷ "unicode" ∷ "char" ∷ "instr"
    ∷ "total" ∷ "group_concat" ∷ "zeroblob" ∷ "changes" ∷ "last_insert_rowid" ∷ "sqlite_version"
    ∷ "primary" ∷ "key" ∷ "foreign" ∷ "references" ∷ "default" ∷ "check" ∷ "unique" ∷ "constraint"
    ∷ "cascade" ∷ "integer" ∷ "text" ∷ "real" ∷ "blob" ∷ "numeric" ∷ "varchar" ∷ "datetime"
    ∷ "timestamp" ∷ []

-- The three sets that are built from `schema_info`.
unfoldable pub schema_tables : List TableInfo → List String
schema_tables [] = []
schema_tables (t ∷ ts) = lower t.key ∷ schema_tables ts

unfoldable pub schema_cols : List TableInfo → List String
schema_cols [] = []
schema_cols (t ∷ ts) = map lower (column_names t.columns) ++ schema_cols ts

abbrev pub qualified : String → String → String
qualified table col = concat (lower table ∷ "." ∷ lower col ∷ [])

unfoldable pub qualified_cols : List TableInfo → List String
qualified_cols [] = []
qualified_cols (t ∷ ts) = map (qualified t.key) (column_names t.columns) ++ qualified_cols ts

-- `{node.alias.lower() for node in … if node.alias}`
unfoldable pub lowered : List String → List String
lowered [] = []
lowered (a ∷ rest) = if truthy a then lower a ∷ lowered rest else lowered rest

unfoldable pub table_aliases : List TableRef → List String
table_aliases [] = []
table_aliases (t ∷ ts) =
    if truthy t.alias then lower t.alias ∷ table_aliases ts else table_aliases ts

unfoldable pub table_refs : List String → List TableRef → List String
table_refs ctes [] = []
table_refs ctes (t ∷ ts) =
    if truthy (lower t.name) && not (mem_text (lower t.name) ctes)
    then lower t.name ∷ table_refs ctes ts
    else table_refs ctes ts

-- `set(…)`: each element once.
unfoldable pub distinct : List String → List String → List String
distinct seen [] = seen
distinct seen (x ∷ xs) = distinct (add x seen) xs

-- "Check table references exist in schema"
unfoldable pub table_issues : List String → List String → List Issue
table_issues known [] = []
table_issues known (t ∷ ts) =
    if mem_text t known
    then table_issues known ts
    else hallucination ("Table '" ∷ t ∷ "' not found in schema." ∷ []) ∷ table_issues known ts

-- `c in "0123456789"` for every character: `isdigit` on the digits of ASCII.
abbrev is_digit : String → Bool
is_digit s = truthy s && all (λ c. leb 48 c && leb c 57) (codes s)

-- The names that a check of one query compares with.
pub record Names : Type 0 where
  pub tables : List String
  pub cols : List String
  pub qualified : List String
  pub ctes : List String
  pub aliases : List String
  pub selected : List String

-- A qualified reference passes through a CTE, an alias or a column of the schema.
unfoldable pub qualified_known : Names → ColumnRef → Bool
qualified_known n c =
    mem_text (lower c.table) n.ctes
    || mem_text (lower c.table) n.aliases
    || mem_text (qualified c.table c.name) n.qualified

-- "Check qualified column references (table.col)"
unfoldable pub qualified_issues : Names → List ColumnRef → List Issue
unfolding qualified_known
qualified_issues n [] = []
qualified_issues n (c ∷ cs) =
    if truthy c.table && not (qualified_known n c)
    then hallucination ("Column '" ∷ qualified c.table c.name ∷ "' not found in schema." ∷ [])
      ∷ qualified_issues n cs
    else qualified_issues n cs

-- The tests that let a bare column pass, in the order of the loop.
unfoldable pub bare_known : Names → String → Bool
bare_known n name =
    (mem_text name sql_keywords || is_digit name || leb (length (codes name)) 1)
    || (mem_text name n.cols || mem_text name n.ctes || mem_text name n.aliases)
    || name == "*"
    || mem_text name n.selected

-- "Check bare column references (no table prefix)": it stops at the first issue.
unfoldable pub bare_issues : Names → List ColumnRef → List Issue
unfolding bare_known
bare_issues n [] = []
bare_issues n (c ∷ cs) =
    let rest = bare_issues n cs in
    if truthy c.table || bare_known n (lower c.name)
    then rest
    else hallucination ("Identifier '" ∷ lower c.name ∷ "' not in schema." ∷ []) ∷ []

unfoldable pub names_of : List TableInfo → Tree → Names
names_of schema tree = record {
  tables = schema_tables schema;
  cols = schema_cols schema;
  qualified = qualified_cols schema;
  ctes = lowered tree.cte_aliases;
  aliases = table_aliases tree.tables;
  selected = lowered tree.select_aliases;
}

unfoldable pub tree_issues : Names → Tree → List Issue
tree_issues n tree =
    table_issues n.tables (distinct [] (table_refs n.ctes tree.tables))
    ++ (qualified_issues n tree.columns ++ bare_issues n tree.columns)

unfoldable pub parsed_result : List TableInfo → Result Tree → HallucinationResult
parsed_result schema (raised e) = record {
  valid = false;
  issues = hallucination ("SQL parse error, cannot check schema references." ∷ []) ∷ [];
}
parsed_result schema (ok tree) =
    let issues = tree_issues (names_of schema tree) tree in
    record { valid = is_nil issues; issues = issues }

unfoldable pub check_hallucinations : Sqlglot → String → List TableInfo → HallucinationResult
check_hallucinations sqlglot sql schema = parsed_result schema (sqlglot.parse_one sql "")
