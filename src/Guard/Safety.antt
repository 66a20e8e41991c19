-- ===== src/Guard/Safety.antt =====
-- `check_safety` of guard/safety_rules.py: the tests on the text, then those on the parsed
-- statements. The code of an uncaught exception is kept: the result is `raised` then.
pub mod Valid
use nl2sql_agent.Common.{
  ℕ, String, Bool, not, ◌&&◌, ◌||◌, Option, none, some, List, [], ◌∷◌, ◌++◌, ◌==◌, if◌then◌else◌,
  leb, length, is_nil, truthy, concat, prefix, str,
}
use text.Mathlib.Text.{starts_with}
use nl2sql_agent.Common.Strings.{upper, lower, contains, strip, split, mem_text}
use nl2sql_agent.Common.Sets.{add, sorted}
use nl2sql_agent.Common.Result.{Result, ok, raised}
use nl2sql_agent.Agent.State.{Issue}
use nl2sql_agent.Guard.Sqlglot.{Sqlglot, Tree, TableRef}

pub record SafetyResult : Type 0 where
  pub valid : Bool
  pub issues : List Issue
  pub statement_type : String
  pub table_references : List String

abbrev pub issue : String → List String → Issue
issue kind pieces = record { kind = kind; detail = concat pieces }

-- `sorted(_FORBIDDEN_KEYWORDS)`
abbrev pub forbidden_keywords : List String
forbidden_keywords =
    "ALTER" ∷ "CREATE" ∷ "DELETE" ∷ "DROP" ∷ "INSERT" ∷ "PRAGMA" ∷ "TRUNCATE" ∷ "UPDATE" ∷ []

-- `_AST_FORBIDDEN`
abbrev pub ast_forbidden : List String
ast_forbidden =
    "insert" ∷ "delete" ∷ "drop" ∷ "alter" ∷ "create" ∷ "truncate" ∷ "update" ∷ "pragma" ∷ []

-- "L1: require SELECT or WITH"
unfoldable pub select_issues : String → List Issue
select_issues sql_upper =
    if not (contains sql_upper "SELECT") && not (starts_with sql_upper "WITH")
    then issue "missing_select" ("SQL does not contain SELECT or WITH." ∷ []) ∷ []
    else []

-- "L1: forbidden keywords"
unfoldable pub keyword_issues : String → List String → List Issue
keyword_issues sql_upper [] = []
keyword_issues sql_upper (kw ∷ kws) =
    let rest = keyword_issues sql_upper kws in
    if contains sql_upper kw
    then issue "forbidden_keyword" ("Forbidden keyword: " ∷ kw ∷ ". Only SELECT/WITH allowed." ∷ [])
      ∷ rest
    else rest

-- `[s.strip() for s in sql.split(";") if s.strip()]`
abbrev nonblank : List String → List String
nonblank [] = []
nonblank (p ∷ ps) = if truthy (strip p) then strip p ∷ nonblank ps else nonblank ps

unfoldable pub statements : String → List String
statements sql = nonblank (split b';' sql)

abbrev pub too_many : String → ℕ → Issue
too_many kind n =
    issue kind
      ("Multiple statements detected (" ∷ str n ∷ "). Only single SELECT/WITH allowed." ∷ [])

-- "L1: multi-statement via semicolons"
unfoldable pub statement_issues : String → List Issue
statement_issues sql =
    let n = length (statements sql) in if leb n 1 then [] else too_many "multi_statement" n ∷ []

-- What `_ast_check` returns.
pub record AstResult : Type 0 where
  pub issues : List Issue
  pub statement_type : String
  pub table_references : List String

-- `[p for p in parsed if p is not None]`
abbrev pub present : List (Option String) → List String
present [] = []
present (none ∷ ps) = present ps
present (some kind ∷ ps) = kind ∷ present ps

abbrev lowered : List String → List String
lowered [] = []
lowered (a ∷ as_) = if truthy a then lower a ∷ lowered as_ else lowered as_

-- The names of `tables`, lower case, that are no CTE aliases.
abbrev real_tables : List String → List TableRef → List String → List String
real_tables ctes [] found = found
real_tables ctes (t ∷ ts) found = real_tables ctes ts (
    if truthy (lower t.name) && not (mem_text (lower t.name) ctes)
    then add (lower t.name) found
    else found)

-- "Extract table references (filter CTE aliases)", none if the parser raises.
unfoldable pub table_references : Result Tree → List String
table_references (raised e) = []
table_references (ok tree) = sorted (real_tables (lowered tree.cte_aliases) tree.tables [])

-- The kind of the one statement that there should be.
unfoldable pub kind_issues : String → List Issue
kind_issues statement_type =
    if mem_text (lower statement_type) ast_forbidden
    then issue "ast_forbidden"
        ("Forbidden statement type: " ∷ statement_type ∷ ". Only SELECT/WITH allowed." ∷ [])
      ∷ []
    else []

-- `stmts[0]` raises on an empty list.
unfoldable pub ast_statements : List String → Result Tree → Result AstResult
ast_statements [] tree = raised "IndexError: list index out of range"
ast_statements (kind ∷ []) tree = ok (record {
  issues = kind_issues (upper kind);
  statement_type = upper kind;
  table_references = table_references tree;
})
ast_statements (kind ∷ kind' ∷ kinds) tree = ok (record {
  issues = too_many "ast_structure" (length (kind ∷ kind' ∷ kinds)) ∷ [];
  statement_type = "";
  table_references = [];
})

unfoldable pub ast_parsed : Result (List (Option String)) → Result Tree → Result AstResult
ast_parsed (raised e) tree = ok (record {
  issues = issue "ast_syntax" ("SQL parse error: " ∷ prefix 200 e ∷ []) ∷ [];
  statement_type = "";
  table_references = [];
})
ast_parsed (ok []) tree = ok (record {
  issues = issue "ast_syntax" ("SQL parsed to empty AST." ∷ []) ∷ [];
  statement_type = "";
  table_references = [];
})
ast_parsed (ok (p ∷ ps)) tree = ast_statements (present (p ∷ ps)) tree

abbrev with_text_issues : List Issue → Result AstResult → Result SafetyResult
with_text_issues issues (raised e) = raised e
with_text_issues issues (ok a) = ok (record {
  valid = is_nil (issues ++ a.issues);
  issues = issues ++ a.issues;
  statement_type = a.statement_type;
  table_references = a.table_references;
})

-- The issues of the tests on the text.
unfoldable pub text_issues : String → List Issue
text_issues sql =
    select_issues (upper sql)
    ++ (keyword_issues (upper sql) forbidden_keywords ++ statement_issues sql)

module _ (sqlglot : Sqlglot) where
  -- `_ast_check`
  unfoldable pub ast_check : String → String → Result AstResult
  ast_check sql dialect = ast_parsed (sqlglot.parse sql dialect) (sqlglot.parse_one sql dialect)

  unfoldable pub check_safety : String → String → Result SafetyResult
  check_safety sql dialect =
      if strip sql == ""
      then ok (record {
        valid = Bool.false;
        issues = issue "empty_sql" ("SQL is empty or whitespace only." ∷ []) ∷ [];
        statement_type = "";
        table_references = [];
      })
      else with_text_issues (text_issues sql) (ast_check sql dialect)
