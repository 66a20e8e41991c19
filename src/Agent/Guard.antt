-- ===== src/Agent/Guard.antt =====
-- agent/nodes/guard.py. The schema information of a database is an argument; it is empty where the
-- lookup raises, and is not asked for without a database.
use text.Mathlib.Text.{starts_with}
use nl2sql_agent.Common.{String, Bool, List, [], ◌++◌, ◌==◌, if◌then◌else◌, is_nil, all, truthy}
use nl2sql_agent.Common.Result.{Result, ok, raised}
use nl2sql_agent.Agent.State.{AgentState, Issue}
use nl2sql_agent.Agent.Dialect.{get_dialect_from_url}
use nl2sql_agent.Guard.Sqlglot.{Sqlglot}
use nl2sql_agent.Guard.Safety.{SafetyResult, check_safety}
use nl2sql_agent.Guard.Hallucinations.{check_hallucinations}
use nl2sql_agent.Retrieval.Schema.{TableInfo}

-- `_get_sqlglot_dialect`
unfoldable pub sqlglot_dialect : String → String
unfolding get_dialect_from_url
sqlglot_dialect url =
    if truthy url
    then (if get_dialect_from_url url == "postgresql" then "postgres" else get_dialect_from_url url)
    else "sqlite"

-- `all(i["type"].startswith("ast_") for i in issues) if issues else True`
unfoldable pub ast_pass : List Issue → Bool
ast_pass issues = all (λ (i : Issue). starts_with i.kind "ast_") issues

module _ (sqlglot : Sqlglot) (schema_info : String → List TableInfo) where
  -- `_get_cached_schema_for_check`
  unfoldable pub schema_for_check : String → List TableInfo
  schema_for_check url = if truthy url then schema_info url else []

  unfoldable pub hallucination_issues : AgentState → List Issue
  unfolding schema_for_check
  hallucination_issues s =
      if is_nil (schema_for_check s.database_url)
      then []
      else (check_hallucinations sqlglot s.sql (schema_for_check s.database_url)).issues

  abbrev guarded : AgentState → List Issue → AgentState
  guarded s issues = record s { guard_pass = is_nil issues; guard_issues = issues }

  abbrev after_safety : AgentState → Result SafetyResult → Result AgentState
  after_safety s (raised e) = raised e
  after_safety s (ok r) = ok (guarded s (r.issues ++ hallucination_issues s))

  unfoldable pub guard_node : AgentState → Result AgentState
  guard_node s = after_safety s (check_safety sqlglot s.sql (sqlglot_dialect s.database_url))
