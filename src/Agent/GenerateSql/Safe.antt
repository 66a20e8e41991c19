-- ===== src/Agent/GenerateSql/Safe.antt =====
-- What a query that `generate_sql` returns has passed.
use nl2sql_agent.Common.{String, ◌≡◌, ◌⊎◌, inl, inr, refl, true, Bool-cases}
use nl2sql_agent.Common.Result.{ok, >>=-eq-ok, ok-injective}
use nl2sql_agent.Agent.State.{TokenUsage}
use nl2sql_agent.Agent.ExtractSql.{extract_sql}
use nl2sql_agent.Agent.Generator.{Prompt, Reply, answer, failure}
use nl2sql_agent.Agent.GenerateSql.{
  Request, Generated, screened, read_reply, generate_sql, request_prompt,
}
use nl2sql_agent.Guard.Sqlglot.{Sqlglot}
use nl2sql_agent.Guard.Safety.{SafetyResult, check_safety}

-- The check accepts the query in a dialect.
abbrev pub Accepts : Sqlglot → String → String → Type 0
Accepts sqlglot dialect sql =
    (s : SafetyResult) × (check_safety sqlglot sql dialect ≡ ok s) × (s.valid ≡ true)

screened-Accepts :
    (sqlglot : Sqlglot) (sql raw : String) (usage : TokenUsage) (s : SafetyResult)
    → check_safety sqlglot sql "sqlite" ≡ ok s
    → let g = screened sql raw usage s in (g.sql ≡ "") ⊎ Accepts sqlglot "sqlite" g.sql
unfolding screened
screened-Accepts sqlglot sql raw usage s h = elim (Bool-cases s.valid) [
  | inl v ↦ rw v (inr (s, h, v))
  | inr v ↦ rw v (inl refl)
]

module _ (sqlglot : Sqlglot) (sql_dialect : String) (chat : Prompt → Reply) where
  read_reply-Accepts :
      (r : Reply) (g : Generated)
      → read_reply sqlglot sql_dialect chat r ≡ ok g
      → (g.sql ≡ "") ⊎ Accepts sqlglot "sqlite" g.sql
  unfolding read_reply
  read_reply-Accepts (failure e) g h = cc
  read_reply-Accepts (answer raw usage) g h =
      let (s, checked, same) = >>=-eq-ok (check_safety sqlglot (extract_sql raw) "sqlite") _ h in
      rw (← ok-injective same) (screened-Accepts sqlglot (extract_sql raw) raw usage s checked)

  pub generate_sql-Accepts :
      (q : Request) (g : Generated)
      → generate_sql sqlglot sql_dialect chat q ≡ ok g
      → (g.sql ≡ "") ⊎ Accepts sqlglot "sqlite" g.sql
  unfolding generate_sql
  generate_sql-Accepts q g h = read_reply-Accepts (chat (request_prompt sql_dialect q)) g h
