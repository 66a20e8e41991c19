-- ===== src/Guard/Executor/Sends.antt =====
-- What `execute_sql` asks a database.
use nl2sql_agent.Common.{ℕ, String, ◌≡◌, refl, ap, Bool-cases, inl, inr}
use nl2sql_agent.Common.Regex.{Unicode}
use nl2sql_agent.Common.Result.{Result, ok, raised}
use nl2sql_agent.Agent.GenerateSql.Safe.{Accepts}
use nl2sql_agent.Guard.Sqlglot.{Sqlglot}
use nl2sql_agent.Guard.Safety.{SafetyResult, check_safety}
use nl2sql_agent.Guard.Executor.{
  Answer, executor_dialect, capped, answered, after_check, execute_sql,
}

-- Two connections that give the same answers to the queries that the check accepts in the dialect of
-- their database, with the row cap; they may differ on every other text.
abbrev pub AgreeOnAccepted :
    Sqlglot → ℕ → (String → String → Answer) → (String → String → Answer) → Type 0
AgreeOnAccepted sqlglot n connect connect' =
    (url sql : String)
    → Accepts sqlglot (executor_dialect url) sql
    → connect url (capped n sql) ≡ connect' url (capped n sql)

module _ (u : Unicode) (sqlglot : Sqlglot) (n : ℕ) (connect connect' : String → String → Answer)
    (agree : AgreeOnAccepted sqlglot n connect connect') where
  after_check-same :
      (sql url : String) (c : Result SafetyResult)
      → check_safety sqlglot sql (executor_dialect url) ≡ c
      → after_check u sqlglot connect sql url n c ≡ after_check u sqlglot connect' sql url n c
  unfolding after_check
  after_check-same sql url (raised e) checked = refl
  after_check-same sql url (ok s) checked = elim (Bool-cases s.valid) [
    | inl valid ↦ rw valid (ap (answered u sqlglot connect) (agree url sql (s, checked, valid)))
    | inr bad ↦ rw bad refl
  ]

  pub execute_sql-same :
      (sql url : String)
      → execute_sql u sqlglot connect sql n url ≡ execute_sql u sqlglot connect' sql n url
  unfolding execute_sql
  execute_sql-same sql url =
      after_check-same sql url (check_safety sqlglot sql (executor_dialect url)) refl
