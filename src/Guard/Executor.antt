-- ===== src/Guard/Executor.antt =====
-- tools/sql_executor.py. The connection is an argument: what `conn.execute` gives for a text on a
-- database, rows with their columns, or the text of an exception.
pub mod Sends
use nl2sql_agent.Common.{
  ℕ, ◌≡◌, String, Bool, true, false, not, ◌||◌, Option, none, some, List, [], ◌∷◌, if◌then◌else◌,
  concat, length, str,
}
use text.Mathlib.Text.{starts_with}
use nl2sql_agent.Common.Strings.{contains, lower, upper, strip, rstrip_of}
use nl2sql_agent.Common.Regex.{Unicode}
use nl2sql_agent.Common.Result.{Result, ok, raised}
use nl2sql_agent.Agent.State.{Cell, ExecResult, Issue}
use nl2sql_agent.Guard.Sqlglot.{Sqlglot}
use nl2sql_agent.Guard.Safety.{SafetyResult, check_safety}
use nl2sql_agent.Guard.Errors.{
  ErrorType, Hint, classify_exec_error, error_name, sql_validation, timeout,
}

pub data Answer : Type 0 where
  rows : List (List Cell) → List String → Answer
  failed : String → Answer

-- The dict of `execute_sql`, and its `error_type`.
pub record Execution : Type 0 where
  pub result : ExecResult
  pub error_type : Option String

abbrev failure : String → String → Execution
failure error kind = record {
  result = record {
    success = false;
    error = some error;
    rows = none;
    columns = none;
    row_count = 0;
    voted_by = none;
    sql = none;
  };
  error_type = some kind;
}

abbrev success : List (List Cell) → List String → Execution
success data_rows names = record {
  result = record {
    success = true;
    error = none;
    rows = some data_rows;
    columns = some names;
    row_count = length data_rows;
    voted_by = none;
    sql = none;
  };
  error_type = none;
}

unfoldable pub executor_dialect : String → String
executor_dialect url =
    if starts_with url "postgresql"
    then "postgres"
    else if starts_with url "mysql"
    then "mysql"
    else "sqlite"

-- The row cap, where the text does not mention LIMIT.
unfoldable pub capped : ℕ → String → String
unfolding upper contains strip rstrip_of
capped max_rows sql =
    let body = rstrip_of ";" (strip sql) in
    if contains (upper body) "LIMIT"
    then body
    else concat ("SELECT * FROM (" ∷ body ∷ ") AS _sub LIMIT " ∷ str max_rows ∷ [])

abbrev first_detail : List Issue → String
first_detail [] = "Unknown validation error"
first_detail (i ∷ is) = i.detail

abbrev classified : String → Result Hint → Result Execution
classified error (raised e) = raised e
classified error (ok h) = ok (failure error (error_name h.kind))

module _ (u : Unicode) (sqlglot : Sqlglot) (connect : String → String → Answer) where
  unfoldable pub answered : Answer → Result Execution
  answered (rows data_rows names) = ok (success data_rows names)
  answered (failed e) =
      if contains (lower e) "timeout" || contains (lower e) "timed out"
      then ok (failure e (error_name timeout))
      else classified e (classify_exec_error u e)

  unfoldable pub after_check : String → String → ℕ → Result SafetyResult → Result Execution
  unfolding answered capped
  after_check sql url max_rows (raised e) = raised e
  after_check sql url max_rows (ok s) =
      if s.valid
      then answered (connect url (capped max_rows sql))
      else ok (failure (first_detail s.issues) (error_name sql_validation))

  unfoldable pub execute_sql : String → ℕ → String → Result Execution
  unfolding after_check
  execute_sql sql max_rows url =
      after_check sql url max_rows (check_safety sqlglot sql (executor_dialect url))
