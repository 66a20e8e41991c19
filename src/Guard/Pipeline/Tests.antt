-- ===== src/Guard/Pipeline/Tests.antt =====
-- Concrete runs of the pipeline and of the reviewer.
use nl2sql_agent.Agent.ExtractSql.{extract_sql}
use nl2sql_agent.Guard.Errors.{classify_exec_error}
use nl2sql_agent.Guard.Safety.{
  text_issues, statement_issues, select_issues, kind_issues, check_safety, ast_parsed,
  keyword_issues, ast_check, statements, ast_statements,
}
use nl2sql_agent.Common.Strings.{contains, mem_text, split}
use nl2sql_agent.Common.{String, ◌≡◌, refl, true, false, none, some, [], ◌∷◌, length}
use nl2sql_agent.Common.Regex.{ascii_only}
use nl2sql_agent.Common.Result.{Result, ok, raised}
use nl2sql_agent.Agent.State.{no_tokens}
use nl2sql_agent.Agent.Generator.{answer}
use nl2sql_agent.Agent.GenerateSql.{generate_sql}
use nl2sql_agent.Guard.Sqlglot.{Sqlglot}
use nl2sql_agent.Guard.Executor.{failed, execute_sql}
use nl2sql_agent.Guard.Review.{Verdict}
use nl2sql_agent.Guard.Pipeline.{Options, Run, Calls, run, initial, exec_stage, review_stage}
use nl2sql_agent.Guard.Pipeline.Program.{Outside, program_calls, run-reviewer}

abbrev options : Options
options = record {
  question = "the orders";
  rag_schema = false;
  rag_domain = false;
  reviewer_on = false;
  k = 8;
  database_url = "";
  db_id = "";
}

abbrev one_select : Sqlglot
one_select = record {
  parse = λ sql dialect. ok (some "select" ∷ []);
  parse_one = λ sql dialect. raised "no tree";
}

abbrev no_verdict : Verdict
no_verdict = record { valid = true; issues = []; critical_count = 0; suggested_fix = "" }

-- A model that gives one reply, and a database that knows no column.
abbrev outside : String → Outside
outside reply = record {
  sqlglot = one_select;
  sql_dialect = "sqlite";
  chat = λ prompt. answer reply no_tokens;
  connect = λ url sql. failed "no such column: id";
  retrieve = λ question db_id k. [];
  schema_info = λ url. [];
  sample_rows = λ table. "";
  hard_check = λ sql schema. [];
  extract_json = λ reply. no_verdict;
  json = λ issues. "[]";
  ask_reviewer = λ system message. answer "{}" no_tokens;
}

abbrev value_of : Run → Result Run → Run
value_of d (ok r) = r
value_of d (raised e) = d

abbrev calls : String → Calls
calls reply = program_calls ascii_only (outside reply)

abbrev outcome : String → Options → Run
outcome reply o = value_of (initial ascii_only (calls reply) o) (run ascii_only (calls reply) o)

abbrev fenced_reply : String
fenced_reply = "```sql\nSELECT id FROM orders```"

three_attempts :
    (run ascii_only (calls fenced_reply) options ≡ ok (outcome fenced_reply options))
    × (length (outcome fenced_reply options).exec_attempts ≡ 3)
unfolding run text_issues statement_issues select_issues kind_issues classify_exec_error
    generate_sql exec_stage mem_text check_safety ast_parsed split review_stage keyword_issues
    ast_check statements extract_sql ast_statements execute_sql
three_attempts = (refl, refl)

abbrev reviewed_options : Options
reviewed_options = record options { reviewer_on = true }

no_query : run ascii_only (calls "none") reviewed_options ≡ ok (outcome "none" reviewed_options)
unfolding run text_issues extract_sql ast_statements check_safety select_issues ast_parsed contains
    generate_sql review_stage exec_stage ast_check
no_query = refl

run-reviewer_example :
    let t = outcome "none" reviewed_options in
    (t.sql ≡ "") × (t.exec_attempts ≡ []) × (t.exec_result ≡ none)
run-reviewer_example =
    run-reviewer ascii_only (outside "none") reviewed_options (outcome "none" reviewed_options) refl
      no_query
