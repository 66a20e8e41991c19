-- ===== src/Task/Worker/Job.antt =====
-- worker/main.py: the states that a job starts with, the progress of a node, its summary, and what
-- becomes of a result. Stored values are read with the defaults that the nodes give absent ones.
use nl2sql_agent.Common.{
  ℕ, String, true, false, Option, none, some, List, [], ◌∷◌, ◌==◌, if◌then◌else◌, prefix, length,
  truthy, map, codes, not, is_some,
}
use nl2sql_agent.Agent.State.{AgentState, Cell, ExecResult, no_tokens, succeeded}
use nl2sql_agent.Task.State.{TaskState, Request, FeedbackRequest, Fact}

-- The dict that `run_graph` starts the full graph with; `max_retries` is not in it, so that the
-- routes take 2.
unfoldable pub initial_state : Request → AgentState
initial_state r = record {
  question = r.question;
  db_id = r.db_id;
  database_url = r.database_url;
  rag_schema = r.rag_schema;
  rag_domain = r.rag_domain;
  rag_hybrid = r.rag_hybrid;
  rag_fk_expand = r.rag_fk_expand;
  rag_column_prune = r.rag_column_prune;
  rag_k = r.rag_k;
  rag_k_expanded = none;
  rag_chunks = [];
  schema_text = "";
  notes_text = "";
  sample_rows_text = "";
  fewshot_enabled = r.fewshot_enabled;
  fewshot_text = "";
  fewshot_hits = [];
  complexity = "";
  decomposer_enabled = false;
  sub_questions = [];
  multi_candidate = r.multi_candidate;
  sql = "";
  chosen_sql = "";
  raw_response = "";
  candidate_sqls = [];
  guard_pass = false;
  guard_issues = [];
  exec_result = none;
  semantic_pass = true;
  semantic_feedback = "";
  sem_reject_count = 0;
  sem_last_rejected_sql = "";
  retry_count = 0;
  max_retries = 2;
  last_error = "";
  last_sql = none;
  null_sql = false;
  user_feedback = "";
  conversation_turns = [];
  is_feedback_round = false;
  repair_history = [];
  token_usage = no_tokens;
}

-- `payload.get("exec_result") or task_state.get("exec_result")`
abbrev pub first_result : Option ExecResult → Option ExecResult → Option ExecResult
first_result none r = r
first_result (some q) r = some q

abbrev pub sql_text : Option String → String
sql_text none = ""
sql_text (some t) = t

-- The request that a feedback round has instead of the original one: the flags of the message are
-- absent, so that they are the defaults.
abbrev pub default_request : FeedbackRequest → Request
default_request p = record {
  question = p.question;
  db_id = p.db_id;
  database_url = p.database_url;
  rag_schema = true;
  rag_domain = true;
  multi_candidate = true;
  rag_k = 8;
  rag_column_prune = false;
  rag_hybrid = true;
  rag_fk_expand = true;
  fewshot_enabled = true;
  retry_count = 0;
  last_error = "";
}

abbrev stored : (TaskState → String) → Option TaskState → String
stored field none = ""
stored field (some t) = field t

abbrev stored_result : Option TaskState → Option ExecResult
stored_result none = none
stored_result (some t) = t.exec_result

-- The dict that `run_feedback_graph` starts the feedback graph with. The endpoint's message always has
-- the key "sql", with None for a task that ended without an SQL.
unfoldable pub feedback_state : FeedbackRequest → Option TaskState → AgentState
unfolding initial_state
feedback_state p t = record (initial_state (default_request p)) {
  schema_text = stored (λ u. u.schema_text) t;
  notes_text = stored (λ u. u.notes_text) t;
  fewshot_text = stored (λ u. u.fewshot_text) t;
  sql = sql_text p.sql;
  last_sql = some (sql_text p.sql);
  null_sql = not (is_some p.sql);
  exec_result = first_result p.exec_result (stored_result t);
  user_feedback = p.feedback;
  conversation_turns = p.conversation_turns;
  retry_count = 0;
  max_retries = 2;
  is_feedback_round = true;
}

-- `_node_progress`
unfoldable pub node_progress : String → ℕ
node_progress name =
    if name == "router"
    then 5
    else if name == "schema_retriever"
    then 15
    else if name == "decomposer"
    then 25
    else if name == "fewshot_selector"
    then 35
    else if name == "generator"
    then 55
    else if name == "guard"
    then 65
    else if name == "voter"
    then 85
    else if name == "semantic_check"
    then 95
    else if name == "refiner"
    then 80
    else 50

abbrev row_count_of : Option ExecResult → ℕ
row_count_of none = 0
row_count_of (some r) = r.row_count

-- `_summarize_node`
unfoldable pub summarize_node : String → AgentState → List (String × Fact)
summarize_node name s =
    if name == "schema_retriever"
    then ("schema_len", Fact.count (length (codes s.schema_text))) ∷ []
    else if name == "router"
    then ("complexity", Fact.words (if truthy s.complexity then s.complexity else "simple")) ∷ []
    else if name == "decomposer"
    then ("sub_count", Fact.count (length s.sub_questions)) ∷ []
    else if name == "fewshot_selector"
    then ("hit_count", Fact.count (length s.fewshot_hits)) ∷ []
    else if name == "generator"
    then ("candidate_count", Fact.count (length s.candidate_sqls))
      ∷ ("sql_preview", Fact.words (prefix 200 s.sql))
      ∷ []
    else if name == "guard"
    then ("guard_pass", Fact.flag s.guard_pass) ∷ []
    else if name == "voter"
    then ("exec_success", Fact.flag (succeeded s.exec_result))
      ∷ ("row_count", Fact.count (row_count_of s.exec_result))
      ∷ []
    else if name == "semantic_check"
    then ("semantic_pass", Fact.flag s.semantic_pass) ∷ []
    else if name == "refiner"
    then ("retry_count", Fact.count s.retry_count) ∷ []
    else []

-- `_safe`: a Decimal becomes a float.
abbrev safe : Cell → Cell
safe (Cell.decimal minus n) = Cell.number minus n
safe c = c

abbrev safe_rows : List (List Cell) → List (List Cell)
safe_rows rows = map (λ row. map safe row) rows

-- `_sanitize`
unfoldable pub sanitize : Option ExecResult → Option ExecResult
sanitize none = none
sanitize (some r) = elim r.rows [
  | none ↦ some r
  | some rows ↦ some (record r { rows = some (safe_rows rows) })
]
