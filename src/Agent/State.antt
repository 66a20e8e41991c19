-- ===== src/Agent/State.antt =====
-- agent/state.py: the state that the nodes share, and the dicts that it holds.
-- Left out are the fields that serve tracing alone (tlog, trace_id, node_latency, router_*) and
-- those of evaluation runs. A string field that may be absent is "" then, where every reader takes
-- absence and "" alike.
use nl2sql_agent.Common.{ℕ, ◌+◌, String, Bool, Option, none, some, List}

-- One value of a result row. Numbers are whole multiples of 10⁻⁶, with their sign.
pub data Cell : Type 0 where
  null : Cell
  number : Bool → ℕ → Cell
  decimal : Bool → ℕ → Cell
  text : String → Cell

-- What `execute_sql` returns; `voted_by` and `sql` are the voter's `_voted_by` and `_sql`.
pub record ExecResult : Type 0 where
  pub success : Bool
  pub error : Option String
  pub rows : Option (List (List Cell))
  pub columns : Option (List String)
  pub row_count : ℕ
  pub voted_by : Option String
  pub sql : Option String

pub record TokenUsage : Type 0 where
  pub prompt : ℕ
  pub completion : ℕ
  pub total : ℕ

abbrev pub no_tokens : TokenUsage
no_tokens = record { prompt = 0; completion = 0; total = 0 }

-- `{k: token_usage[k] + tu.get(k, 0) for k in token_usage}`
abbrev pub add_tokens : TokenUsage → TokenUsage → TokenUsage
add_tokens a b = record {
  prompt = a.prompt + b.prompt;
  completion = a.completion + b.completion;
  total = a.total + b.total;
}

-- An entry of `guard_issues`.
pub record Issue : Type 0 where
  pub kind : String
  pub detail : String

-- A retrieved chunk of the corpus; an absent entry of its metadata is "".
pub record Chunk : Type 0 where
  pub content : String
  pub source : String
  pub db_id : String
  pub table_name : String
  pub chunk_type : String
  pub heading : String

-- A step of the decomposer.
pub record SubQuestion : Type 0 where
  pub id : ℕ
  pub sub_q : String
  pub depends_on : List ℕ

-- An entry of `conversation_turns`.
pub record Turn : Type 0 where
  pub turn : ℕ
  pub user_feedback : String
  pub sql : String
  pub exec_result : Option ExecResult

-- An entry of `repair_history`.
pub record Repair : Type 0 where
  pub attempt : ℕ
  pub error_source : String
  pub error_type : String
  pub failed_sql : String
  pub fix_strategy : String

-- `AgentState`; `null_sql` says that the values under "sql" and "last_sql" are None, as a feedback on
-- a task that has no SQL makes them, and both are "" then.
pub record AgentState : Type 0 where
  pub question : String
  pub db_id : String
  pub database_url : String
  pub rag_schema : Bool
  pub rag_domain : Bool
  pub rag_hybrid : Bool
  pub rag_fk_expand : Bool
  pub rag_column_prune : Bool
  pub rag_k : ℕ
  pub rag_k_expanded : Option ℕ
  pub rag_chunks : List Chunk
  pub schema_text : String
  pub notes_text : String
  pub sample_rows_text : String
  pub fewshot_enabled : Bool
  pub fewshot_text : String
  pub fewshot_hits : List String
  pub complexity : String
  pub decomposer_enabled : Bool
  pub sub_questions : List SubQuestion
  pub multi_candidate : Bool
  pub sql : String
  pub chosen_sql : String
  pub raw_response : String
  pub candidate_sqls : List String
  pub guard_pass : Bool
  pub guard_issues : List Issue
  pub exec_result : Option ExecResult
  pub semantic_pass : Bool
  pub semantic_feedback : String
  pub sem_reject_count : ℕ
  pub sem_last_rejected_sql : String
  pub retry_count : ℕ
  pub max_retries : ℕ
  pub last_error : String
  pub last_sql : Option String
  pub null_sql : Bool
  pub user_feedback : String
  pub conversation_turns : List Turn
  pub is_feedback_round : Bool
  pub repair_history : List Repair
  pub token_usage : TokenUsage

-- `exec_result.get("error") if exec_result else None`, an absent error being "".
abbrev pub error_of : Option ExecResult → String
error_of none = ""
error_of (some r) = elim r.error [ none ↦ "" | some e ↦ e ]

-- `exec_result and exec_result.get("success")`
abbrev pub succeeded : Option ExecResult → Bool
succeeded none = Bool.false
succeeded (some r) = r.success

-- `state.get("last_sql", state.get("sql", ""))`
abbrev pub failed_sql : AgentState → String
failed_sql s = elim s.last_sql [ none ↦ s.sql | some t ↦ t ]
