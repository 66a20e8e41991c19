-- ===== src/Task/State.antt =====
-- The documents of a task: infrastructure/task_store.py (the state), infrastructure/broker.py (the
-- messages) and api/models.py (the requests). Left out are node_timings and _original_payload,
-- which nothing of the program reads but to show them.
use nl2sql_agent.Common.{ℕ, String, Bool, Option, List}
use nl2sql_agent.Agent.State.{ExecResult, TokenUsage, Turn}

pub data Status : Type 0 where
  pending running success failed timeout cancelled : Status

-- A time is in microseconds. `schema_text`, `notes_text` and `fewshot_text` are the entries with a
-- leading underscore.
pub record TaskState : Type 0 where
  pub task_id : String
  pub status : Status
  pub question : String
  pub db_id : String
  pub database_url : String
  pub progress : ℕ
  pub node : Option String
  pub sql : Option String
  pub exec_result : Option ExecResult
  pub token_usage : Option TokenUsage
  pub retry_count : ℕ
  pub error : Option String
  pub created_at : ℕ
  pub updated_at : ℕ
  pub schema_text : String
  pub notes_text : String
  pub fewshot_text : String
  pub conversation_turns : List Turn

-- The payload of a request; `retry_count` and `last_error` are `_retry_count` and `_last_error`.
pub record Request : Type 0 where
  pub question : String
  pub db_id : String
  pub database_url : String
  pub rag_schema : Bool
  pub rag_domain : Bool
  pub multi_candidate : Bool
  pub rag_k : ℕ
  pub rag_column_prune : Bool
  pub rag_hybrid : Bool
  pub rag_fk_expand : Bool
  pub fewshot_enabled : Bool
  pub retry_count : ℕ
  pub last_error : String

-- The payload of a feedback message.
pub record FeedbackRequest : Type 0 where
  pub feedback : String
  pub turn : ℕ
  pub question : String
  pub db_id : String
  pub database_url : String
  pub sql : Option String
  pub exec_result : Option ExecResult
  pub conversation_turns : List Turn

-- A value of a node's summary.
pub data Fact : Type 0 where
  count : ℕ → Fact
  flag : Bool → Fact
  words : String → Fact

pub data Payload : Type 0 where
  request : Request → Payload
  feedback_request : FeedbackRequest → Payload
  started : ℕ → ℕ → Payload
  feedback_turn : ℕ → Payload
  stopped_at : String → Payload
  node_summary : String → List (String × Fact) → Payload
  result : String → Option ExecResult → TokenUsage → Payload
  retrying : ℕ → String → Payload
  error_message : String → Payload
  dead_letter : Request → String → Payload

pub record TaskMessage : Type 0 where
  pub task_id : String
  pub event : String
  pub payload : Payload

pub data Topic : Type 0 where
  request_topic status_topic result_topic dlq_topic feedback_topic : Topic
