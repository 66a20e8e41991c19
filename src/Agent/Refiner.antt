-- ===== src/Agent/Refiner.antt =====
-- agent/nodes/refiner.py. Arguments are the texts of the four kinds of feedback, the classification
-- of an execution error, which may raise, the retrieval of chunks (`retrieve_bird` where there is a
-- database id, `retrieve` where it is ""), and the schema information of a database.
pub mod Expansion
pub mod Hints
pub mod Formats
pub mod ExecFormat
pub mod ResultFormat
pub mod Program
pub mod Known
mod Tests
use Prim.Native.Nat.{◌+◌, ◌*◌}
use nl2sql_agent.Common.{
  ℕ, String, Bool, not, ◌&&◌, ◌||◌, Option, none, some, List, [], ◌∷◌, ◌++◌, ◌==◌, if◌then◌else◌,
  leb, ltb, is_nil, is_some, truthy, concat, prefix, str,
}
use nl2sql_agent.Common.Result.{Result, ok, raised, ◌>>=◌}
use nl2sql_agent.Agent.State.{AgentState, Chunk, Repair, error_of, failed_sql}
use nl2sql_agent.Retrieval.Schema.{TableInfo, table_catalog}
use nl2sql_agent.Retrieval.Context.{Context, build_prompt_context}

pub record Feedback : Type 0 where
  pub user : AgentState → String → String
  pub semantic : AgentState → String → String
  pub execution : AgentState → String → String
  pub guard : AgentState → String → String

pub record Knowledge : Type 0 where
  pub classify : String → Result String
  pub retrieve : String → String → ℕ → List Chunk
  pub schema_info : String → List TableInfo

-- The sources of an error, in the node's order of priority.
pub data Source : Type 0 where
  human semantic execution guard unknown : Source

-- "rag_expand" for a number of chunks that Python takes for true.
unfoldable pub strategy : Option ℕ → String
strategy none = "feedback_only"
strategy (some k) = if ltb 0 k then "rag_expand" else "feedback_only"

unfoldable pub source_of : AgentState → Source
source_of s =
    let exec_error = error_of s.exec_result in
    if truthy s.user_feedback
    then human
    else if truthy s.semantic_feedback && not (truthy exec_error)
    then semantic
    else if truthy exec_error
    then execution
    else if not (is_nil s.guard_issues)
    then guard
    else unknown

abbrev pub source_name : Source → String
source_name human = "human"
source_name semantic = "semantic"
source_name execution = "execution"
source_name guard = "guard"
source_name unknown = "unknown"

unfoldable pub header : AgentState → String
header s =
    let attempt = s.retry_count + 1 in
    let max_attempts = s.max_retries + 1 in
    if leb max_attempts attempt
    then concat (
        "## CORRECTION "
        ∷ str attempt
        ∷ "/"
        ∷ str max_attempts
        ∷ " (FINAL ATTEMPT — be conservative, prefer simpler queries)\n"
        ∷ [])
    else concat ("## CORRECTION " ∷ str attempt ∷ "/" ∷ str max_attempts ∷ "\n" ∷ [])

module _ (feedback : Feedback) (knowledge : Knowledge) where
  -- The structured feedback below the header; the failed SQL is that of `failed_sql`.
  unfoldable pub body : Source → AgentState → String
  body human s = feedback.user s (failed_sql s)
  body semantic s = feedback.semantic s (failed_sql s)
  body execution s = feedback.execution s (failed_sql s)
  body guard s = feedback.guard s (failed_sql s)
  body unknown s = concat (
      "## CORRECTION FEEDBACK\n"
      ∷ "Type: Unknown error — no execution, guard, or semantic details available.\n"
      ∷ "\n## FAILED SQL — DO NOT REPEAT\n"
      ∷ prefix 600 (failed_sql s)
      ∷ [])

  -- "Expand RAG context on missing column/table errors", at most once.
  unfoldable pub expands : String → AgentState → Bool
  expands hint_type s =
      (hint_type == "missing_column" || hint_type == "missing_table" || truthy s.semantic_feedback)
      && not (is_some s.rag_k_expanded)

  abbrev expanded_chunks : AgentState → List Chunk
  expanded_chunks s = knowledge.retrieve s.question s.db_id (s.rag_k * 2)

  abbrev expanded_schema : AgentState → Context → String
  expanded_schema s ctx =
      if s.rag_schema && truthy ctx.schema_text
      then concat
          (ctx.schema_text ∷ "\n\n" ∷ table_catalog knowledge.schema_info s.database_url ∷ [])
      else ctx.schema_text

  abbrev with_context : AgentState → List Chunk → Context → AgentState
  with_context s chunks ctx = record s {
    rag_k_expanded = some (s.rag_k * 2);
    rag_chunks = chunks;
    schema_text = expanded_schema s ctx;
    notes_text = if s.rag_domain && truthy ctx.notes_text then ctx.notes_text else s.notes_text;
  }

  unfoldable pub expand : AgentState → AgentState
  unfolding build_prompt_context table_catalog
  expand s = with_context s (expanded_chunks s) (build_prompt_context (expanded_chunks s))

  -- The entry of `repair_history`; `rag_k_expanded` is the one from before this round.
  unfoldable pub repair : String → AgentState → Repair
  repair hint_type s = record {
    attempt = s.retry_count + 1;
    error_source = source_name (source_of s);
    error_type = if truthy (error_of s.exec_result) then hint_type else "";
    failed_sql = prefix 300 (failed_sql s);
    fix_strategy = strategy s.rag_k_expanded;
  }

  abbrev recorded : String → AgentState → AgentState → AgentState
  recorded hint_type s t = record t {
    last_error = concat (header s ∷ body (source_of s) s ∷ []);
    last_sql = some (failed_sql s);
    repair_history = s.repair_history ++ repair hint_type s ∷ [];
  }

  -- The node's update, for the type of the error.
  unfoldable pub corrected : String → AgentState → AgentState
  unfolding expands expand repair
  corrected hint_type s = recorded hint_type s (if expands hint_type s then expand s else s)

  -- `sql[:300]` raises on an SQL that is None.
  unfoldable pub refiner_node : AgentState → Result AgentState
  refiner_node s =
      if s.null_sql
      then raised "TypeError: 'NoneType' object is not subscriptable"
      else knowledge.classify (error_of s.exec_result) >>= λ hint_type. ok (corrected hint_type s)
