-- ===== src/Agent/Refiner/Program.antt =====
-- The feedback of the refiner, by the formatters of the program. The classification of an error is
-- an argument, as it is in the node.
use nl2sql_agent.Common.{String, Option, List}
use nl2sql_agent.Common.Regex.{Unicode}
use nl2sql_agent.Agent.State.{Cell, error_of}
use nl2sql_agent.Guard.Errors.{Hint}
use nl2sql_agent.Agent.Refiner.{Feedback}
use nl2sql_agent.Agent.Refiner.Hints.{build_schema_hint}
use nl2sql_agent.Agent.Refiner.Formats.{format_guard_feedback}
use nl2sql_agent.Agent.Refiner.ExecFormat.{exec_feedback}
use nl2sql_agent.Agent.Refiner.ResultFormat.{format_semantic_feedback, format_user_feedback}

unfoldable pub program_feedback :
    Unicode → (String → List String → Option String) → (Cell → String) → (String → Hint) → Feedback
unfolding build_schema_hint format_guard_feedback exec_feedback format_semantic_feedback
    format_user_feedback
program_feedback u close_match text classify = record {
  user = λ s sql. format_user_feedback text s.user_feedback sql s.conversation_turns;
  semantic = λ s sql. format_semantic_feedback text s.semantic_feedback sql s.exec_result;
  execution = λ s sql.
      let error = error_of s.exec_result in
      exec_feedback u (build_schema_hint u close_match) error (classify error) sql s.schema_text;
  guard = λ s sql.
      format_guard_feedback u (build_schema_hint u close_match) s.guard_issues s.schema_text sql;
}
