-- ===== src/Agent/Refiner/ResultFormat.antt =====
-- The feedback of agent/nodes/refiner.py on the meaning of a result, by the model or by a user. The
-- text of a cell is an argument.
use nl2sql_agent.Common.{
  ℕ, String, Option, none, some, List, [], ◌∷◌, ◌++◌, if◌then◌else◌, is_nil, truthy, concat, join,
  map, prefix, str, take,
}
use nl2sql_agent.Agent.State.{ExecResult, Turn, Cell}
use nl2sql_agent.Agent.Refiner.Formats.{failed_part, context_part}

abbrev names_of : Option (List String) → List String
names_of none = []
names_of (some cs) = cs

abbrev rows_of : Option (List (List Cell)) → List (List Cell)
rows_of none = []
rows_of (some rs) = rs

module _ (text : Cell → String) where
  -- The first rows, with the cells cut.
  unfoldable pub preview : ℕ → ℕ → ℕ → List (List Cell) → String
  preview rows cells chars found = join " | " (
      map
        (λ (row : List Cell).
          join ", " (map (λ (v : Cell). prefix chars (text v)) (take cells row)))
        (take rows found))

  abbrev result_context : Option ExecResult → List String
  result_context none = []
  result_context (some r) =
      let names = names_of r.columns in
      let found = rows_of r.rows in
      if is_nil names
      then []
      else concat
          ("Returned " ∷ str r.row_count ∷ " rows, columns: " ∷ join ", " (take 8 names) ∷ [])
        ∷ (if is_nil found then [] else concat ("Preview: " ∷ preview 3 5 20 found ∷ []) ∷ [])

  -- `_format_semantic_feedback`
  unfoldable pub format_semantic_feedback : String → String → Option ExecResult → String
  unfolding preview
  format_semantic_feedback feedback sql r = join "\n" (
      "## CORRECTION FEEDBACK"
        ∷ "Type: Semantic error"
        ∷ concat ("Error: " ∷ feedback ∷ [])
        ∷ concat (
            "Fix: Revise the SQL to correctly answer the user question. "
            ∷ "The syntax is valid but the query logic or returned data is wrong." ∷ [])
        ∷ context_part (result_context r)
      ++ failed_part sql)

  abbrev turn_result : Option ExecResult → List String
  turn_result none = []
  turn_result (some r) =
      let names = names_of r.columns in
      let found = rows_of r.rows in
      if is_nil names
      then []
      else concat
          ("  → Result: " ∷ str r.row_count ∷ " rows [" ∷ join ", " (take 8 names) ∷ "]" ∷ [])
        ∷ (if is_nil found then [] else concat ("     Preview: " ∷ preview 2 4 15 found ∷ []) ∷ [])

  unfoldable pub turn_lines : List Turn → List String
  unfolding preview
  turn_lines [] = []
  turn_lines (t ∷ ts) =
      (concat ("Turn " ∷ str t.turn ∷ " — \"" ∷ t.user_feedback ∷ "\"" ∷ [])
          ∷ (if truthy t.sql then concat ("  → SQL: " ∷ prefix 200 t.sql ∷ []) ∷ [] else [])
        ++ turn_result t.exec_result)
      ++ turn_lines ts

  -- `_format_user_feedback`
  unfoldable pub format_user_feedback : String → String → List Turn → String
  unfolding turn_lines
  format_user_feedback feedback sql turns = join "\n" (
      "## CORRECTION FEEDBACK"
        ∷ (if is_nil turns then [] else "\n## PREVIOUS ATTEMPTS" ∷ turn_lines turns)
      ++ "\n## CURRENT GUIDANCE"
        ∷ concat ("User says: \"" ∷ feedback ∷ "\"" ∷ [])
        ∷ concat (
            "Please revise the SQL according to the guidance above. "
            ∷ "Previous corrections from PREVIOUS ATTEMPTS should be preserved." ∷ [])
        ∷ (if truthy sql then "\n## CURRENT SQL (for reference)" ∷ prefix 600 sql ∷ [] else []))
