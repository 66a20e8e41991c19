-- ===== src/Agent/Refiner/ExecFormat.antt =====
-- The feedback of agent/nodes/refiner.py on an error of an execution. Arguments are the letters of
-- regular expressions and the hint on an identifier of a schema text.
use nl2sql_agent.Common.{
  ℕ, zero, suc, ◌+◌, ◌-◌, String, Bool, true, false, not, Option, none, some, List, [], ◌∷◌, ◌++◌,
  ◌==◌, if◌then◌else◌, ltb, truthy, concat, join, prefix,
}
use nl2sql_agent.Common.Strings.{is_space}
use nl2sql_agent.Common.Regex.{Regex, Cursor, Unicode, search_for, char_is, some_of, literal, size}
use nl2sql_agent.Common.Result.{Result, ok, ◌>>=◌}
use nl2sql_agent.Agent.State.{ExecResult, error_of}
use nl2sql_agent.Agent.Refiner.Hints.{taken_or}
use nl2sql_agent.Guard.Errors.{Hint, ErrorType, error_name, classify_exec_error, syntax_error}
use nl2sql_agent.Guard.Pipeline.{asks_expansion}
use nl2sql_agent.Agent.Refiner.Formats.{failed_part, context_part, dotted}

-- `"".find(token)`
unfoldable pub find_at : ℕ → String → String → Option ℕ
find_at n token String.[] = if token == "" then some n else none
find_at n token (String.◌∷◌ c s) =
    let later = find_at (suc n) token s in
    if prefix (size token) (String.◌∷◌ c s) == token then some n else later

unfoldable pub drop_chars : ℕ → String → String
drop_chars zero s = s
drop_chars (suc n) String.[] = ""
drop_chars (suc n) (String.◌∷◌ c s) = drop_chars n s

-- `sql[max(0, i - 40) : min(len(sql), i + len(token) + 40)]`
unfoldable pub around : ℕ → String → String → String
unfolding drop_chars
around i token sql = prefix (i + size token + 40 - (i - 40)) (drop_chars (i - 40) sql)

abbrev near_part : String → String → Option ℕ → List String
near_part token sql none = []
near_part token sql (some i) =
    if ltb 0 i then concat ("Near: ..." ∷ around i token sql ∷ "..." ∷ []) ∷ [] else []

module _ (u : Unicode) (schema_hint : String → String → String) where
  -- `no such (?:column|table):\s*'?(\w+\.?\w*)'?`
  abbrev no_such : Regex
  no_such = Regex.seq (literal "no such ") (
      Regex.seq (Regex.alt (literal "column") (literal "table")) (
        Regex.seq (literal ":") (
          Regex.seq (Regex.many is_space) (
            Regex.seq (Regex.optional (char_is 39))
              (Regex.seq (Regex.group (dotted u)) (Regex.optional (char_is 39)))))))

  -- `near\s+"([^"]+)"`
  abbrev near_token : Regex
  near_token = Regex.seq (literal "near") (
      Regex.seq (some_of is_space) (
        Regex.seq (literal "\"")
          (Regex.seq (Regex.group (some_of (λ c. not (char_is 34 c)))) (literal "\""))))

  abbrev non_empty : String → List String
  non_empty s = if truthy s then s ∷ [] else []

  abbrev named_part : String → Option Cursor → List String
  named_part schema_text none = []
  named_part schema_text (some e) = non_empty (schema_hint (taken_or "" (some e)) schema_text)

  abbrev token_part : String → Option Cursor → List String
  token_part sql none = []
  token_part sql (some e) =
      let token = taken_or "" (some e) in near_part token sql (find_at 0 token sql)

  abbrev is_syntax : ErrorType → Bool
  is_syntax syntax_error = true
  is_syntax _ = false

  -- The context of an execution error of a kind.
  unfoldable pub exec_context : ErrorType → String → String → String → List String
  unfolding find_at around
  exec_context kind error sql schema_text =
      (if asks_expansion kind then named_part schema_text (search_for u no_such error) else [])
      ++ (if is_syntax kind then token_part sql (search_for u near_token error) else [])

  -- `_format_exec_feedback`, with the classification of the error.
  unfoldable pub exec_feedback : String → Hint → String → String → String
  unfolding exec_context
  exec_feedback error h sql schema_text = join "\n" (
      "## CORRECTION FEEDBACK"
        ∷ concat ("Type: Execution error (" ∷ error_name h.kind ∷ ")" ∷ [])
        ∷ concat ("Error: " ∷ prefix 300 error ∷ [])
        ∷ concat ("Fix: " ∷ h.text ∷ [])
        ∷ context_part (exec_context h.kind error sql schema_text)
      ++ failed_part sql)

  unfoldable pub format_exec_feedback : ExecResult → String → String → Result String
  unfolding exec_feedback
  format_exec_feedback r sql schema_text = classify_exec_error u (error_of (some r)) >>= λ h.
      ok (exec_feedback (error_of (some r)) h sql schema_text)
