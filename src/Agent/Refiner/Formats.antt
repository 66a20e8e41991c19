-- ===== src/Agent/Refiner/Formats.antt =====
-- The feedback of agent/nodes/refiner.py on the issues of the guard, and the parts that all of its
-- formatters share. Arguments are the letters of regular expressions and the hint on an identifier of
-- a schema text.
use nl2sql_agent.Common.{
  ℕ, suc, String, Option, none, some, List, [], ◌∷◌, ◌++◌, ◌==◌, if◌then◌else◌, truthy, concat,
  join, map, prefix, str, take,
}
use nl2sql_agent.Common.Strings.{is_space, contains, strip, after_last}
use nl2sql_agent.Common.Regex.{
  Regex, Cursor, Unicode, search_for, char_is, some_of, literal, is_word, is_digit, any_char,
}
use nl2sql_agent.Agent.State.{Issue}
use nl2sql_agent.Agent.Refiner.Hints.{taken_or}

-- The failed query, at the end of all but the feedback of a user.
abbrev pub failed_part : String → List String
failed_part sql = "\n## FAILED SQL — DO NOT REPEAT" ∷ prefix 600 sql ∷ []

abbrev pub context_part : List String → List String
context_part [] = []
context_part (c ∷ cs) = concat ("Context: " ∷ join "; " (c ∷ cs) ∷ []) ∷ []

-- `f"\n  {j+1}. {e}"` for the entries from the n-th on.
unfoldable pub numbered : ℕ → List String → List String
numbered n [] = []
numbered n (e ∷ es) = concat ("\n  " ∷ str n ∷ ". " ∷ e ∷ []) ∷ numbered (suc n) es

unfoldable pub error_line : List String → String
unfolding numbered
error_line (e ∷ []) = concat ("Error: " ∷ e ∷ [])
error_line es = concat ("Error: " ∷ join " " (numbered 1 es) ∷ [])

unfoldable pub fix_lines : List String → List String
unfolding numbered
fix_lines [] = []
fix_lines (f ∷ []) = concat ("Fix: " ∷ f ∷ []) ∷ []
fix_lines fs = concat ("Fix:" ∷ numbered 1 fs) ∷ []

abbrev issue_text : Issue → String
issue_text i = concat ("[" ∷ i.kind ∷ "] " ∷ i.detail ∷ [])

-- `\w+\.?\w*`
abbrev pub dotted : Unicode → Regex
dotted u =
    Regex.seq (some_of (is_word u))
      (Regex.seq (Regex.optional (char_is 46)) (Regex.many (is_word u)))

module _ (u : Unicode) (schema_hint : String → String → String) where
  abbrev quoted : Regex
  quoted = Regex.seq (literal "'") (Regex.seq (Regex.group (dotted u)) (literal "'"))

  abbrev identifier : Regex
  identifier =
      Regex.seq (literal "Identifier '")
        (Regex.seq (Regex.group (some_of (is_word u))) (literal "'"))

  abbrev or_schema : String → String
  or_schema hint = if truthy hint then hint else "Only use identifiers from the SCHEMA section."

  abbrev hinted : String → Option Cursor → String → String
  hinted schema_text none other = other
  hinted schema_text (some e) other = or_schema (schema_hint (taken_or "" (some e)) schema_text)

  abbrev fix_hallucination : String → String → String
  fix_hallucination schema_text detail = hinted schema_text (search_for u quoted detail) (
      hinted schema_text (search_for u identifier detail)
        "Only use identifiers that exist in the SCHEMA section.")

  abbrev fix_safety : String → String
  fix_safety detail =
      if contains detail "does not contain SELECT"
      then "Start your query with SELECT. Only SELECT queries are allowed."
      else if contains detail "Forbidden keyword"
      then concat (
          "Do NOT use "
          ∷ strip (after_last "Forbidden keyword:" detail)
          ∷ ". Rewrite as a read-only SELECT query."
          ∷ [])
      else if contains detail "Multiple statements"
      then "Combine statements into a single query using CTE (WITH ... AS ...)."
      else "Ensure the query is a single read-only SELECT statement."

  -- `(?:near|at)\s+(.+?)(?:\.|$)`
  abbrev location : Regex
  location = Regex.seq (Regex.alt (literal "near") (literal "at")) (
      Regex.seq (some_of is_space) (
        Regex.seq (Regex.group (Regex.seq (Regex.one (any_char u)) (Regex.lazy (any_char u))))
          (Regex.alt (literal ".") Regex.ending)))

  abbrev located : Option Cursor → List String
  located none = []
  located (some e) =
      concat ("Syntax error near: " ∷ prefix 80 (strip (taken_or "" (some e))) ∷ []) ∷ []

  -- `Forbidden statement type:\s*(\w+)`
  abbrev statement_type : Regex
  statement_type =
      Regex.seq (literal "Forbidden statement type:")
        (Regex.seq (Regex.many is_space) (Regex.group (some_of (is_word u))))

  -- The fix of an issue.
  unfoldable pub fix_of : String → Issue → String
  fix_of schema_text i =
      if i.kind == "hallucination"
      then fix_hallucination schema_text i.detail
      else if i.kind == "safety"
      then fix_safety i.detail
      else if i.kind == "ast_syntax"
      then "Check for missing commas, unmatched parentheses, or incomplete JOIN ... ON clauses."
      else if i.kind == "ast_structure"
      then concat (
          "You wrote "
          ∷ taken_or "multiple" (search_for u (Regex.group (some_of (is_digit u))) i.detail)
          ∷ " separate statements. "
          ∷ "Use WITH ... AS (CTE) to combine them into a single SELECT."
          ∷ [])
      else if i.kind == "ast_forbidden"
      then concat (
          "Do NOT use "
          ∷ taken_or "that statement type" (search_for u statement_type i.detail)
          ∷ ". Use only SELECT (or WITH ... SELECT). The database is read-only."
          ∷ [])
      else "Review the error and fix the SQL accordingly."

  -- The context of an issue.
  unfoldable pub context_of : Issue → List String
  context_of i = if i.kind == "ast_syntax" then located (search_for u location i.detail) else []

  unfoldable pub contexts_of : List Issue → List String
  unfolding context_of
  contexts_of [] = []
  contexts_of (i ∷ is) = context_of i ++ contexts_of is

  -- `_format_guard_feedback`
  unfoldable pub format_guard_feedback : List Issue → String → String → String
  unfolding fix_of contexts_of error_line fix_lines
  format_guard_feedback issues schema_text sql =
      let shown = take 3 issues in
      join "\n" (
        "## CORRECTION FEEDBACK"
          ∷ "Type: Guard failure"
          ∷ error_line (map issue_text shown)
          ∷ fix_lines (map (fix_of schema_text) shown)
        ++ context_part (contexts_of shown)
        ++ failed_part sql)
