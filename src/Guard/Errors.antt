-- ===== src/Guard/Errors.antt =====
-- guard/error_types.py and `classify_exec_error` of guard/error_classifier.py: what an error message
-- of SQLite, MySQL or PostgreSQL is about, and the hint for the next generation.
use Prim.Native.Char.{Char}
use nl2sql_agent.Common.{
  String, Bool, not, ◌&&◌, ◌||◌, Option, none, some, List, [], ◌∷◌, if◌then◌else◌, concat, prefix,
}
use nl2sql_agent.Common.Strings.{
  contains, lower, strip, rstrip_of, lstrip_of, after_last, split, is_space,
}
use nl2sql_agent.Common.Regex.{Regex, Unicode, search_for, literal, some_of, char_is}
use nl2sql_agent.Common.Result.{Result, ok, raised}

pub data ErrorType : Type 0 where
  empty_sql sql_validation invalid_input permission_denied : ErrorType
  missing_column missing_table ambiguous_column : ErrorType
  syntax_error bad_function group_by_error timeout execution_error semantic_mismatch : ErrorType

-- The value of the `StrEnum`.
unfoldable pub error_name : ErrorType → String
error_name empty_sql = "empty_sql"
error_name sql_validation = "sql_validation"
error_name invalid_input = "invalid_input"
error_name permission_denied = "permission_denied"
error_name missing_column = "missing_column"
error_name missing_table = "missing_table"
error_name ambiguous_column = "ambiguous_column"
error_name syntax_error = "syntax_error"
error_name bad_function = "bad_function"
error_name group_by_error = "group_by_error"
error_name timeout = "timeout"
error_name execution_error = "execution_error"
error_name semantic_mismatch = "semantic_mismatch"

pub record Hint : Type 0 where
  pub kind : ErrorType
  pub text : String

abbrev hint : ErrorType → List String → Hint
hint kind pieces = record { kind = kind; text = concat pieces }

-- `pieces[1]`
abbrev second : List String → Option String
second [] = none
second (a ∷ []) = none
second (a ∷ b ∷ cs) = some b

abbrev or_question : Option String → String
or_question none = "?"
or_question (some t) = t

abbrev absent_column : String → Hint
absent_column col = hint missing_column (
    "Column '" ∷ col ∷ "' does not exist. Check the SCHEMA section — "
    ∷ "only use column names listed there." ∷ [])

abbrev absent_table : String → Hint
absent_table tbl = hint missing_table (
    "Table '" ∷ tbl ∷ "' does not exist. Check the SCHEMA section for the correct table name." ∷ [])

-- MySQL's "Unknown column 'name' in …".
unfoldable pub unknown_column : String → Hint
unknown_column msg =
    let col = lstrip_of " '\":;" (rstrip_of " '\":;" (after_last "Unknown column" msg)) in
    let name : String = elim (second (split b'\'' col)) [ none ↦ prefix 40 col | some n ↦ n ] in
    hint missing_column (
      "Column '" ∷ name ∷ "' does not exist in the database. "
      ∷ "Check the SCHEMA section for the correct column name." ∷ [])

-- MySQL's "Table 'name' doesn't exist": there is a quote in the message, but perhaps none after the
-- last "Table", and then `[1]` raises.
unfoldable pub doesnt_exist : String → Result Hint
doesnt_exist msg = elim (second (split b'\'' (after_last "Table" msg))) [
  | none ↦ raised "IndexError: list index out of range"
  | some tbl ↦ ok (absent_table tbl)
]

abbrev syntax_hint : Hint
syntax_hint = hint syntax_error (
    "SQL syntax error. Check for: missing commas, unmatched parentheses, "
    ∷ "incomplete JOIN ... ON clauses, or missing keywords." ∷ [])

module _ (u : Unicode) where
  abbrev plain : Char → Bool
  plain c = not (is_space c) && not (char_is 34 c)

  -- `word\s+"?([^\s"]+)"?\s+does not exist`
  abbrev quoted_name : String → Regex
  quoted_name word = Regex.seq (literal word) (
      Regex.seq (some_of is_space) (
        Regex.seq (Regex.optional (char_is 34)) (
          Regex.seq (Regex.group (some_of plain)) (
            Regex.seq (Regex.optional (char_is 34))
              (Regex.seq (some_of is_space) (literal "does not exist"))))))

  -- `function\s+(\S+)\(`
  abbrev called_name : Regex
  called_name = Regex.seq (literal "function") (
      Regex.seq (some_of is_space)
        (Regex.seq (Regex.group (some_of (λ c. not (is_space c)))) (literal "(")))

  -- `m.group(1) if m else "?"`
  abbrev named : Regex → String → String
  named r low = elim (search_for u r low) [ none ↦ "?" | some e ↦ or_question e.taken ]

  -- The tests of the code, in its order; `low` is the message in lower case.
  unfoldable pub classify : String → String → Result Hint
  classify msg low =
      if contains low "no such column:"
      then ok (absent_column (strip (after_last "no such column:" msg)))
      else if contains low "unknown column"
      then ok (unknown_column msg)
      else if contains low "column" && contains low "does not exist"
      then ok (absent_column (named (quoted_name "column") low))
      else if contains low "no such table:"
      then ok (absent_table (strip (after_last "no such table:" msg)))
      else if contains low "doesn't exist" && contains low "table"
      then doesnt_exist msg
      else if contains low "relation" && contains low "does not exist"
      then ok (
          hint missing_table (
            "Table/relation '"
            ∷ named (quoted_name "relation") low
            ∷ "' does not exist. Check the SCHEMA section."
            ∷ []))
      else if contains low "ambiguous column name:"
      then (let col = strip (after_last "ambiguous column name:" msg) in
          ok (
            hint ambiguous_column (
              "Column '" ∷ col ∷ "' exists in multiple tables. "
              ∷ "Qualify it with the table name or alias (e.g., orders." ∷ col ∷ ")." ∷ [])))
      else if contains low "column" && contains low "is ambiguous"
      then ok (
          hint ambiguous_column
            ("A column reference is ambiguous — qualify it with the table name or alias." ∷ []))
      else if contains low "no such function:"
      then ok (
          hint bad_function (
            "Function '"
            ∷ strip (after_last "no such function:" msg)
            ∷ "' is not available. Use an equivalent built-in function for your dialect."
            ∷ []))
      else if contains low "function" && contains low "does not exist"
      then ok (
          hint bad_function (
            "Function '"
            ∷ named called_name low
            ∷ "()' does not exist. Use an equivalent built-in function for your dialect."
            ∷ []))
      else if contains low "syntax error" || contains low "near"
      then ok syntax_hint
      else if contains low "you have an error in your sql syntax"
      then ok syntax_hint
      else if contains low "group by" || contains low "aggregate"
      then ok (
          hint group_by_error
            ("GROUP BY error: every non-aggregate column in SELECT must appear in GROUP BY." ∷ []))
      else ok (
          hint execution_error (
            "SQL execution failed: " ∷ msg ∷ "\n"
            ∷ "Check column names, table names, JOIN conditions, and syntax." ∷ []))

  unfoldable pub classify_exec_error : String → Result Hint
  unfolding classify lower
  classify_exec_error msg = classify msg (lower msg)
