-- ===== src/Agent/ExtractSql.antt =====
-- `extract_sql` of agent/generator_llm.py: the query in a model's reply.
use nl2sql_agent.Common.{String, Option, none, some, ◌≡◌, refl}
use nl2sql_agent.Common.Strings.{strip, is_space}
use nl2sql_agent.Common.Regex.{
  Regex, Cursor, search_for, literal, no_case, some_of, anything, ascii_only, or_else,
}

-- "```sql\s*(.*?)```", the group between the fences.
abbrev pub fenced : Regex
fenced = Regex.seq (no_case "```sql") (
    Regex.seq (Regex.many is_space) (Regex.seq (Regex.group (Regex.lazy anything)) (literal "```")))

-- "(?:WITH\s+.*?SELECT|SELECT)\s+.*?;", the whole of it.
abbrev pub statement : Regex
statement = Regex.group (
    Regex.seq
      (Regex.alt
        (Regex.seq (no_case "with")
          (Regex.seq (some_of is_space) (Regex.seq (Regex.lazy anything) (no_case "select"))))
        (no_case "select"))
      (Regex.seq (some_of is_space) (Regex.seq (Regex.lazy anything) (literal ";"))))

abbrev taken_of : Option Cursor → Option String
taken_of none = none
taken_of (some e) = e.taken

-- The expressions name no class of letters, so that those outside ASCII do not matter.
unfoldable pub extract_sql : String → String
unfolding search_for strip is_space
extract_sql response =
    elim (or_else (taken_of (search_for ascii_only fenced response))
      (taken_of (search_for ascii_only statement response))) [
        | none ↦ strip response
        | some t ↦ strip t
      ]

tests :
    (extract_sql "Here:\n```SQL\nSELECT 1\n```\nDone" ≡ "SELECT 1")
    × (extract_sql "I think with a as (x) Select b from a; fine" ≡ "with a as (x) Select b from a;")
    × (extract_sql " select one " ≡ "select one")
unfolding extract_sql
tests = (refl, refl, refl)
