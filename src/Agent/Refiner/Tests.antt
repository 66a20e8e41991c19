-- ===== src/Agent/Refiner/Tests.antt =====
-- Hints on a schema of two tables, and feedback with them.
use nl2sql_agent.Common.{◌≡◌, refl, String, Option, none, some, List, [], ◌∷◌, ◌==◌, if◌then◌else◌}
use nl2sql_agent.Common.Strings.{is_space, lower, mem_text}
use nl2sql_agent.Common.Regex.{ascii_only, search_for, find_all, is_word}
use nl2sql_agent.Agent.Refiner.Hints.{
  parse_schema_identifiers, set_table, build_schema_hint, did_you_mean,
}
use nl2sql_agent.Agent.Refiner.Formats.{format_guard_feedback}

-- A schema of two tables.
abbrev two_tables : String
two_tables =
    "-- shop\nCREATE TABLE orders (\n  id INT,\n  total REAL,\n  PRIMARY KEY (id)\n);\nCREATE TABLE \"Items\" (\n  name TEXT\n);"

two_tables_parsed :
    parse_schema_identifiers ascii_only two_tables
    ≡ ("orders", "id" ∷ "total" ∷ []) ∷ ("items", "name" ∷ []) ∷ []
unfolding parse_schema_identifiers search_for mem_text lower is_word set_table find_all is_space
two_tables_parsed = refl

-- A search that finds only what is there to the letter.
exact : String → List String → Option String
exact name [] = none
exact name (c ∷ cs) = let later = exact name cs in if name == c then some c else later

column_named :
    build_schema_hint ascii_only exact "customers.total" two_tables ≡ did_you_mean "total"
unfolding build_schema_hint search_for exact is_space is_word lower set_table find_all mem_text
column_named = refl

shown :
    format_guard_feedback ascii_only
      (build_schema_hint ascii_only exact)
      (record { kind = "hallucination"; detail = "Column 'o.total' not found" } ∷ [])
      two_tables
      "SELECT o.total"
    ≡ "## CORRECTION FEEDBACK\nType: Guard failure\nError: [hallucination] Column 'o.total' not found\nFix: Did you mean 'total'? Check the SCHEMA section for available columns.\n\n## FAILED SQL — DO NOT REPEAT\nSELECT o.total"
unfolding format_guard_feedback mem_text lower build_schema_hint set_table is_word exact is_space
    find_all search_for
shown = refl
