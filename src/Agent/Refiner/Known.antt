-- ===== src/Agent/Refiner/Known.antt =====
-- What a schema hint of the refiner can name.
use nl2sql_agent.Common.{String, true, ◌≡◌, ◌⊎◌, Option, some, List}
use nl2sql_agent.Common.Strings.{lower, mem_text}
use nl2sql_agent.Common.Regex.{Unicode}
use nl2sql_agent.Agent.Refiner.Hints.{all_columns, parse_schema_identifiers}

-- An identifier of a list, written in lower case.
abbrev pub IsNamed : List String → String → Type 0
IsNamed candidates m =
    (c : String) × (mem_text c candidates ≡ true) × ((m ≡ lower c) ⊎ (m ≡ lower (lower c)))

module _ (u : Unicode) (close_match : String → List String → Option String)
    (matches : (name : String) (cs : List String) (m : String)
      → close_match name cs ≡ some m
      → mem_text m cs ≡ true) where
  abbrev pub columns : String → List String
  columns schema_text = all_columns (parse_schema_identifiers u schema_text)
