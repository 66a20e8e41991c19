-- ===== src/Agent/Refiner/Hints.antt =====
-- The hints of agent/nodes/refiner.py: the identifiers of a schema text, and the closest one to a
-- name. Arguments are the letters of regular expressions, and `difflib.get_close_matches` for one
-- match of the cutoff that is used.

use Prim.Native.String
use nl2sql_agent.Common.{
  String, false, ◌&&◌, Option, none, some, List, [], ◌∷◌, ◌++◌, ◌==◌, if◌then◌else◌, is_nil,
  is_some, truthy, concat, map,
}
use nl2sql_agent.Common.Strings.{is_space, lower, mem_text, is_in}
use nl2sql_agent.Common.Regex.{
  Regex, Cursor, Unicode, search_for, find_all, match_at, char_is, some_of, no_case, is_word,
}

-- A table with its columns.
abbrev pub Tables : Type 0
Tables = List (String × List String)

-- `CREATE\s+TABLE\s+`
abbrev pub create_table : Regex
create_table =
    Regex.seq (no_case "create")
      (Regex.seq (some_of is_space) (Regex.seq (no_case "table") (some_of is_space)))

-- `(?:IF\s+NOT\s+EXISTS\s+)?`
abbrev if_not_exists : Regex
if_not_exists =
    Regex.alt
      (Regex.seq (no_case "if") (
        Regex.seq (some_of is_space) (
          Regex.seq (no_case "not")
            (Regex.seq (some_of is_space) (Regex.seq (no_case "exists") (some_of is_space))))))
      Regex.empty

-- One of some words, in any case.
abbrev any_of : List String → Regex
any_of [] = Regex.one (λ c. false)
any_of (w ∷ []) = no_case w
any_of (w ∷ v ∷ ws) = Regex.alt (no_case w) (any_of (v ∷ ws))

-- The types by which a line is told to be one of a column.
abbrev column_type : Regex
column_type =
    Regex.alt
      (any_of (
        "text" ∷ "integer" ∷ "int" ∷ "real" ∷ "float" ∷ "double" ∷ "numeric" ∷ "decimal" ∷ "boolean"
        ∷ "date" ∷ "datetime" ∷ "blob" ∷ "varchar" ∷ []))
      (Regex.alt (Regex.seq (no_case "char") Regex.boundary)
        (any_of ("serial" ∷ "bigint" ∷ "smallint" ∷ "timestamp" ∷ [])))

abbrev not_columns : List String
not_columns =
    "create" ∷ "table" ∷ "primary" ∷ "foreign" ∷ "key" ∷ "references" ∷ "not" ∷ "null" ∷ "default"
    ∷ "unique" ∷ "check" ∷ "index" ∷ "constraint" ∷ []

abbrev pub taken_or : String → Option Cursor → String
taken_or d none = d
taken_or d (some e) = elim e.taken [ none ↦ d | some t ↦ t ]

-- `tables[name] = cols`, where a name that is there keeps its place.
unfoldable pub set_table : String → List String → Tables → Tables
set_table name cols [] = (name, cols) ∷ []
set_table name cols ((n, cs) ∷ ts) =
    let later = set_table name cols ts in if n == name then (n, cols) ∷ ts else (n, cs) ∷ later

-- `all_cols`: each column, alone and with its table.
unfoldable pub columns_of : String → List String → List String
columns_of table [] = []
columns_of table (c ∷ cs) = c ∷ concat (table ∷ "." ∷ c ∷ []) ∷ columns_of table cs

unfoldable pub all_columns : Tables → List String
unfolding columns_of
all_columns [] = []
all_columns ((t, cs) ∷ ts) = columns_of t cs ++ all_columns ts

-- `re.split(r'[._]', name)[-1]`
last_from : String → String → String
last_from best String.[] = best
last_from best (String.◌∷◌ c s) = if is_in c "._" then last_from s s else last_from best s

unfoldable pub last_token : String → String
unfolding last_from
last_token name = last_from name name

-- A match that Python takes for true.
abbrev pub found_or : Option String → Option String → Option String
found_or none later = later
found_or (some m) later = if truthy m then some m else later

abbrev pub no_such : String → String
no_such offending = concat (
    "No column or table named '" ∷ offending ∷ "' found in the schema. "
    ∷ "Only use identifiers listed in the SCHEMA section." ∷ [])

abbrev pub did_you_mean : String → String
did_you_mean closest =
    concat ("Did you mean '" ∷ closest ∷ "'? Check the SCHEMA section for available columns." ∷ [])

abbrev pub hint_text : String → Option String → String
hint_text offending none = no_such offending
hint_text offending (some closest) =
    if truthy closest then did_you_mean closest else no_such offending

module _ (u : Unicode) where
  abbrev quote_word : Regex
  quote_word =
      Regex.seq (Regex.optional (char_is 34))
        (Regex.seq (Regex.group (some_of (is_word u))) (Regex.optional (char_is 34)))

  -- `re.split(r'\n(?=CREATE\s+TABLE\s+)', text)`, with the block that was begun.
  blocks_from : String → String → List String
  unfolding match_at
  blocks_from block String.[] = block ∷ []
  blocks_from block (String.◌∷◌ c s) =
      let next = blocks_from "" s in
      let longer = blocks_from (String.◌++◌ block (String.◌∷◌ c "")) s in
      if char_is 10 c && is_some (match_at u create_table (some c) s) then block ∷ next else longer

  abbrev table_name : String → Option Cursor
  table_name block =
      search_for u (Regex.seq create_table (Regex.seq if_not_exists quote_word)) block

  abbrev column_line : Regex
  column_line = Regex.seq Regex.line_start (
      Regex.seq (Regex.many is_space)
        (Regex.seq quote_word (Regex.seq (some_of is_space) column_type)))

  columns_from : List Cursor → List String
  columns_from [] = []
  columns_from (e ∷ es) =
      let rest = columns_from es in
      let name = lower (taken_or "" (some e)) in
      if mem_text name not_columns then rest else name ∷ rest

  tables_from : List String → Tables → Tables
  unfolding columns_from
  tables_from [] ts = ts
  tables_from (b ∷ bs) ts = elim (table_name b) [
    | none ↦ tables_from bs ts
    | some e ↦
        tables_from bs
          (set_table (lower (taken_or "" (some e))) (columns_from (find_all u column_line b)) ts)
  ]

  -- `_parse_schema_identifiers`
  unfoldable pub parse_schema_identifiers : String → Tables
  unfolding blocks_from tables_from
  parse_schema_identifiers text = tables_from (blocks_from "" text) []

module _ (u : Unicode) (close_match : String → List String → Option String) where
  -- `_find_closest`: the last token of a name first, of which the last token is itself.
  unfoldable pub find_closest : String → List String → Option String
  unfolding last_token
  find_closest name candidates =
      let low = lower name in
      let cs = map lower candidates in
      let last = last_token low in
      if last == low
      then close_match low cs
      else found_or (close_match (lower last) (map lower cs)) (close_match low cs)

  -- `_build_schema_hint`
  unfoldable pub build_schema_hint : String → String → String
  unfolding parse_schema_identifiers find_closest all_columns
  build_schema_hint offending schema_text =
      let tables = parse_schema_identifiers u schema_text in
      if is_nil tables
      then ""
      else hint_text offending (find_closest offending (all_columns tables))
