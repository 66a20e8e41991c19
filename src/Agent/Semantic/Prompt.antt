-- ===== src/Agent/Semantic/Prompt.antt =====
-- The schema that agent/nodes/semantic_check.py shows to the model: that of the tables that the query
-- names, up to a limit. The letters of regular expressions are an argument.
use Prim.Native.String
use nl2sql_agent.Common.{
  ℕ, zero, suc, ◌+◌, String, Bool, false, not, ◌&&◌, ◌||◌, Option, none, some, List, [], ◌∷◌, ◌==◌,
  if◌then◌else◌, leb, ltb, is_nil, is_some, truthy, concat, join, prefix, str, length,
}
use nl2sql_agent.Common.Strings.{is_space, lower, mem_text, strip}
use nl2sql_agent.Common.Sets.{add, sorted}
use nl2sql_agent.Common.Regex.{
  Regex, Cursor, Unicode, find_all, match_at, char_is, some_of, literal, no_case, is_word, size,
}
use nl2sql_agent.Agent.Refiner.Hints.{create_table, taken_or}

abbrev pub schema_max_chars : ℕ
schema_max_chars = 8000

-- `text.rfind(token)`, from the n-th character on.
unfoldable pub rfind : ℕ → String → String → Option ℕ
rfind n token String.[] = none
rfind n token (String.◌∷◌ c s) = elim (rfind (suc n) token s) [
  | some i ↦ some i
  | none ↦ if prefix (size token) (String.◌∷◌ c s) == token then some n else none
]

unfoldable pub drop_chars : ℕ → String → String
drop_chars zero s = s
drop_chars (suc n) String.[] = ""
drop_chars (suc n) (String.◌∷◌ c s) = drop_chars n s

-- `//` by 2
unfoldable pub half : ℕ → ℕ
half zero = 0
half (suc zero) = 0
half (suc (suc n)) = suc (half n)

unfoldable pub plain_note : String
plain_note = "\n\n-- NOTE: Schema truncated. Verify against the execution result below."

module _ (u : Unicode) where
  -- `(?:FROM|JOIN)\s+(\w+)`; what may follow, an alias, is taken along.
  abbrev table_reference : Regex
  table_reference = Regex.seq (Regex.alt (no_case "from") (no_case "join")) (
      Regex.seq (some_of is_space) (
        Regex.seq (Regex.group (some_of (is_word u))) (
          Regex.alt
            (Regex.seq (some_of is_space) (
              Regex.seq (Regex.alt (Regex.seq (no_case "as") (some_of is_space)) Regex.empty)
                (some_of (is_word u))))
            Regex.empty)))

  tables_of : List Cursor → List String → List String
  tables_of [] ts = ts
  tables_of (e ∷ es) ts = tables_of es (add (lower (taken_or "" (some e))) ts)

  -- `_extract_sql_tables`
  unfoldable pub extract_sql_tables : String → List String
  unfolding tables_of
  extract_sql_tables sql = tables_of (find_all u table_reference sql) []

  -- `re.split(r"\n(?=CREATE\s+TABLE\s+)", text)`, in upper case only.
  abbrev upper_create : Regex
  upper_create =
      Regex.seq (literal "CREATE")
        (Regex.seq (some_of is_space) (Regex.seq (literal "TABLE") (some_of is_space)))

  parts_from : String → String → List String
  unfolding match_at
  parts_from block String.[] = block ∷ []
  parts_from block (String.◌∷◌ c s) =
      let next = parts_from "" s in
      let longer = parts_from (String.◌++◌ block (String.◌∷◌ c "")) s in
      if char_is 10 c && is_some (match_at u upper_create (some c) s) then block ∷ next else longer

  stripped : List String → List String
  stripped [] = []
  stripped (p ∷ ps) = let rest = stripped ps in if truthy (strip p) then strip p ∷ rest else rest

  unfoldable pub blocks_of : String → List String
  unfolding parts_from stripped
  blocks_of text = stripped (parts_from "" text)

  -- The name that a block declares.
  abbrev declared : String → Option Cursor
  declared block =
      match_at u
        (Regex.seq create_table (
          Regex.seq (Regex.optional (char_is 34))
            (Regex.seq (Regex.group (some_of (is_word u))) (Regex.optional (char_is 34)))))
        none block

  unfoldable pub is_relevant : List String → String → Bool
  unfolding match_at
  is_relevant used block = elim (declared block) [
    | none ↦ false
    | some e ↦ mem_text (lower (taken_or "" (some e))) used
  ]

  unfoldable pub relevant : List String → List String → List String
  unfolding is_relevant
  relevant used [] = []
  relevant used (b ∷ bs) =
      let rest = relevant used bs in if is_relevant used b then b ∷ rest else rest

  -- The names of the other blocks.
  unfoldable pub omitted_names : List String → List String → List String → List String
  unfolding is_relevant match_at
  omitted_names used [] names = names
  omitted_names used (b ∷ bs) names =
      let skipped = omitted_names used bs names in
      let named : List String = elim (declared b) [
        | none ↦ skipped
        | some e ↦ omitted_names used bs (add (taken_or "" (some e)) names)
      ] in
      if is_relevant used b then skipped else named

  abbrev omitted_note : List String → String
  omitted_note names =
      if is_nil names
      then ""
      else concat (
          "\n\n-- Note: "
          ∷ str (length names)
          ∷ " other table(s) in schema but not "
          ∷ "referenced by this SQL: "
          ∷ join ", " (sorted names)
          ∷ [])

  abbrev pub boundary_note : ℕ → String → String
  boundary_note max_chars remaining = concat (
      "\n\n-- NOTE: Schema truncated at "
      ∷ str max_chars
      ∷ " chars. "
      ∷ str (length (find_all u create_table remaining))
      ∷ " table(s) omitted. "
      ∷ "Only the tables referenced by the SQL and shown above are relevant."
      ∷ [])

  -- With the place of the last ");" among the first characters.
  unfoldable pub cut_at : ℕ → String → Option ℕ → String
  unfolding plain_note drop_chars
  cut_at max_chars text none = concat (prefix max_chars text ∷ plain_note ∷ [])
  cut_at max_chars text (some i) =
      if ltb (half max_chars) i
      then concat (
          prefix (i + 2) (prefix max_chars text)
          ∷ boundary_note max_chars (drop_chars (i + 2) text)
          ∷ [])
      else concat (prefix max_chars text ∷ plain_note ∷ [])

  -- `_truncate_at_ddl_boundary`
  unfoldable pub truncate_at_ddl_boundary : String → ℕ → String
  unfolding cut_at rfind
  truncate_at_ddl_boundary text max_chars =
      if leb (size text) max_chars
      then text
      else cut_at max_chars text (rfind 0 ");" (prefix max_chars text))

  -- `_filter_schema_text`
  unfoldable pub filter_schema_text : String → List String → ℕ → String
  unfolding blocks_of relevant omitted_names truncate_at_ddl_boundary
  filter_schema_text schema_text used max_chars =
      let blocks = blocks_of schema_text in
      let shown = join "\n\n" (relevant used blocks) in
      if not (truthy schema_text)
      then ""
      else if is_nil used || is_nil (relevant used blocks)
      then truncate_at_ddl_boundary schema_text max_chars
      else if leb (size shown) max_chars
      then concat (shown ∷ omitted_note (omitted_names used blocks []) ∷ [])
      else truncate_at_ddl_boundary shown max_chars
