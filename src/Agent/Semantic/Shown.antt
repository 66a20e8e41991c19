-- ===== src/Agent/Semantic/Shown.antt =====
-- The query and the rows that agent/nodes/semantic_check.py shows to the model. The letters of regular
-- expressions and the text of a cell are arguments.
use nl2sql_agent.Common.{
  ℕ, ◌-◌, String, List, [], ◌∷◌, ◌++◌, if◌then◌else◌, ltb, is_nil, concat, join, map, prefix, str,
  take, length,
}
use nl2sql_agent.Common.Strings.{is_space}
use nl2sql_agent.Common.Regex.{Regex, Cursor, Unicode, find_all, some_of, literal, no_case, size}
use nl2sql_agent.Agent.State.{Cell}
use nl2sql_agent.Agent.Semantic.Prompt.{half}

abbrev pub sql_max_chars : ℕ
sql_max_chars = 6000

abbrev preview_value_max : ℕ
preview_value_max = 40

module _ (u : Unicode) where
  -- The keywords at which a long query is cut, the first that stands late enough.
  abbrev two_words : String → String → Regex
  two_words a b =
      Regex.seq Regex.boundary (
        Regex.seq (no_case a) (Regex.seq (some_of is_space) (Regex.seq (no_case b) Regex.boundary)))

  abbrev one_word : String → Regex
  one_word a = Regex.seq Regex.boundary (Regex.seq (no_case a) Regex.boundary)

  abbrev clause_ends : List Regex
  clause_ends =
      one_word "limit"
      ∷ two_words "order" "by"
      ∷ two_words "group" "by"
      ∷ one_word "having"
      ∷ one_word "where"
      ∷ one_word "from"
      ∷ literal ")"
      ∷ []

  last_end : String → ℕ → List Cursor → ℕ
  last_end text best [] = best
  last_end text best (e ∷ es) = last_end text (size text - size e.rest) es

  cut_clause : String → String → List Regex → String
  unfolding last_end
  cut_clause sql truncated [] = concat (truncated ∷ "\n-- (SQL truncated)" ∷ [])
  cut_clause sql truncated (r ∷ rs) =
      let at = last_end truncated 0 (find_all u r truncated) in
      let later = cut_clause sql truncated rs in
      if ltb (half sql_max_chars) at
      then concat (prefix at sql ∷ "\n-- (SQL truncated)" ∷ [])
      else later

  -- `sql_for_check`
  unfoldable pub sql_for_check : String → String
  unfolding cut_clause
  sql_for_check sql =
      if ltb sql_max_chars (size sql)
      then cut_clause sql (prefix sql_max_chars sql) clause_ends
      else sql

module _ (text : Cell → String) where
  abbrev shown_value : Cell → String
  shown_value v =
      if ltb preview_value_max (size (text v))
      then concat (prefix preview_value_max (text v) ∷ "…" ∷ [])
      else text v

  abbrev shown_row : ℕ → List Cell → String
  shown_row n row = join ", " (map shown_value (take n row))

  -- `_build_data_preview`
  unfoldable pub build_data_preview : List (List Cell) → List String → String
  build_data_preview found columns =
      if is_nil found
      then "(empty result)"
      else join "\n" (
          join ", " (take 12 columns) ∷ map (shown_row (length (take 12 columns))) (take 5 found)
          ++ (if ltb 12 (length columns)
              then concat ("-- (" ∷ str (length columns - 12) ∷ " more columns not shown)" ∷ [])
                ∷ []
              else []))
