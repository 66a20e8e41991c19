-- ===== src/Retrieval/ColumnPrune.antt =====
-- retrieval/column_prune.py: the columns of a table that a question is about, with its keys, and the
-- DDL of those. The schema information of the database is an argument.
pub mod Kept
pub mod Ddl
mod Tests
use Prim.Native.Char.{Char, code}
use Prim.Native.String
use nl2sql_agent.Common.{
  ℕ, zero, suc, ◌+◌, ◌-◌, String, Bool, true, false, not, ◌&&◌, ◌||◌, Option, none, some, List, [],
  ◌∷◌, ◌++◌, ◌==◌, if◌then◌else◌, leb, ltb, eqb, length, take, is_nil, all, map, truthy, concat,
  join,
}
use nl2sql_agent.Common.Strings.{lower, mem_text}
use nl2sql_agent.Common.Sets.{add, sorted}
use nl2sql_agent.Common.Result.{Result, ok, raised, ◌>>=◌}
use nl2sql_agent.Agent.Dialect.{get_dialect_from_url}
use nl2sql_agent.Retrieval.Schema.{
  TableInfo, Column, ForeignKey, column_names, column_line, foreign_key_line,
}

abbrev is_word : Char → Bool
is_word ch =
    let c = code ch in
    (leb 97 c && leb c 122) || (leb 65 c && leb c 90) || (leb 48 c && leb c 57) || eqb c 95

abbrev is_chinese : Char → Bool
is_chinese c = leb 0x4E00 (code c) && leb (code c) 0x9FFF

abbrev single : Char → String
single c = String.◌∷◌ c ""

-- `re.findall("[…]+", text)` for one class of characters, after the run that was read so far.
runs : (Char → Bool) → String → String → List String
runs p run String.[] = if run == "" then [] else run ∷ []
runs p run (String.◌∷◌ c s) =
    let longer = runs p (String.◌++◌ run (single c)) s in
    let closed = runs p "" s in if p c then longer else if run == "" then closed else run ∷ closed

-- `seg[i : i + 2]` for each i but the last, and the characters of `seg`.
bigrams : String → List String
bigrams String.[] = []
bigrams (String.◌∷◌ c String.[]) = []
bigrams (String.◌∷◌ c (String.◌∷◌ d s)) = String.◌∷◌ c (single d) ∷ bigrams (String.◌∷◌ d s)

characters : String → List String
characters String.[] = []
characters (String.◌∷◌ c s) = single c ∷ characters s

unfoldable pub add_all : List String → List String → List String
add_all [] set = set
add_all (x ∷ xs) set = add_all xs (add x set)

chinese_tokens : List String → List String → List String
unfolding bigrams characters add_all
chinese_tokens [] set = set
chinese_tokens (seg ∷ segs) set =
    chinese_tokens segs (add_all (characters seg) (add_all (bigrams seg) set))

-- `_tokenize`
unfoldable pub tokenize : String → List String
unfolding runs chinese_tokens lower add_all
tokenize text = chinese_tokens (runs is_chinese "" text) (add_all (runs is_word "" (lower text)) [])

abbrev common : List String → List String → ℕ
common xs [] = 0
common xs (y ∷ ys) = if mem_text y xs then suc (common xs ys) else common xs ys

-- `_score_column`
unfoldable pub score_column : String → String → List String → ℕ
unfolding tokenize
score_column column table tokens = common tokens (tokenize (concat (table ∷ " " ∷ column ∷ [])))

unfoldable pub find_table : List TableInfo → String → Option TableInfo
find_table [] key = none
find_table (i ∷ is) key = if key == i.key then some i else find_table is key

-- `pk_cols | fk_cols`
unfoldable pub mandatory : TableInfo → List String
unfolding add_all
mandatory i = add_all i.fk_cols (add_all i.pk_cols [])

pub record Scored : Type 0 where
  pub score : ℕ
  pub name : String

abbrev pub names_of : List Scored → List String
names_of [] = []
names_of (x ∷ xs) = x.name ∷ names_of xs

-- The columns that are not mandatory, with their scores.
unfoldable pub scored_columns : String → List String → List String → List Column → List Scored
scored_columns t tokens keys [] = []
scored_columns t tokens keys (c ∷ cs) =
    let rest = scored_columns t tokens keys cs in
    if mem_text c.name keys
    then rest
    else record { score = score_column c.name t tokens; name = c.name } ∷ rest

-- `scored.sort(key=…, reverse=True)`: equal scores keep their order.
unfoldable pub insert_scored : Scored → List Scored → List Scored
insert_scored x [] = x ∷ []
insert_scored x (y ∷ ys) =
    let later = insert_scored x ys in if leb y.score x.score then x ∷ y ∷ ys else y ∷ later

unfoldable pub sort_scored : List Scored → List Scored
unfolding insert_scored
sort_scored [] = []
sort_scored (x ∷ xs) = insert_scored x (sort_scored xs)

-- The columns that are kept of one table that has more than the threshold.
unfoldable pub top_columns : String → List String → ℕ → TableInfo → List String
unfolding scored_columns sort_scored
top_columns t tokens max_cols i =
    sorted (mandatory i)
    ++ names_of (
        take (max_cols - length (mandatory i))
          (sort_scored (scored_columns t tokens (mandatory i) i.columns)))

-- The entry of the result for one table.
unfoldable pub prune_table : List TableInfo → List String → ℕ → ℕ → String → List String
unfolding top_columns find_table
prune_table schema tokens max_cols threshold t = elim (find_table schema (lower t)) [
  | none ↦ []
  | some i ↦
      if leb (length i.columns) threshold
      then column_names i.columns
      else top_columns t tokens max_cols i
]

-- The dict as a list of its entries, in the order of the tables.
unfoldable pub prune_columns :
    List TableInfo → String → List String → ℕ → ℕ → List (String × List String)
unfolding prune_table tokenize
prune_columns schema question names max_cols threshold =
    map (λ (t : String). (t, prune_table schema (tokenize question) max_cols threshold t)) names

abbrev lookup_or : List String → String → List (String × List String) → List String
lookup_or d t [] = d
lookup_or d t ((k, v) ∷ m) = if k == t then v else lookup_or d t m

-- `all_cols[name]`, where the last of several columns of one name counts.
unfoldable pub find_column : String → List Column → Option Column
find_column name [] = none
find_column name (c ∷ cs) = elim (find_column name cs) [
  | some d ↦ some d
  | none ↦ if name == c.name then some c else none
]

unfoldable pub kept_lines : TableInfo → List String → Result (List String)
unfolding find_column
kept_lines i [] = ok []
kept_lines i (name ∷ names) =
    let rest = kept_lines i names in
    elim (find_column name i.columns) [
      | none ↦ raised (concat ("KeyError: '" ∷ name ∷ "'" ∷ []))
      | some c ↦ rest >>= λ lines. ok (column_line i.pk_cols c ∷ lines)
    ]

-- A foreign key is declared if all of its own columns are kept; those that it refers to are not
-- asked for.
unfoldable pub kept_keys : List String → List ForeignKey → List String
kept_keys kept [] = []
kept_keys kept (fk ∷ fks) =
    let rest = kept_keys kept fks in
    if all (λ c. mem_text c kept) fk.constrained_columns then foreign_key_line fk ∷ rest else rest

unfoldable pub compact_table :
    List TableInfo → List (String × List String) → String → Result (List String)
unfolding kept_lines kept_keys find_table
compact_table schema pruned t = elim (find_table schema (lower t)) [
  | none ↦ ok []
  | some i ↦
      let kept = lookup_or (column_names i.columns) t pruned in
      kept_lines i kept >>= λ lines. ok (
        concat ("CREATE TABLE " ∷ t ∷ " (" ∷ [])
        ∷ join ",\n" (lines ++ kept_keys kept i.fks)
        ∷ ");"
        ∷ [])
]

unfoldable pub compact_tables :
    List TableInfo → List (String × List String) → List String → Result (List String)
unfolding compact_table
compact_tables schema pruned [] = ok []
compact_tables schema pruned (t ∷ ts) =
    let rest = compact_tables schema pruned ts in
    compact_table schema pruned t >>= λ lines. rest >>= λ more. ok (lines ++ more)

unfoldable pub build_compact_ddl :
    List TableInfo → String → List String → List (String × List String) → Result String
unfolding compact_tables get_dialect_from_url
build_compact_ddl schema url names pruned = compact_tables schema pruned names >>= λ lines.
    ok (join "\n" (concat ("-- SQL Dialect: " ∷ get_dialect_from_url url ∷ []) ∷ lines))
