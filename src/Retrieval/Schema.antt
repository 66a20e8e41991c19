-- ===== src/Retrieval/Schema.antt =====
-- retrieval/schema.py: the metadata of a database, which the program caches once, and the DDL text
-- that is made of it. The sample rows, which are read from the database, are arguments where used.
use nl2sql_agent.Common.{
  String, Bool, not, List, [], ◌∷◌, ◌++◌, map, if◌then◌else◌, truthy, concat, join,
}
use nl2sql_agent.Common.Strings.{mem_text}
use nl2sql_agent.Agent.Dialect.{get_dialect_from_url}

-- A column as the inspector gives it; an absent `nullable` is true.
pub record Column : Type 0 where
  pub name : String
  pub type : String
  pub nullable : Bool

pub record ForeignKey : Type 0 where
  pub constrained_columns : List String
  pub referred_table : String
  pub referred_columns : List String

-- A table, under its name in lower case.
pub record TableInfo : Type 0 where
  pub key : String
  pub actual_name : String
  pub columns : List Column
  pub pk_cols : List String
  pub fk_cols : List String
  pub fks : List ForeignKey

abbrev pub column_names : List Column → List String
column_names [] = []
column_names (c ∷ cs) = c.name ∷ column_names cs

-- `"  " + " ".join(parts)` of one column.
unfoldable pub column_line : List String → Column → String
column_line pk_cols c = concat (
    "  "
    ∷ join " " (
        c.name ∷ c.type ∷ (if not c.nullable then "NOT NULL" ∷ [] else [])
        ++ (if mem_text c.name pk_cols then "PRIMARY KEY" ∷ [] else []))
    ∷ [])

unfoldable pub foreign_key_line : ForeignKey → String
foreign_key_line fk = concat (
    "  FOREIGN KEY ("
    ∷ join ", " fk.constrained_columns
    ∷ ") REFERENCES "
    ∷ fk.referred_table
    ∷ "("
    ∷ join ", " fk.referred_columns
    ∷ ")"
    ∷ [])

-- The `members` of a CREATE TABLE.
unfoldable pub members : TableInfo → List String
unfolding column_line foreign_key_line
members t = map (column_line t.pk_cols) t.columns ++ map foreign_key_line t.fks

table_lines : TableInfo → List String
unfolding members
table_lines t =
    concat ("CREATE TABLE " ∷ t.actual_name ∷ " (" ∷ []) ∷ join ",\n" (members t) ∷ ");\n" ∷ []

all_lines : List TableInfo → List String
unfolding table_lines
all_lines [] = []
all_lines (t ∷ ts) = table_lines t ++ all_lines ts

unfoldable pub get_schema_summary : (String → List TableInfo) → String → String
unfolding all_lines get_dialect_from_url
get_schema_summary schema_info url =
    if truthy url
    then join "\n" (
        concat ("-- SQL Dialect: " ∷ get_dialect_from_url url ∷ "\n" ∷ [])
        ∷ all_lines (schema_info url))
    else ""

-- A table's line of the catalogue that the retriever, the refiner and the pipeline append.
catalog_line : TableInfo → String
catalog_line t = concat ("  " ∷ t.actual_name ∷ "(" ∷ join ", " (column_names t.columns) ∷ ")" ∷ [])

unfoldable pub table_catalog : (String → List TableInfo) → String → String
unfolding catalog_line
table_catalog schema_info url =
    if truthy url
    then concat ("Tables:\n" ∷ join "\n" (map catalog_line (schema_info url)) ∷ [])
    else ""
