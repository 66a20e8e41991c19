-- ===== src/Retrieval/FkExpand.antt =====
-- retrieval/fk_expand.py: the tables one foreign key away from those that were retrieved. Arguments
-- are the schema information of the database and the sample rows of a table. A set of names is a list
-- in the order of first insertion; the order in which Python lists it is not fixed.
pub mod Joins
use nl2sql_agent.Common.{
  String, Bool, true, false, not, ◌&&◌, ◌||◌, Option, none, some, List, [], ◌∷◌, ◌++◌, ◌==◌,
  if◌then◌else◌, is_nil, truthy, concat, join,
}
use nl2sql_agent.Common.Strings.{lower, mem_text}
use nl2sql_agent.Common.Sets.{add}
use nl2sql_agent.Agent.Dialect.{get_dialect_from_url}
use nl2sql_agent.Agent.State.{Chunk}
use nl2sql_agent.Retrieval.Schema.{TableInfo, ForeignKey, members}

abbrev pub keys : List TableInfo → List String
keys [] = []
keys (i ∷ is) = i.key ∷ keys is

-- The tables of the database that foreign keys refer to.
unfoldable pub targets : List String → List ForeignKey → List String
targets known [] = []
targets known (fk ∷ fks) =
    let rest = targets known fks in
    if mem_text (lower fk.referred_table) known then lower fk.referred_table ∷ rest else rest

-- `graph[key]["references"]` and `graph[key]["referenced_by"]` of `_build_graph`, empty for a key
-- that the graph does not have.
unfoldable pub references : List String → List TableInfo → String → List String
unfolding targets
references known [] key = []
references known (i ∷ is) key =
    let rest = references known is key in if key == i.key then targets known i.fks ++ rest else rest

unfoldable pub referenced_by : List String → List TableInfo → String → List String
unfolding targets
referenced_by known [] key = []
referenced_by known (i ∷ is) key =
    let rest = referenced_by known is key in
    if mem_text key (targets known i.fks) then i.key ∷ rest else rest

-- `found |= names`
unfoldable pub union : List String → List String → List String
union [] found = found
union (n ∷ names) found = union names (add n found)

unfoldable pub expand_from : List TableInfo → List String → List String → List String
unfolding union references referenced_by
expand_from schema [] found = found
expand_from schema (t ∷ ts) found = expand_from schema ts (
    union (referenced_by (keys schema) schema (lower t))
      (union (references (keys schema) schema (lower t)) found))

unfoldable pub expand_tables : List TableInfo → List String → List String
unfolding expand_from union
expand_tables schema selected = expand_from schema selected (union selected [])

abbrev find_table : List TableInfo → String → Option TableInfo
find_table [] key = none
find_table (i ∷ is) key = if key == i.key then some i else find_table is key

-- `_parse_matched_tables`, from the names found so far on.
unfoldable pub matched_from : List String → List Chunk → List String
matched_from found [] = found
matched_from found (c ∷ cs) =
    matched_from
      (if truthy c.table_name && not (mem_text c.table_name found)
        then found ++ c.table_name ∷ []
        else found)
      cs

abbrev missing : List String → List String → List String
missing matched [] = []
missing matched (t ∷ ts) = if mem_text t matched then missing matched ts else t ∷ missing matched ts

module _ (samples : String → String) where
  -- The lines of one table, with its sample rows.
  unfoldable pub ddl_lines : List TableInfo → String → List String
  unfolding members
  ddl_lines schema t = elim (find_table schema (lower t)) [
    | none ↦ []
    | some i ↦
        concat ("CREATE TABLE " ∷ i.actual_name ∷ " (" ∷ [])
        ∷ join ",\n" (members i)
        ∷ ");"
        ∷ concat (samples i.actual_name ∷ "\n" ∷ [])
        ∷ []
  ]

  abbrev all_ddl : List TableInfo → List String → List String
  all_ddl schema [] = []
  all_ddl schema (t ∷ ts) = ddl_lines schema t ++ all_ddl schema ts

  unfoldable pub build_ddl_for_tables : (String → List TableInfo) → List String → String → String
  unfolding ddl_lines get_dialect_from_url
  build_ddl_for_tables schema_info names url =
      if is_nil names || not (truthy url)
      then ""
      else join "\n" (
          concat ("-- SQL Dialect: " ∷ get_dialect_from_url url ∷ "\n" ∷ [])
          ∷ all_ddl (schema_info url) names)

  abbrev with_missing : (String → List TableInfo) → String → String → List String → String
  with_missing schema_info url schema_text [] = schema_text
  with_missing schema_info url schema_text (t ∷ ts) = concat (
      schema_text
      ∷ "\n\n-- FK-expanded tables (1-hop JOIN paths)\n"
      ∷ build_ddl_for_tables schema_info (t ∷ ts) url
      ∷ [])

  unfoldable pub expand_schema_text :
      (String → List TableInfo) → String → List Chunk → String → String
  unfolding matched_from expand_tables
  expand_schema_text schema_info schema_text chunks url =
      let matched = matched_from [] chunks in
      if is_nil matched
      then schema_text
      else with_missing schema_info url schema_text
          (missing matched (expand_tables (schema_info url) matched))
