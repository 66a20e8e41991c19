-- ===== src/Guard/Sqlglot.antt =====
-- What the checks read from the parser sqlglot, a package: the statements' kinds, and of a tree the
-- names and aliases that `find_all` lists.
use nl2sql_agent.Common.{String, Option, List}
use nl2sql_agent.Common.Result.{Result}

-- An `exp.Table` node: `name` and `alias`, "" if absent.
pub record TableRef : Type 0 where
  pub name : String
  pub alias : String

-- An `exp.Column` node: `table` (its qualifier, "" if absent) and `name`.
pub record ColumnRef : Type 0 where
  pub table : String
  pub name : String

pub record Tree : Type 0 where
  pub cte_aliases : List String
  pub tables : List TableRef
  pub columns : List ColumnRef
  pub select_aliases : List String

-- `parse sql dialect` gives the `key` of each statement, `none` for an empty one; the dialect of a
-- call without `read` is "".
pub record Sqlglot : Type 0 where
  pub parse : String → String → Result (List (Option String))
  pub parse_one : String → String → Result Tree
