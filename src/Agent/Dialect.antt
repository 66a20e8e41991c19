-- ===== src/Agent/Dialect.antt =====
-- `get_dialect_from_url` of agent/generator_llm.py, and the dialect of a node's system message.
use text.Mathlib.Text.{starts_with}
use nl2sql_agent.Common.{String, truthy, if◌then◌else◌}

unfoldable pub get_dialect_from_url : String → String
get_dialect_from_url url =
    if starts_with url "postgresql"
    then "postgresql"
    else if starts_with url "mysql"
    then "mysql"
    else "sqlite"

-- `get_dialect_from_url(database_url) if database_url else None`, then `or Config.SQL_DIALECT`.
unfoldable pub prompt_dialect : String → String → String
unfolding get_dialect_from_url
prompt_dialect sql_dialect url = if truthy url then get_dialect_from_url url else sql_dialect
