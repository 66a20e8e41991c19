-- ===== src/Agent/GenerateSql.antt =====
-- `generate_sql` of agent/generator_llm.py: one call of the model, whose query is dropped if it is
-- not safe. Arguments are the model and `Config.SQL_DIALECT`; the system message is a fixed template
-- filled with the dialect, which stands for it.
pub mod Safe
use nl2sql_agent.Common.{
  ℕ, String, Bool, ◌&&◌, Option, none, some, List, [], ◌∷◌, ◌++◌, if◌then◌else◌, truthy, concat,
  join,
}
use nl2sql_agent.Common.Strings.{upper}
use nl2sql_agent.Common.Result.{Result, ok, raised, ◌>>=◌}
use nl2sql_agent.Agent.State.{SubQuestion, TokenUsage, Issue}
use nl2sql_agent.Agent.ExtractSql.{extract_sql}
use nl2sql_agent.Agent.Generator.{
  Prompt, Reply, answer, failure, optional_part, sub_question_part, error_parts,
}
use nl2sql_agent.Guard.Sqlglot.{Sqlglot}
use nl2sql_agent.Guard.Safety.{SafetyResult, check_safety}

-- The arguments of the function; absent ones are "" and [].
pub record Request : Type 0 where
  pub schema_text : String
  pub user_question : String
  pub rag_context : String
  pub sample_rows_text : String
  pub last_error : String
  pub last_sql : String
  pub sub_questions : List SubQuestion
  pub dialect : String

pub record Generated : Type 0 where
  pub sql : String
  pub raw : String
  pub token_usage : TokenUsage

unfoldable pub request_parts : Request → List String
request_parts q =
    concat ("## SCHEMA\n" ∷ q.schema_text ∷ [])
    ∷ (optional_part "## SAMPLE ROWS\n" q.sample_rows_text
        ++ (optional_part "## RETRIEVED NOTES\n" q.rag_context
            ++ (sub_question_part q.sub_questions
                ++ (concat ("## USER QUESTION\n" ∷ q.user_question ∷ [])
                    ∷ error_parts q.last_error q.last_sql))))

unfoldable pub request_prompt : String → Request → Prompt
unfolding request_parts upper
request_prompt sql_dialect q = record {
  temperature = 0;
  dialect = upper (if truthy q.dialect then q.dialect else sql_dialect);
  message = join "\n\n" (request_parts q);
}

abbrev reason : List Issue → String
reason [] = "Unknown"
reason (i ∷ is) = i.detail

-- What is returned of a reply, by the safety check of its query.
unfoldable pub screened : String → String → TokenUsage → SafetyResult → Generated
screened sql raw usage s =
    if s.valid then record { sql = sql; raw = raw; token_usage = usage } else record {
      sql = "";
      raw =
          concat ("Validation failed: " ∷ reason s.issues ∷ "\n\nOriginal response:\n" ∷ raw ∷ []);
      token_usage = usage;
    }

module _ (sqlglot : Sqlglot) (sql_dialect : String) (chat : Prompt → Reply) where
  unfoldable pub read_reply : Reply → Result Generated
  unfolding screened
  read_reply (failure e) = raised e
  read_reply (answer raw usage) = check_safety sqlglot (extract_sql raw) "sqlite" >>= λ s.
      ok (screened (extract_sql raw) raw usage s)

  unfoldable pub generate_sql : Request → Result Generated
  unfolding read_reply request_prompt
  generate_sql q = read_reply (chat (request_prompt sql_dialect q))
