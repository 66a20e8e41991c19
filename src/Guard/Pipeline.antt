-- ===== src/Guard/Pipeline.antt =====
-- `run` of guard/error_classifier.py: retrieval, generation, review and execution with corrections.
-- Arguments are what it calls outside the models of this development: the retrieval of chunks
-- (`retrieve_bird` where there is a database id, `retrieve` where it is ""), the metadata and sample
-- rows of a database, and `review`.
pub mod Trail
pub mod Executed
pub mod Program
mod Tests
use nl2sql_agent.Common.{
  ℕ, zero, suc, ◌+◌, ◌*◌, String, Bool, true, false, not, ◌&&◌, ◌||◌, Option, none, some, List, [],
  ◌∷◌, ◌++◌, ◌==◌, if◌then◌else◌, eqb, truthy, concat, join, is_nil, map,
}
use nl2sql_agent.Common.Regex.{Unicode}
use nl2sql_agent.Common.Result.{Result, ok, raised, ◌>>=◌}
use nl2sql_agent.Agent.State.{Chunk, ExecResult, Issue, TokenUsage, add_tokens, no_tokens, error_of}
use nl2sql_agent.Agent.Dialect.{get_dialect_from_url}
use nl2sql_agent.Agent.GenerateSql.{Request, Generated}
use nl2sql_agent.Guard.Errors.{ErrorType, Hint, classify_exec_error, missing_column, missing_table}
use nl2sql_agent.Guard.Executor.{Execution}
use nl2sql_agent.Guard.Review.{Review}
use nl2sql_agent.Retrieval.Schema.{TableInfo, table_catalog, get_schema_summary}
use nl2sql_agent.Retrieval.Context.{Context, build_prompt_context}

-- The arguments of `run`; an absent database is "".
pub record Options : Type 0 where
  pub question : String
  pub rag_schema : Bool
  pub rag_domain : Bool
  pub reviewer_on : Bool
  pub k : ℕ
  pub database_url : String
  pub db_id : String

-- An entry of `exec_attempts`, without its number, which is its place.
pub record Attempt : Type 0 where
  pub sql : String
  pub execution : Execution

-- The variables of the function.
pub record Run : Type 0 where
  pub sql : String
  pub raw : String
  pub schema_text : String
  pub notes_text : String
  pub rag_chunks : List Chunk
  pub token_usage : TokenUsage
  pub review_rounds : List Review
  pub exec_result : Option ExecResult
  pub exec_attempts : List Attempt
  pub expanded_k : ℕ

-- What the pipeline calls.
pub record Calls : Type 0 where
  pub retrieve : String → String → ℕ → List Chunk
  pub schema_info : String → List TableInfo
  pub sample_rows : String → String
  pub generate : Request → Result Generated
  pub review : String → String → String → Result Review
  pub execute : String → String → Result Execution

abbrev issue_line : Issue → String
issue_line i = concat ("- [" ∷ i.kind ∷ "] " ∷ i.detail ∷ [])

-- `_format_review_feedback`
unfoldable pub format_review_feedback : Review → String
format_review_feedback r = join "\n" (
    "Reviewer found issues with your SQL:" ∷ map issue_line r.verdict.issues
    ++ (if truthy r.verdict.suggested_fix
        then concat ("\nSuggested fix: " ∷ r.verdict.suggested_fix ∷ []) ∷ []
        else []))

abbrev pub asks_expansion : ErrorType → Bool
asks_expansion missing_column = true
asks_expansion missing_table = true
asks_expansion _ = false

abbrev pub is_unexpanded : ℕ → ℕ → Bool
is_unexpanded expanded_k k = eqb expanded_k k

module _ (u : Unicode) (calls : Calls) (o : Options) where
  -- `_build_sample_rows`
  abbrev sample_rows_text : String
  sample_rows_text =
      if truthy o.database_url
      then join "\n\n" (
          map (λ (i : TableInfo). calls.sample_rows i.actual_name)
            (calls.schema_info o.database_url))
      else ""

  abbrev first_chunks : List Chunk
  first_chunks = if o.rag_schema || o.rag_domain then calls.retrieve o.question o.db_id o.k else []

  abbrev retrieved_schema : String
  retrieved_schema = if o.rag_schema then (build_prompt_context first_chunks).schema_text else ""

  abbrev first_schema : String
  first_schema =
      if truthy retrieved_schema
      then concat (retrieved_schema ∷ "\n\n" ∷ table_catalog calls.schema_info o.database_url ∷ [])
      else get_schema_summary calls.schema_info o.database_url

  abbrev dialect : String
  dialect = if truthy o.database_url then get_dialect_from_url o.database_url else ""

  -- A call of `generate_sql` in a state, with the feedback on the query before.
  abbrev pub request : Run → String → String → Request
  request r last_error last_sql = record {
    schema_text = r.schema_text;
    user_question = o.question;
    rag_context = r.notes_text;
    sample_rows_text = sample_rows_text;
    last_error = last_error;
    last_sql = last_sql;
    sub_questions = [];
    dialect = dialect;
  }

  abbrev pub generated : Run → Generated → Run
  generated r g = record r {
    sql = g.sql;
    raw = g.raw;
    token_usage = add_tokens r.token_usage g.token_usage;
  }

  unfoldable pub regenerate : Run → String → Result Run
  regenerate r feedback = calls.generate (request r feedback r.sql) >>= λ g. ok (generated r g)

  abbrev pub reviewed : Run → Review → Run
  reviewed r v = record r {
    review_rounds = r.review_rounds ++ v ∷ [];
    token_usage = add_tokens r.token_usage v.token_usage;
  }

  -- The review loop, with the rounds left.
  unfoldable pub review_loop : ℕ → Run → Result Run
  unfolding regenerate format_review_feedback
  review_loop zero r = ok r
  review_loop (suc n) r = calls.review r.sql r.schema_text r.notes_text >>= λ v.
      elim v.verdict.valid [
        | true ↦ ok (reviewed r v)
        | false ↦ regenerate (reviewed r v) (format_review_feedback v) >>= λ r'.
            elim (truthy r'.sql) [ true ↦ review_loop n r' | false ↦ ok r' ]
      ]

  abbrev expanded : Run → List Chunk → Context → Run
  expanded r chunks ctx = record r {
    expanded_k = o.k * 2;
    schema_text =
        if o.rag_schema && truthy ctx.schema_text
        then concat (ctx.schema_text ∷ "\n\n" ∷ table_catalog calls.schema_info o.database_url ∷ [])
        else r.schema_text;
    notes_text = if o.rag_domain && truthy ctx.notes_text then ctx.notes_text else r.notes_text;
    rag_chunks = chunks;
  }

  -- "P2: expand RAG context when column/table is missing"
  unfoldable pub expand_context : Run → ErrorType → Run
  expand_context r kind =
      let chunks = calls.retrieve o.question o.db_id (o.k * 2) in
      if asks_expansion kind && is_unexpanded r.expanded_k o.k
      then expanded r chunks (build_prompt_context chunks)
      else r

  -- `_format_exec_error`
  abbrev pub exec_error_text : String → Hint → String
  exec_error_text error h =
      concat
        ("The SQL execution failed with the following error:\n  " ∷ error ∷ "\n\n" ∷ h.text ∷ [])

  -- "Self-Correction: feed execution error back to Generator"
  unfoldable pub correct : Run → Result Run
  unfolding regenerate expand_context
  correct r =
      let error = error_of r.exec_result in
      classify_exec_error u error >>= λ h.
      regenerate (expand_context r h.kind) (exec_error_text error h)

  abbrev pub attempted : Run → Execution → Run
  attempted r x = record r {
    exec_result = some x.result;
    exec_attempts = r.exec_attempts ++ record { sql = r.sql; execution = x } ∷ [];
  }

  -- The execution loop, with the corrections left.
  unfoldable pub exec_loop : ℕ → Run → Result Run
  unfolding correct
  exec_loop zero r = calls.execute r.sql o.database_url >>= λ x. ok (attempted r x)
  exec_loop (suc n) r = calls.execute r.sql o.database_url >>= λ x. elim x.result.success [
    | true ↦ ok (attempted r x)
    | false ↦ correct (attempted r x) >>= λ r'. elim (truthy r'.sql) [
      | true ↦ exec_loop n r'
      | false ↦ ok r'
    ]
  ]

  abbrev pub initial : Run
  initial = record {
    sql = "";
    raw = "";
    schema_text = first_schema;
    notes_text = if o.rag_domain then (build_prompt_context first_chunks).notes_text else "";
    rag_chunks = first_chunks;
    token_usage = no_tokens;
    review_rounds = [];
    exec_result = none;
    exec_attempts = [];
    expanded_k = o.k;
  }

  unfoldable pub review_stage : Run → Result Run
  unfolding review_loop
  review_stage r = if o.reviewer_on && truthy r.sql then review_loop 2 r else ok r

  unfoldable pub exec_stage : Run → Result Run
  unfolding exec_loop
  exec_stage r = if truthy r.sql then exec_loop 2 r else ok r

  abbrev pub rag_k_expanded : Run → Option ℕ
  rag_k_expanded r = if is_unexpanded r.expanded_k o.k then none else some r.expanded_k

  -- The dict that is returned holds the fields of the last state.
  unfoldable pub run : Result Run
  unfolding regenerate
  run = regenerate initial "" >>= λ r. review_stage r >>= λ r'. exec_stage r'
