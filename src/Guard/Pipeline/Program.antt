-- ===== src/Guard/Pipeline/Program.antt =====
-- The pipeline with the program's own generation, review and execution.
use nl2sql_agent.Common.{
  ℕ, String, ◌≡◌, inl, inr, sym, ap, ◌∙◌, true, none, List, [], Bool-cases, truthy, eq_iff, arith,
}
use nl2sql_agent.Common.Regex.{Unicode}
use nl2sql_agent.Common.Result.{ok, >>=-eq-ok, ok-injective}
use nl2sql_agent.Agent.State.{Chunk, Issue}
use nl2sql_agent.Agent.Generator.{Prompt, Reply}
use nl2sql_agent.Agent.GenerateSql.{generate_sql}
use nl2sql_agent.Guard.Sqlglot.{Sqlglot}
use nl2sql_agent.Guard.Executor.{Answer, execute_sql}
use nl2sql_agent.Guard.Review.{Verdict, review}
use nl2sql_agent.Guard.Review.Raises.{review-raises}
use nl2sql_agent.Guard.Pipeline.{
  Options, Run, Calls, regenerate, review_loop, review_stage, exec_stage, run, initial,
}
use nl2sql_agent.Guard.Pipeline.Trail.{regenerate-keeps}
use nl2sql_agent.Retrieval.Schema.{TableInfo}

-- What is not the program's own code, and the parts of it that are not modelled.
pub record Outside : Type 0 where
  pub sqlglot : Sqlglot
  pub sql_dialect : String
  pub chat : Prompt → Reply
  pub connect : String → String → Answer
  pub retrieve : String → String → ℕ → List Chunk
  pub schema_info : String → List TableInfo
  pub sample_rows : String → String
  pub hard_check : String → String → List Issue
  pub extract_json : String → Verdict
  pub json : List Issue → String
  pub ask_reviewer : String → String → Reply

module _ (u : Unicode) (x : Outside) where
  -- `review` is called with the dialect that is its default, and `execute_sql` with its row cap.
  abbrev pub program_calls : Calls
  program_calls = record {
    retrieve = x.retrieve;
    schema_info = x.schema_info;
    sample_rows = x.sample_rows;
    generate = generate_sql x.sqlglot x.sql_dialect x.chat;
    review = λ sql schema notes.
        review x.hard_check x.extract_json x.json x.ask_reviewer sql schema notes "sqlite";
    execute = λ sql url. execute_sql u x.sqlglot x.connect sql 1000 url;
  }

  reviewed-blank :
      (o : Options) (r t : Run)
      → o.reviewer_on ≡ true
      → review_stage u program_calls o r ≡ ok t
      → (t.sql ≡ "") × (t ≡ r)
  unfolding review_stage review_loop
  reviewed-blank o r t on h = elim (Bool-cases (truthy r.sql)) [
    | inl filled ↦
        let raises =
          review-raises x.hard_check x.extract_json x.json x.ask_reviewer r.sql r.schema_text
            r.notes_text "sqlite" in
        absurd (cc (rw (on, filled, raises) at h))
    | inr blank ↦
        let same = ok-injective (rw (on, blank) at h) in
        (rw (← same) (ground (arith, eq_iff r.sql "")), sym same)
  ]

  exec_stage-blank :
      (o : Options) (r t : Run) → r.sql ≡ "" → exec_stage u program_calls o r ≡ ok t → r ≡ t
  unfolding exec_stage
  exec_stage-blank o r t blank h = elim (Bool-cases (truthy r.sql)) [
    | inl filled ↦ absurd (ground (arith, eq_iff r.sql ""))
    | inr none_left ↦ ok-injective (rw none_left at h)
  ]

  -- With the reviewer on, the pipeline executes nothing: if it returns at all, the query is "" and
  -- there is no result.
  pub run-reviewer :
      (o : Options) (t : Run)
      → o.reviewer_on ≡ true
      → run u program_calls o ≡ ok t
      → (t.sql ≡ "") × (t.exec_attempts ≡ []) × (t.exec_result ≡ none)
  unfolding run
  run-reviewer o t on h =
      let (r, g, e) = >>=-eq-ok (regenerate u program_calls o (initial u program_calls o) "") _ h in
      let (r', v, e') = >>=-eq-ok (review_stage u program_calls o r) _ e in
      let kept = regenerate-keeps u program_calls o (initial u program_calls o) r "" g in
      let (blank, same) = reviewed-blank o r r' on v in
      let end = exec_stage-blank o r' t blank e' in
      (
        ap (λ (y : Run). y.sql) (sym end) ∙ blank,
        ap (λ (y : Run). y.exec_attempts) (sym end ∙ same) ∙ kept.0,
        ap (λ (y : Run). y.exec_result) (sym end ∙ same) ∙ kept.1,
      )
