-- ===== src/Agent/Graph/Correction.antt =====
-- What of an error reaches the model in the next round: the states between two generations.
use nl2sql_agent.Common.{
  String, ◌≡◌, refl, true, false, some, none, List, [], ◌∷◌, ◌++◌, arith, truthy, concat, eq_iff,
  inl, inr, Bool-cases, eqb, leb, ap, ◌∙◌, ◌+◌, Option, truthy-append,
}
use nl2sql_agent.Common.Result.{Result, ok, raised}
use nl2sql_agent.Agent.State.{AgentState, failed_sql, error_of}
use nl2sql_agent.Agent.Generator.{
  Prompt, Reply, answer, failure, prompt_parts, generator_node, error_parts, single, several, ask,
  Gathered, text_or_empty, context_parts,
}
use nl2sql_agent.Agent.Guard.{guard_node}
use nl2sql_agent.Agent.Semantic.{semantic_check_node}
use nl2sql_agent.Agent.Refiner.{Feedback, Knowledge, refiner_node, header, corrected}
use nl2sql_agent.Agent.Refiner.Expansion.{refiner_node-returns}
use nl2sql_agent.Agent.Graph.{after_refiner}
use nl2sql_agent.Guard.Sqlglot.{Sqlglot}
use nl2sql_agent.Retrieval.Schema.{TableInfo}

-- The state of the round that follows a refiner, for the type of the error.
abbrev corrected_round : Feedback → Knowledge → String → AgentState → AgentState
corrected_round feedback knowledge hint s = after_refiner (corrected feedback knowledge hint s)

-- The prompt does not show the last error.
abbrev pub IsSilent : AgentState → Type 0
IsSilent s = prompt_parts s ≡ prompt_parts (record s { last_error = "" })

truthy-header : (s : AgentState) → truthy (header s) ≡ true
unfolding header
truthy-header s = elim (Bool-cases (leb (s.max_retries + 1) (s.retry_count + 1))) [
  | inl last ↦ rw last (truthy-append "## CORRECTION " _ refl)
  | inr more ↦ rw more (truthy-append "## CORRECTION " _ refl)
]

module _ (chat : Prompt → Reply) (extract : String → String) (dialect : String) where
  single-last_sql :
      (s t : AgentState) (r : Reply) → single chat extract dialect s r ≡ ok t → t.last_sql ≡ some ""
  unfolding single
  single-last_sql s t (failure e) h = absurd (cc)
  single-last_sql s t (answer raw used) h = ground arith

  several-last_sql :
      (s t : AgentState) (r : Result Gathered)
      → several chat extract dialect s r ≡ ok t
      → t.last_sql ≡ some ""
  unfolding several
  several-last_sql s t (raised e) h = absurd (cc)
  several-last_sql s t (ok g) h = ground arith

  single-null_sql :
      (s t : AgentState) (r : Reply) → single chat extract dialect s r ≡ ok t → t.null_sql ≡ false
  unfolding single
  single-null_sql s t (failure e) h = absurd (cc)
  single-null_sql s t (answer raw used) h = ground arith

  several-null_sql :
      (s t : AgentState) (r : Result Gathered)
      → several chat extract dialect s r ≡ ok t
      → t.null_sql ≡ false
  unfolding several
  several-null_sql s t (raised e) h = absurd (cc)
  several-null_sql s t (ok g) h = ground arith

  generator-null_sql :
      (s t : AgentState) → generator_node chat extract dialect s ≡ ok t → t.null_sql ≡ false
  unfolding generator_node
  generator-null_sql s t h = elim (Bool-cases (eqb s.retry_count 0)) [
    | inl first ↦ single-null_sql s t (ask chat extract dialect s 0) (rw first at h)
    | inr later ↦ several-null_sql s t _ (rw later at h)
  ]

  generator-last_sql :
      (s t : AgentState) → generator_node chat extract dialect s ≡ ok t → t.last_sql ≡ some ""
  unfolding generator_node
  generator-last_sql s t h = elim (Bool-cases (eqb s.retry_count 0)) [
    | inl first ↦ single-last_sql s t (ask chat extract dialect s 0) (rw first at h)
    | inr later ↦ several-last_sql s t _ (rw later at h)
  ]

guard-null_sql :
    (sqlglot : Sqlglot) (info : String → List TableInfo) (s t : AgentState)
    → guard_node sqlglot info s ≡ ok t
    → t.null_sql ≡ s.null_sql
unfolding guard_node
guard-null_sql sqlglot info s t h = ground arith

guard-last_sql :
    (sqlglot : Sqlglot) (info : String → List TableInfo) (s t : AgentState)
    → guard_node sqlglot info s ≡ ok t
    → t.last_sql ≡ s.last_sql
unfolding guard_node
guard-last_sql sqlglot info s t h = ground arith

error_parts-blank :
    (e : String) (o : Option String) → o ≡ some "" → error_parts e (text_or_empty o) ≡ []
error_parts-blank e none h = absurd (cc)
error_parts-blank e (some t) h = ground (arith, eq_iff t "")

-- Without a failed SQL to show, the prompt leaves the error out too.
IsSilent-of_no_sql : (s : AgentState) → s.last_sql ≡ some "" → IsSilent s
unfolding prompt_parts
IsSilent-of_no_sql s h =
    ap (λ ps. ps ++ context_parts s) (error_parts-blank s.last_error s.last_sql h)

failed_sql-some : (s : AgentState) (sql : String) → s.last_sql ≡ some sql → failed_sql s ≡ sql
failed_sql-some s sql h = ground arith

-- A refiner that finds no failed SQL writes feedback, and the next prompt is silent about it.
refined-IsSilent :
    (feedback : Feedback) (knowledge : Knowledge) (hint : String) (u : AgentState)
    → u.last_sql ≡ some ""
    → (truthy (corrected_round feedback knowledge hint u).last_error ≡ true)
      × IsSilent (corrected_round feedback knowledge hint u)
unfolding after_refiner corrected
refined-IsSilent feedback knowledge hint u h = (
  truthy-append (header u) _ (truthy-header u),
  IsSilent-of_no_sql _ (ap some (failed_sql-some u "" h)),
)

module _ (chat : Prompt → Reply) (extract : String → String) (dialect : String) (sqlglot : Sqlglot)
    (info : String → List TableInfo) (feedback : Feedback) (knowledge : Knowledge) where
  -- A generation, a guard's verdict and a refiner in a row, where the classification of the error of
  -- the last execution, if there is one, returns: the refiner has written feedback that is not empty,
  -- but the next round's prompt is the one that it would be without it. So the model is not told what
  -- the guard found.
  pub guard_feedback_lost :
      (s t u : AgentState) (hint : String)
      → generator_node chat extract dialect s ≡ ok t
      → guard_node sqlglot info t ≡ ok u
      → knowledge.classify (error_of u.exec_result) ≡ ok hint
      → (v : AgentState) × (refiner_node feedback knowledge u ≡ ok v)
        × (truthy (after_refiner v).last_error ≡ true)
        × IsSilent (after_refiner v)
  guard_feedback_lost s t u hint g v e =
      let there = generator-null_sql chat extract dialect s t g in
      let (written, silent) =
        refined-IsSilent feedback knowledge hint u
          (guard-last_sql sqlglot info t u v ∙ generator-last_sql chat extract dialect s t g) in
      (
        corrected feedback knowledge hint u,
        refiner_node-returns feedback knowledge u hint (guard-null_sql sqlglot info t u v ∙ there)
            e,
        written,
        silent,
      )

rejected-last_sql :
    (check : AgentState → Reply) (s : AgentState)
    → (semantic_check_node check s).semantic_pass ≡ false
    → (truthy s.sql ≡ true) × ((semantic_check_node check s).last_sql ≡ some s.sql)
unfolding semantic_check_node
rejected-last_sql check s h = ground arith

-- A state whose prompt begins with the last error and the last SQL.
abbrev pub Shows : AgentState → String → Type 0
Shows s sql =
    prompt_parts s
    ≡ concat ("## LAST_ERROR\n" ∷ s.last_error ∷ [])
      ∷ concat ("## LAST_SQL\n" ∷ sql ∷ [])
      ∷ context_parts s

error_parts-shown :
    (e : String) (o : Option String) (sql : String)
    → truthy e ≡ true
    → truthy sql ≡ true
    → o ≡ some sql
    → error_parts e (text_or_empty o)
      ≡ concat ("## LAST_ERROR\n" ∷ e ∷ []) ∷ concat ("## LAST_SQL\n" ∷ sql ∷ []) ∷ []
error_parts-shown e o sql a b h = rw h (rw (a, b))

Shows-of_sql :
    (s : AgentState) (sql : String)
    → truthy s.last_error ≡ true
    → truthy sql ≡ true
    → s.last_sql ≡ some sql
    → Shows s sql
unfolding prompt_parts
Shows-of_sql s sql e q h =
    ap (λ ps. ps ++ context_parts s) (error_parts-shown s.last_error s.last_sql sql e q h)

-- A refiner that finds a failed SQL writes feedback, and the next prompt shows both.
refined-Shows :
    (feedback : Feedback) (knowledge : Knowledge) (hint : String) (u : AgentState) (sql : String)
    → truthy sql ≡ true
    → u.last_sql ≡ some sql
    → Shows (corrected_round feedback knowledge hint u) sql
unfolding after_refiner corrected
refined-Shows feedback knowledge hint u sql q h =
    Shows-of_sql _ sql (truthy-append (header u) _ (truthy-header u)) q
      (ap some (failed_sql-some u sql h))

rejected-null_sql :
    (check : AgentState → Reply) (s : AgentState)
    → (semantic_check_node check s).semantic_pass ≡ false
    → (semantic_check_node check s).null_sql ≡ false
unfolding semantic_check_node
rejected-null_sql check s h = ground arith

-- When the semantic check rejects and the classification of the error of the last execution, if there
-- is one, returns, the next round's prompt begins with the feedback that the refiner wrote and the
-- SQL that was rejected.
pub semantic_feedback_shown :
    (check : AgentState → Reply) (feedback : Feedback) (knowledge : Knowledge) (s : AgentState)
    (hint : String)
    → (semantic_check_node check s).semantic_pass ≡ false
    → knowledge.classify (error_of (semantic_check_node check s).exec_result) ≡ ok hint
    → (v : AgentState) × (refiner_node feedback knowledge (semantic_check_node check s) ≡ ok v)
      × Shows (after_refiner v) s.sql
semantic_feedback_shown check feedback knowledge s hint h e =
    let (full, last) = rejected-last_sql check s h in
    let u = semantic_check_node check s in
    (
      corrected feedback knowledge hint u,
      refiner_node-returns feedback knowledge u hint (rejected-null_sql check s h) e,
      refined-Shows feedback knowledge hint u s.sql full last,
    )
