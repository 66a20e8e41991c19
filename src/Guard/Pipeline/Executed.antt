-- ===== src/Guard/Pipeline/Executed.antt =====
-- The program's own pipeline: what it executes, and what the reviewer does to it.
use nl2sql_agent.Common.{
  ℕ, zero, suc, String, ◌≡◌, ◌⊎◌, inl, inr, ◌∙◌, true, ◌&&◌, All, All-append, Bool-cases, truthy,
  eq_iff, arith,
}
use nl2sql_agent.Common.Regex.{Unicode}
use nl2sql_agent.Common.Result.{ok, >>=-eq-ok, ok-injective}
use nl2sql_agent.Agent.State.{error_of}
use nl2sql_agent.Agent.GenerateSql.{Request, Generated}
use nl2sql_agent.Guard.Executor.{Execution}
use nl2sql_agent.Guard.Errors.{classify_exec_error}
use nl2sql_agent.Guard.Pipeline.{
  Options, Attempt, Run, Calls, regenerate, correct, attempted, exec_loop, exec_stage, review_stage,
  review_loop, run, expand_context, request, initial, exec_error_text, reviewed,
  format_review_feedback,
}
use nl2sql_agent.Guard.Pipeline.Trail.{regenerate-keeps, review_stage-keeps, correct-keeps}

-- A property that every query of the generation has, unless it is "", and one of the executions of
-- such queries.
module _ (u : Unicode) (calls : Calls) (o : Options) (G : String → Type 0) (P : Attempt → Type 0)
    (generates : (q : Request) (g : Generated) → calls.generate q ≡ ok g → (g.sql ≡ "") ⊎ G g.sql)
    (executes : (sql : String) (x : Execution)
      → G sql
      → calls.execute sql o.database_url ≡ ok x
      → P (record { sql = sql; execution = x })) where
  abbrev Fresh : Run → Type 0
  Fresh r = (r.sql ≡ "") ⊎ G r.sql

  filled-G : (r : Run) → Fresh r → truthy r.sql ≡ true → G r.sql
  filled-G r (inl blank) h = absurd (ground (arith, eq_iff r.sql ""))
  filled-G r (inr good) h = good

  regenerate-Fresh :
      (r t : Run) (feedback : String) → regenerate u calls o r feedback ≡ ok t → Fresh t
  unfolding regenerate
  regenerate-Fresh r t feedback h =
      let (g, made, e) = >>=-eq-ok (calls.generate (request u calls o r feedback r.sql)) _ h in
      rw (← ok-injective e) (generates (request u calls o r feedback r.sql) g made)

  correct-Fresh : (r t : Run) → correct u calls o r ≡ ok t → Fresh t
  unfolding correct
  correct-Fresh r t h =
      let (hint, _, e) = >>=-eq-ok (classify_exec_error u (error_of r.exec_result)) _ h in
      regenerate-Fresh (expand_context u calls o r hint.kind) t
        (exec_error_text u calls o (error_of r.exec_result) hint) e

  review_loop-Fresh : (n : ℕ) (r t : Run) → Fresh r → review_loop u calls o n r ≡ ok t → Fresh t
  unfolding review_loop
  review_loop-Fresh zero r t f h = rw (← ok-injective h) f
  review_loop-Fresh (suc n) r t f h =
      let (v, _, e) = >>=-eq-ok (calls.review r.sql r.schema_text r.notes_text) _ h in
      elim (Bool-cases v.verdict.valid) [
        | inl good ↦ rw (← ok-injective (rw good at e)) f
        | inr bad ↦
            let (r', g, e') =
              >>=-eq-ok (regenerate u calls o (reviewed u calls o r v) (format_review_feedback v)) _
                (rw bad at e) in
            let f' = regenerate-Fresh (reviewed u calls o r v) r' (format_review_feedback v) g in
            elim (Bool-cases (truthy r'.sql)) [
              | inl more ↦ review_loop-Fresh n r' t f' (rw more at e')
              | inr blank ↦ rw (← ok-injective (rw blank at e')) f'
            ]
      ]

  exec_loop-All :
      (n : ℕ) (r t : Run)
      → G r.sql
      → All P r.exec_attempts
      → exec_loop u calls o n r ≡ ok t
      → All P t.exec_attempts
  unfolding exec_loop
  exec_loop-All zero r t good all h =
      let (x, made, e) = >>=-eq-ok (calls.execute r.sql o.database_url) _ h in
      rw (← ok-injective e) (All-append P r.exec_attempts _ all (executes r.sql x good made, tt))
  exec_loop-All (suc n) r t good all h =
      let (x, made, e) = >>=-eq-ok (calls.execute r.sql o.database_url) _ h in
      let grown = All-append P r.exec_attempts _ all (executes r.sql x good made, tt) in
      elim (Bool-cases x.result.success) [
        | inl done ↦ rw (← ok-injective (rw done at e)) grown
        | inr failed ↦
            let (r', c, e') =
              >>=-eq-ok (correct u calls o (attempted u calls o r x)) _ (rw failed at e) in
            let kept = correct-keeps u calls o (attempted u calls o r x) r' c in
            elim (Bool-cases (truthy r'.sql)) [
              | inl more ↦
                  exec_loop-All n r' t
                    (filled-G r' (correct-Fresh (attempted u calls o r x) r' c) more)
                    (rw kept.0 grown) (rw more at e')
              | inr blank ↦ rw (← ok-injective (rw blank at e')) (rw kept.0 grown)
            ]
      ]

  review_stage-Fresh : (r t : Run) → Fresh r → review_stage u calls o r ≡ ok t → Fresh t
  unfolding review_stage
  review_stage-Fresh r t f h = elim (Bool-cases (o.reviewer_on && truthy r.sql)) [
    | inl on ↦ review_loop-Fresh 2 r t f (rw on at h)
    | inr off ↦ rw (← ok-injective (rw off at h)) f
  ]

  exec_stage-All :
      (r t : Run)
      → Fresh r
      → All P r.exec_attempts
      → exec_stage u calls o r ≡ ok t
      → All P t.exec_attempts
  unfolding exec_stage
  exec_stage-All r t f all h = elim (Bool-cases (truthy r.sql)) [
    | inl filled ↦ exec_loop-All 2 r t (filled-G r f filled) all (rw filled at h)
    | inr blank ↦ rw (← ok-injective (rw blank at h)) all
  ]

  -- The property holds of all that a run executes.
  pub run-All : (t : Run) → run u calls o ≡ ok t → All P t.exec_attempts
  unfolding run
  run-All t h =
      let (r, g, e) = >>=-eq-ok (regenerate u calls o (initial u calls o) "") _ h in
      let (r', v, e') = >>=-eq-ok (review_stage u calls o r) _ e in
      let first = regenerate-keeps u calls o (initial u calls o) r "" g in
      let second = review_stage-keeps u calls o r r' v in
      let nothing = second.0 ∙ first.0 in
      let fresh = review_stage-Fresh r r' (regenerate-Fresh (initial u calls o) r "" g) v in
      exec_stage-All r' t fresh (rw nothing tt) e'
