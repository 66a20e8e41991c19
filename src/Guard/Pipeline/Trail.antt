-- ===== src/Guard/Pipeline/Trail.antt =====
-- The attempts that a run of the pipeline has made, and how they end.
use nl2sql_agent.Agent.State.{error_of}
use nl2sql_agent.Guard.Errors.{ErrorType, classify_exec_error}
use nl2sql_agent.Common.{
  ℕ, zero, suc, ◌+◌, ◌≤◌, ◌≡◌, ◌⊎◌, inl, inr, refl, sym, ap, ◌∙◌, String, true, false, some, none,
  List, [], ◌∷◌, ◌++◌, arith, All, All-append, length, length-append, Bool-cases, truthy, eq_iff,
  if_cases, ◌&&◌,
}
use nl2sql_agent.Common.Regex.{Unicode}
use nl2sql_agent.Common.Result.{ok, >>=-eq-ok, ok-injective}
use nl2sql_agent.Guard.Executor.{Execution}
use nl2sql_agent.Guard.Pipeline.{
  Options, Attempt, Run, Calls, regenerate, correct, attempted, exec_loop, exec_stage, review_stage,
  run, expand_context, request, asks_expansion, is_unexpanded, exec_error_text, review_loop,
  reviewed, format_review_feedback, initial,
}

abbrev pub IsFailed : Attempt → Type 0
IsFailed a = a.execution.result.success ≡ false

-- After failed attempts `prior` and `last`: the result is that of the last one; if it succeeded its
-- query is the one returned, and if it failed then all three were made or no query came back.
abbrev pub Ends : ℕ → List Attempt → Attempt → Run → Type 0
Ends limit prior last r =
    (r.exec_attempts ≡ prior ++ last ∷ [])
    × All IsFailed prior
    × (length r.exec_attempts ≤ limit)
    × (r.exec_result ≡ some last.execution.result)
    × (last.execution.result.success ≡ true → r.sql ≡ last.sql)
    × (IsFailed last → (length r.exec_attempts ≡ limit) ⊎ (r.sql ≡ ""))

abbrev pub IsTrail : ℕ → Run → Type 0
IsTrail limit r = (prior : List Attempt) × (last : Attempt) × Ends limit prior last r

-- Nothing was executed between two states.
abbrev pub Untouched : Run → Run → Type 0
Untouched r t = (t.exec_attempts ≡ r.exec_attempts) × (t.exec_result ≡ r.exec_result)

eq-Untouched : (s : Run) {r t : Run} → Untouched s r → r ≡ t → Untouched s t
eq-Untouched s same e = (
  ap (λ (x : Run). x.exec_attempts) (sym e) ∙ same.0,
  ap (λ (x : Run). x.exec_result) (sym e) ∙ same.1,
)

module _ (u : Unicode) (calls : Calls) (o : Options) where
  pub regenerate-keeps :
      (r t : Run) (feedback : String) → regenerate u calls o r feedback ≡ ok t → Untouched r t
  unfolding regenerate
  regenerate-keeps r t feedback h =
      let (g, _, e) = >>=-eq-ok (calls.generate (request u calls o r feedback r.sql)) _ h in
      eq-Untouched r (refl, refl) (ok-injective e)

  expand_context-keeps :
      (r : Run) (kind : ErrorType) → let t = expand_context u calls o r kind in Untouched r t
  unfolding expand_context
  expand_context-keeps r kind =
      if_cases (λ (t : Run). Untouched r t) (asks_expansion kind && is_unexpanded r.expanded_k o.k)
        _ _ (λ _. (refl, refl)) (λ _. (refl, refl))

  pub correct-keeps : (r t : Run) → correct u calls o r ≡ ok t → Untouched r t
  unfolding correct
  correct-keeps r t h =
      let (hint, _, e) = >>=-eq-ok (classify_exec_error u (error_of r.exec_result)) _ h in
      let kept =
        regenerate-keeps (expand_context u calls o r hint.kind) t
          (exec_error_text u calls o (error_of r.exec_result) hint) e in
      let same = expand_context-keeps r hint.kind in (kept.0 ∙ same.0, kept.1 ∙ same.1)

  -- The loop stops here, with `last` as its last attempt.
  stops :
      (limit : ℕ) (r t : Run) (x : Execution)
      → All IsFailed r.exec_attempts
      → t.exec_attempts ≡ (attempted u calls o r x).exec_attempts
      → t.exec_result ≡ some x.result
      → length r.exec_attempts + 1 ≤ limit
      → (x.result.success ≡ true → t.sql ≡ r.sql)
      → (x.result.success ≡ false → (length r.exec_attempts + 1 ≡ limit) ⊎ (t.sql ≡ ""))
      → IsTrail limit t
  stops limit r t x failed same result few won lost =
      let last : Attempt = record { sql = r.sql; execution = x } in
      let grown = length-append r.exec_attempts (last ∷ []) in
      (
        r.exec_attempts,
        last,
        (
          same,
          failed,
          rw same (omega arith),
          result,
          won,
          λ h. elim (lost h) [
            | inl all ↦ inl (rw same (omega arith))
            | inr none_left ↦ inr none_left
          ],
        ),
      )

  exec_loop-Ends :
      (n limit : ℕ) (r t : Run)
      → All IsFailed r.exec_attempts
      → length r.exec_attempts + n + 1 ≡ limit
      → exec_loop u calls o n r ≡ ok t
      → IsTrail limit t
  unfolding exec_loop
  exec_loop-Ends zero limit r t failed few h =
      let (x, _, e) = >>=-eq-ok (calls.execute r.sql o.database_url) _ h in
      rw (← ok-injective e) (
        stops limit r (attempted u calls o r x) x failed refl refl (omega arith) (λ _. refl)
          (λ _. inl (omega arith)))
  exec_loop-Ends (suc n) limit r t failed few h =
      let (x, _, e) = >>=-eq-ok (calls.execute r.sql o.database_url) _ h in
      elim (Bool-cases x.result.success) [
        | inl good ↦ rw (← ok-injective (rw good at e)) (
            stops limit r (attempted u calls o r x) x failed refl refl (omega arith) (λ _. refl)
              (λ bad. absurd (cc (good, bad))))
        | inr bad ↦
            let (r', c, e') =
              >>=-eq-ok (correct u calls o (attempted u calls o r x)) _ (rw bad at e) in
            let kept = correct-keeps (attempted u calls o r x) r' c in
            elim (Bool-cases (truthy r'.sql)) [
              | inl more ↦
                  exec_loop-Ends n limit r' t
                    (rw kept.0 (All-append IsFailed r.exec_attempts _ failed (bad, tt)))
                    (rw kept.0 (omega (arith, length-append {0} r.exec_attempts _))) (rw more at e')
              | inr blank ↦ rw (← ok-injective (rw blank at e')) (
                  stops limit r r' x failed kept.0 kept.1 (omega arith)
                    (λ good. absurd (cc (good, bad))) (λ _. inr (ground (arith, eq_iff r'.sql ""))))
            ]
      ]

  review_loop-keeps : (n : ℕ) (r t : Run) → review_loop u calls o n r ≡ ok t → Untouched r t
  unfolding review_loop
  review_loop-keeps zero r t h = eq-Untouched r (refl, refl) (ok-injective h)
  review_loop-keeps (suc n) r t h =
      let (v, _, e) = >>=-eq-ok (calls.review r.sql r.schema_text r.notes_text) _ h in
      elim (Bool-cases v.verdict.valid) [
        | inl good ↦ eq-Untouched r (refl, refl) (ok-injective (rw good at e))
        | inr bad ↦
            let (r', g, e') =
              >>=-eq-ok (regenerate u calls o (reviewed u calls o r v) (format_review_feedback v)) _
                (rw bad at e) in
            let kept = regenerate-keeps (reviewed u calls o r v) r' (format_review_feedback v) g in
            elim (Bool-cases (truthy r'.sql)) [
              | inl more ↦
                  let later = review_loop-keeps n r' t (rw more at e') in
                  (later.0 ∙ kept.0, later.1 ∙ kept.1)
              | inr blank ↦ eq-Untouched r kept (ok-injective (rw blank at e'))
            ]
      ]

  pub review_stage-keeps : (r t : Run) → review_stage u calls o r ≡ ok t → Untouched r t
  unfolding review_stage
  review_stage-keeps r t h = elim (Bool-cases (o.reviewer_on && truthy r.sql)) [
    | inl on ↦ review_loop-keeps 2 r t (rw on at h)
    | inr off ↦ eq-Untouched r (refl, refl) (ok-injective (rw off at h))
  ]

  exec_stage-Ends :
      (r t : Run)
      → r.exec_attempts ≡ []
      → r.exec_result ≡ none
      → exec_stage u calls o r ≡ ok t
      → ((t.sql ≡ "") × (t.exec_attempts ≡ []) × (t.exec_result ≡ none)) ⊎ IsTrail 3 t
  unfolding exec_stage
  exec_stage-Ends r t no_attempts no_result h = elim (Bool-cases (truthy r.sql)) [
    | inl filled ↦
        inr (exec_loop-Ends 2 3 r t (rw no_attempts tt) (rw no_attempts refl) (rw filled at h))
    | inr blank ↦
        let same = ok-injective (rw blank at h) in
        inl (rw (← same) (ground (arith, eq_iff r.sql ""), no_attempts, no_result))
  ]

  -- When the pipeline returns, either no query came out of generation and review, and none was
  -- executed; or one to three were executed, all but the last failed, the result is that of the last
  -- one, the query returned is the last one if it succeeded, and if it failed then three were
  -- executed or the last correction gave no query.
  pub run-IsTrail :
      (t : Run)
      → run u calls o ≡ ok t
      → ((t.sql ≡ "") × (t.exec_attempts ≡ []) × (t.exec_result ≡ none)) ⊎ IsTrail 3 t
  unfolding run
  run-IsTrail t h =
      let (r, g, e) = >>=-eq-ok (regenerate u calls o (initial u calls o) "") _ h in
      let (r', v, e') = >>=-eq-ok (review_stage u calls o r) _ e in
      let first = regenerate-keeps (initial u calls o) r "" g in
      let second = review_stage-keeps r r' v in
      exec_stage-Ends r' t (second.0 ∙ first.0) (second.1 ∙ first.1) e'
