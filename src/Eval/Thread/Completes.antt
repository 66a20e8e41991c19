-- ===== src/Eval/Thread/Completes.antt =====
-- A task that nobody cancels.
use nl2sql_agent.Common.{
  ℕ, zero, suc, ◌+◌, ◌≡◌, refl, sym, ap, ◌∙◌, String, Bool, true, false, none, some, List, [], ◌∷◌,
  arith, All, length, take, if◌then◌else◌,
}
use mathlib.Core.Path.{subst}
use nl2sql_agent.Common.Result.{Result, ok, raised}
use nl2sql_agent.Eval.Progress.{TaskProgress}
use nl2sql_agent.Eval.Store.{Store, load_task}
use nl2sql_agent.Eval.Thread.{
  Config, Count, Env, SamplesEnd, finished, stopped, crashed, polled, counted, with_counts,
  with_start, with_report, update, submit, run_samples, run_config, ConfigsEnd, all_done, cancelled,
  raising, first_count, run_configs, close, run_gold, run_eval_thread, Results, set_result,
  sum_passed,
}
use nl2sql_agent.Eval.Thread.Counts.{IsStored, update-IsStored}
use nl2sql_agent.Eval.Thread.Bounds.{thread-there}
use nl2sql_agent.Eval.Thread.Kept.{has_name, kept, HasOwnNames, HasOwnNames-set, kept-set, kept-nil}

abbrev pub IsOk : Result Bool → Type 0
IsOk (ok ex) = Unit
IsOk (raised x) = ⊥

-- The samples that pass.
abbrev pub passes : List (Result Bool) → ℕ
passes [] = 0
passes (ok true ∷ os) = suc (passes os)
passes (ok false ∷ os) = passes os
passes (raised x ∷ os) = passes os

-- The samples that pass in all configurations, of those with one name in the last one only.
abbrev pub last_passes : List Config → ℕ
last_passes [] = 0
last_passes (cfg ∷ cfgs) =
    let rest = last_passes cfgs in
    if has_name cfg.name cfgs then rest else passes cfg.outcomes + rest

-- Every sample of a configuration gives a result, and there are `n` of them.
abbrev pub Answers : ℕ → Config → Type 0
Answers n cfg = All IsOk cfg.outcomes × (length cfg.outcomes ≡ n)

take-all : (os : List (Result Bool)) → take (length os) os ≡ os
take-all [] = refl
take-all (o ∷ os) = ap (λ xs. o ∷ xs) (take-all os)

passes-cons :
    (ex : Bool) (os : List (Result Bool)) (c : Count)
    → (counted ex c).passed + passes os ≡ c.passed + passes (ok ex ∷ os)
passes-cons true os c = omega arith
passes-cons false os c = omega arith

module _ (id : String) where
  -- The samples end with the passes added, and the document is still there.
  abbrev Finishes : SamplesEnd × Env → ℕ → Type 0
  Finishes r passed =
      (c : Count) × (r.0 ≡ finished c)
      × (c.passed ≡ passed)
      × (q : TaskProgress) × IsStored id none r.1 q

  run_samples-Finishes :
      (os : List (Result Bool)) (c : Count) (e : Env) (p : TaskProgress)
      → All IsOk os
      → IsStored id none e p
      → Finishes (run_samples id none os c e) (c.passed + passes os)
  unfolding run_samples with_counts
  run_samples-Finishes [] c e p all s = (c, refl, omega arith, p, s)
  run_samples-Finishes (raised x ∷ os) c e p all s = absurd (all.0)
  run_samples-Finishes (ok ex ∷ os) c e p all s = rw (← passes-cons ex os c) (
      run_samples-Finishes os (counted ex c)
        (update id none (with_counts (counted ex c)) (polled e)) (with_counts (counted ex c) p)
        all.1 (update-IsStored id none (with_counts (counted ex c)) (polled e) p (λ q. refl) s))

  submit-all : (n clock : ℕ) → (submit id none n clock).0 ≡ n
  unfolding submit
  submit-all zero clock = refl
  submit-all (suc n) clock = ap suc (submit-all n (suc clock))

  run_config-Finishes :
      (cfg : Config) (index n : ℕ) (e : Env) (p : TaskProgress)
      → Answers n cfg
      → IsStored id none e p
      → Finishes (run_config id none cfg index n e) (0 + passes cfg.outcomes)
  unfolding run_config
  run_config-Finishes cfg index n e p answers s =
      let sent = submit id none n e.clock in
      let whole : take sent.0 cfg.outcomes ≡ cfg.outcomes =
        ap (λ k. take k cfg.outcomes) (submit-all n e.clock ∙ sym answers.1)
        ∙ take-all cfg.outcomes in
      rw whole (
        run_samples-Finishes cfg.outcomes (first_count id none cfg index n)
          (record e { clock = sent.1 }) p answers.0 s)

  after_finished :
      (ends : SamplesEnd) (e : Env) (rest : Count → ConfigsEnd id none × Env) (c : Count)
      → ends ≡ finished c
      → elim ends [ finished c ↦ rest c | stopped ↦ (cancelled, e) | crashed x ↦ (raising x, e) ]
        ≡ rest c
  after_finished ends e rest c h =
      subst
        (λ ends.
          elim ends [ finished c ↦ rest c | stopped ↦ (cancelled, e) | crashed x ↦ (raising x, e) ]
          ≡ rest c)
        (sym h) refl

  abbrev Done : ConfigsEnd id none × Env → ℕ → Type 0
  Done r passed =
      (rs : Results) × (r.0 ≡ all_done rs)
      × (sum_passed rs ≡ passed)
      × (q : TaskProgress) × IsStored id none r.1 q

  run_configs-Done :
      (cfgs : List Config) (index n : ℕ) (rs : Results) (e : Env) (p : TaskProgress)
      → All (Answers n) cfgs
      → HasOwnNames rs
      → IsStored id none e p
      → Done (run_configs id none cfgs index n rs e) (kept rs cfgs + last_passes cfgs)
  unfolding run_configs
  run_configs-Done [] index n rs e p all own s = (rs, refl, omega (arith, kept-nil rs), p, s)
  run_configs-Done (cfg ∷ cfgs) index n rs e p all own s =
      let r = run_config id none cfg index n (polled e) in
      let (c, ends, passed, q, there) = run_config-Finishes cfg index n (polled e) p all.0 s in
      let next = set_result cfg.name c.passed rs in
      let rest = λ (c : Count).
        run_configs id none cfgs (suc index) n (set_result cfg.name c.passed rs) r.1 in
      let sum : kept rs (cfg ∷ cfgs) + last_passes (cfg ∷ cfgs)
          ≡ kept next cfgs + last_passes cfgs =
        ground (arith, passed, kept-set cfg cfgs c.passed rs own) in
      rw (sum, after_finished r.0 r.1 rest c ends)
        (run_configs-Done cfgs (suc index) n next r.1 q all.1
          (HasOwnNames-set cfg.name c.passed rs own) there)

  close-done :
      (now path : String) (rs : Results) (ends : ConfigsEnd id none) (e : Env) (p : TaskProgress)
      → ends ≡ all_done rs
      → IsStored id none e p
      → IsStored id none
          (close id none now (ok path) ends e)
          (with_report now path (sum_passed rs) p)
  unfolding close
  close-done now path rs ends e p h s =
      subst
        (λ x.
          IsStored id none (close id none now (ok path) x e)
            (with_report now path (sum_passed rs) p))
        (sym h) (update-IsStored id none (with_report now path (sum_passed rs)) e p (λ q. refl) s)

  -- If nobody cancels a task, every sample gives a result and the report is written, the task ends
  -- as completed, with the path of the report and the number of the samples that passed in all
  -- configurations; of configurations with the same name only the last one counts.
  pub run_eval_thread-completes :
      (now path : String) (n : ℕ) (cfgs : List Config) (s : Store) (p : TaskProgress)
      → load_task id s ≡ some p
      → p.task_id ≡ id
      → All (Answers n) cfgs
      → (q : TaskProgress) × (load_task id (run_eval_thread id none now (ok path) (ok n) cfgs s)
          ≡ some q)
        × (q.status ≡ "completed")
        × (q.report_dir ≡ path)
        × (q.overall_passed ≡ last_passes cfgs)
  unfolding run_gold
  run_eval_thread-completes now path n cfgs s p there named all =
      let e0 : Env = record { clock = 0; store = s } in
      let e = update id none (with_start now) e0 in
      let start = update-IsStored id none (with_start now) e0 p (λ q. refl) (there, named) in
      let r = run_configs id none cfgs 0 n [] e in
      let (rs, ends, passed, q, stored) =
        run_configs-Done cfgs 0 n [] e (with_start now p) all tt start in
      let final = close-done now path rs r.0 r.1 q ends stored in
      (
        with_report now path (sum_passed rs) q,
        rw (thread-there id none now (ok path) s p (ok n) cfgs there) final.0,
        refl,
        refl,
        omega (arith, passed),
      )
