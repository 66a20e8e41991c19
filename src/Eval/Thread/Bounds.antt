-- ===== src/Eval/Thread/Bounds.antt =====
-- Whatever happens to a task, its counters keep their order.
use nl2sql_agent.Common.{
  ℕ, zero, suc, ◌+◌, ◌*◌, ◌≤◌, ◌≡◌, refl, String, Option, some, List, [], ◌∷◌, arith, length,
  length-take, take, Bool-cases, inl, inr,
}
use nl2sql_agent.Common.Result.{Result, ok, raised}
use nl2sql_agent.Eval.Progress.{TaskProgress}
use nl2sql_agent.Eval.Store.{Store, load_task}
use nl2sql_agent.Eval.Thread.{
  is_set, Config, Count, Env, SamplesEnd, finished, stopped, crashed, polled, with_end, with_start,
  with_report, with_error, update, submit, run_config, ConfigsEnd, all_done, cancelled, raising,
  first_count, run_configs, close, run_gold, run_eval_thread, Results, set_result, sum_passed,
}
use nl2sql_agent.Eval.Thread.Counts.{
  IsCounted, IsWithin, IsStored, update-IsStored, SamplesPost, run_samples-post,
}

module _ (id : String) (polls : Option ℕ) where
  set_result-le :
      (name : String) (k : ℕ) (rs : Results) → sum_passed (set_result name k rs) ≤ sum_passed rs + k
  unfolding set_result sum_passed
  set_result-le name k [] = omega arith
  set_result-le name k ((other, j) ∷ rs) = ground (arith, set_result-le name k rs)

  set_none : sum_passed [] ≤ 0
  unfolding sum_passed
  set_none = omega arith

  submit-le : (n clock : ℕ) → (submit id polls n clock).0 ≤ n
  unfolding submit
  submit-le zero clock = omega arith
  submit-le (suc n) clock = ground (arith, submit-le n (suc clock))

  run_config-post :
      (before total : ℕ) (cfg : Config) (index n : ℕ) (e : Env) (p : TaskProgress)
      → IsWithin before (first_count id polls cfg index n) p
      → p.total_samples ≡ total
      → IsStored id polls e p
      → let r = run_config id polls cfg index n e in
        (q : TaskProgress) × IsStored id polls r.1 q
        × SamplesPost id polls n total index before r.0 q
  unfolding run_config
  run_config-post before total cfg index n e p w all s =
      let sent = submit id polls n e.clock in
      let few = submit-le n e.clock in
      let some_of = length-take sent.0 cfg.outcomes in
      run_samples-post id polls before total (take sent.0 cfg.outcomes)
        (first_count id polls cfg index n) (record e { clock = sent.1 }) p (omega arith) w all s

  ConfigsPost : ℕ → ℕ → ConfigsEnd id polls → TaskProgress → Type 0
  ConfigsPost n total (all_done results) q =
      IsCounted n q × (sum_passed results ≤ q.overall_completed)
  ConfigsPost n total cancelled q = IsCounted n q
  ConfigsPost n total (raising x) q = IsCounted n q

  -- The document at an end of the loop over the configurations.
  AtEnd : ℕ → ℕ → ConfigsEnd id polls × Env → Type 0
  AtEnd n total r = (q : TaskProgress) × IsStored id polls r.1 q × ConfigsPost n total r.0 q

  after_config :
      (before total index n : ℕ) (ends : SamplesEnd) (e : Env)
      (rest : Count → ConfigsEnd id polls × Env)
      → ((q : TaskProgress) × IsStored id polls e q
          × SamplesPost id polls n total index before ends q)
      → ((c : Count) (q : TaskProgress)
          → IsStored id polls e q
          → SamplesPost id polls n total index before (finished c) q
          → AtEnd n total (rest c))
      → AtEnd n total (elim ends [
        | finished c ↦ rest c
        | stopped ↦ (cancelled, e)
        | crashed x ↦ (raising x, e)
      ])
  unfolding AtEnd ConfigsPost SamplesPost
  after_config before total index n (finished c) e rest at step = step c at.0 at.1 at.2
  after_config before total index n stopped e rest at step = at
  after_config before total index n (crashed x) e rest at step = at

  next_earlier :
      (before index n : ℕ) (c : Count)
      → before ≤ index * n
      → c.passed ≤ c.completed
      → c.completed ≤ n
      → before + c.passed ≤ suc index * n
  next_earlier before index n c a b d = grind arith

  run_configs-post :
      (cfgs : List Config) (index n total before : ℕ) (results : Results) (e : Env)
      (p : TaskProgress)
      → IsCounted n p
      → p.total_samples ≡ total
      → (index + length cfgs) * n ≤ total
      → sum_passed results ≤ before
      → before ≤ index * n
      → before ≤ p.overall_completed
      → IsStored id polls e p
      → AtEnd n total (run_configs id polls cfgs index n results e)
  unfolding run_configs AtEnd ConfigsPost SamplesPost
  run_configs-post [] index n total before results e p counts all room summed earlier seen s =
      (p, s, (counts, omega (arith, summed, seen)))
  run_configs-post (cfg ∷ cfgs) index n total before results e p counts all room summed earlier seen
        s =
      elim (Bool-cases (is_set polls e.clock)) [
        | inl set ↦ rw set (p, s, counts)
        | inr free ↦
            let within : IsWithin before (first_count id polls cfg index n) p = record {
              counts = counts;
              passes = omega arith;
              room = grind arith;
              earlier = earlier;
              seen = omega arith;
            } in
            let r = run_config id polls cfg index n (polled e) in
            rw free (
              after_config before total index n r.0 r.1
                (λ c.
                  run_configs id polls cfgs (suc index) n (set_result cfg.name c.passed results)
                    r.1)
                (run_config-post before total cfg index n (polled e) p within all s)
                (λ c q t post.
                  let (w, cases, at, le, kept) = post in
                  let sum = set_result-le cfg.name c.passed results in
                  run_configs-post cfgs (suc index) n total (before + c.passed)
                    (set_result cfg.name c.passed results) r.1 q (rw (← cases) w.counts) kept
                    (grind arith) (omega (arith, sum, summed))
                    (next_earlier before index n c earlier w.passes le) w.seen t))
      ]

  module _ (now : String) (report : Result String) where
    close-post :
        (n total : ℕ) (ends : ConfigsEnd id polls) (e : Env)
        → AtEnd n total (ends, e)
        → (q : TaskProgress) × IsStored id polls (close id polls now report ends e) q
          × IsCounted n q
    unfolding close AtEnd ConfigsPost
    close-post n total (all_done results) e (q, s, (counts, seen)) =
        elim report
          as (λ r.
            (q : TaskProgress) × IsStored id polls
              (elim r [
                | ok path ↦ update id polls (with_report now path (sum_passed results)) e
                | raised x ↦ update id polls (with_error x) e
              ])
              q
            × IsCounted n q) [
              | ok path ↦ (
                with_report now path (sum_passed results) q,
                update-IsStored id polls (with_report now path (sum_passed results)) e q (λ t. refl)
                    s,
                record { configs = counts.configs; passed = seen; completed = counts.completed },
              )
              | raised x ↦ (
                with_error x q,
                update-IsStored id polls (with_error x) e q (λ t. refl) s,
                record {
                  configs = counts.configs;
                  passed = counts.passed;
                  completed = counts.completed;
                },
              )
            ]
    close-post n total cancelled e (q, s, counts) = (
      with_end "cancelled" now q,
      update-IsStored id polls (with_end "cancelled" now) e q (λ t. refl) s,
      record { configs = counts.configs; passed = counts.passed; completed = counts.completed },
    )
    close-post n total (raising x) e (q, s, counts) = (
      with_error x q,
      update-IsStored id polls (with_error x) e q (λ t. refl) s,
      record { configs = counts.configs; passed = counts.passed; completed = counts.completed },
    )

    pub thread-there :
        (s : Store) (p : TaskProgress) (gold : Result ℕ) (cfgs : List Config)
        → load_task id s ≡ some p
        → run_eval_thread id polls now report gold cfgs s
          ≡ (run_gold id polls now report gold cfgs
              (update id polls (with_start now) (record { clock = 0; store = s }))).store
    unfolding run_eval_thread
    thread-there s p gold cfgs there = rw (there, run_eval_thread) refl

    -- A task whose document has the counters of a start, with as many samples as the gold file and
    -- the configurations make, has a document after its thread, whenever it is cancelled and
    -- whatever the samples and the report do: with at most as many samples passed as completed, at
    -- most as many completed as there are, and no configuration with more passes than samples.
    pub run_eval_thread-IsCounted :
        (n : ℕ) (cfgs : List Config) (s : Store) (p : TaskProgress)
        → load_task id s ≡ some p
        → p.task_id ≡ id
        → IsCounted n p
        → p.total_samples ≡ n * length cfgs
        → (q : TaskProgress) × (load_task id (run_eval_thread id polls now report (ok n) cfgs s)
            ≡ some q)
          × IsCounted n q
    unfolding run_gold AtEnd
    run_eval_thread-IsCounted n cfgs s p there named counts all =
        let e = update id polls (with_start now) (record { clock = 0; store = s }) in
        let start =
          update-IsStored id polls (with_start now) (record { clock = 0; store = s }) p (λ q. refl)
            (there, named) in
        let fresh : IsCounted n (with_start now p) = record {
          configs = counts.configs;
          passed = counts.passed;
          completed = counts.completed;
        } in
        let r = run_configs id polls cfgs 0 n [] e in
        let empty : sum_passed [] ≤ 0 = set_none in
        let ends =
          run_configs-post cfgs 0 n (n * length cfgs) 0 [] e (with_start now p) fresh all
            (grind arith) empty (omega arith) (omega arith) start in
        let (q, stored, counted) = close-post n (n * length cfgs) r.0 r.1 ends in
        (q, rw (thread-there s p (ok n) cfgs there) stored.0, counted)
