-- ===== src/Eval/Thread.antt =====
-- `_run_eval_thread` of evaluation/task_manager.py. The cancel event is set from one poll on: `polls`
-- is the number of that poll, and the thread counts the polls it makes. Arguments are the gold file,
-- the outcomes of the samples of each configuration in the order in which they complete, the report
-- that is written, and the time. Of a sample, whether it passed is kept; times, VES, tokens and the
-- tables of the report are left out.
pub mod Counts
pub mod Bounds
pub mod Kept
pub mod Completes
use nl2sql_agent.Common.{
  ℕ, zero, suc, ◌+◌, ◌*◌, String, Bool, true, false, Option, none, some, List, [], ◌∷◌, ◌++◌,
  if◌then◌else◌, leb, length, take, ◌==◌,
}
use nl2sql_agent.Common.Result.{Result, ok, raised}
use nl2sql_agent.Eval.Progress.{TaskProgress, ConfigEntry}
use nl2sql_agent.Eval.Store.{Store, load_task, modify}

-- The poll from which on the event is set, if there is one.
abbrev pub is_set : Option ℕ → ℕ → Bool
is_set none clock = false
is_set (some at) clock = leb at clock

-- A configuration: its name, and what its samples give.
pub record Config : Type 0 where
  pub name : String
  pub outcomes : List (Result Bool)

-- `sum(c.get("passed", 0) for c in sp.configs[:cfg_idx])`
abbrev pub passed_before : ℕ → List ConfigEntry → ℕ
passed_before zero cs = 0
passed_before (suc i) [] = 0
passed_before (suc i) (c ∷ cs) = c.passed + passed_before i cs

-- `sp.configs[cfg_idx]["completed"] = …` and `["passed"] = …`, within the bounds of the list.
unfoldable pub set_entry : ℕ → ℕ → ℕ → List ConfigEntry → List ConfigEntry
set_entry i completed passed [] = []
set_entry zero completed passed (c ∷ cs) = record c { completed = completed; passed = passed } ∷ cs
set_entry (suc i) completed passed (c ∷ cs) = c ∷ set_entry i completed passed cs

-- The counters of one configuration.
pub record Count : Type 0 where
  pub name : String
  pub index : ℕ
  pub n_cases : ℕ
  pub completed : ℕ
  pub passed : ℕ

-- `_update_progress` on the document.
unfoldable pub with_counts : Count → TaskProgress → TaskProgress
unfolding set_entry
with_counts c p = record p {
  current_config = c.name;
  current_sample = c.completed;
  overall_completed = c.index * c.n_cases + c.completed;
  overall_passed = passed_before c.index p.configs + c.passed;
  configs = set_entry c.index c.completed c.passed p.configs;
}

-- A sample that completed.
abbrev pub counted : Bool → Count → Count
counted ex c = record c {
  completed = suc c.completed;
  passed = if ex then suc c.passed else c.passed;
}

-- How the samples of a configuration end.
pub data SamplesEnd : Type 0 where
  finished : Count → SamplesEnd
  stopped : SamplesEnd
  crashed : String → SamplesEnd

-- The polls made so far and the store.
pub record Env : Type 0 where
  pub clock : ℕ
  pub store : Store

abbrev pub polled : Env → Env
polled e = record e { clock = suc e.clock }

-- What the thread writes at its end.
abbrev pub with_end : String → String → TaskProgress → TaskProgress
with_end status now p = record p { status = status; completed_at = now }

abbrev pub with_start : String → TaskProgress → TaskProgress
with_start now p = record p { status = "running"; started_at = now }

abbrev pub with_report : String → String → ℕ → TaskProgress → TaskProgress
with_report now path passed p = record p {
  status = "completed";
  completed_at = now;
  report_dir = path;
  overall_passed = passed;
}

abbrev pub with_error : String → TaskProgress → TaskProgress
with_error e p = record p { status = "failed"; error = e }

-- `all_results`, a dictionary by the name of the configuration: the samples that passed under each.
abbrev pub Results : Type 0
Results = List (String × ℕ)

-- `all_results[cfg_name] = …`: a second configuration of a name takes the place of the first.
unfoldable pub set_result : String → ℕ → Results → Results
set_result name passed [] = (name, passed) ∷ []
set_result name passed ((other, k) ∷ rs) =
    let rest = set_result name passed rs in
    if name == other then (other, passed) ∷ rs else (other, k) ∷ rest

-- `sum(r["passed"] for r in all_results.values())`
unfoldable pub sum_passed : Results → ℕ
sum_passed [] = 0
sum_passed ((name, k) ∷ rs) = k + sum_passed rs

module _ (task_id : String) (polls : Option ℕ) where
  abbrev pub update : (TaskProgress → TaskProgress) → Env → Env
  update f e = record e { store = modify task_id f e.store }

  -- The submissions of `n` samples, with a poll before each: how many were made.
  unfoldable pub submit : ℕ → ℕ → ℕ × ℕ
  submit zero clock = (0, clock)
  submit (suc n) clock =
      let rest = submit n (suc clock) in
      if is_set polls clock then (0, suc clock) else (suc rest.0, rest.1)

  -- The loop over `as_completed`, with a poll before each.
  unfoldable pub run_samples : List (Result Bool) → Count → Env → SamplesEnd × Env
  unfolding with_counts
  run_samples [] c e = (finished c, e)
  run_samples (raised x ∷ os) c e =
      if is_set polls e.clock then (stopped, polled e) else (crashed x, polled e)
  run_samples (ok ex ∷ os) c e =
      let rest = run_samples os (counted ex c) (update (with_counts (counted ex c)) (polled e)) in
      if is_set polls e.clock then (stopped, polled e) else rest

  -- How the configurations end: with the results of all, cancelled, or by an exception.
  pub data ConfigsEnd : Type 0 where
    all_done : Results → ConfigsEnd
    cancelled : ConfigsEnd
    raising : String → ConfigsEnd

  abbrev pub first_count : Config → ℕ → ℕ → Count
  first_count cfg index n = record {
    name = cfg.name;
    index = index;
    n_cases = n;
    completed = 0;
    passed = 0;
  }

  -- The samples of a configuration that starts: only those that were submitted complete.
  unfoldable pub run_config : Config → ℕ → ℕ → Env → SamplesEnd × Env
  unfolding submit run_samples
  run_config cfg index n e =
      let sent = submit n e.clock in
      run_samples (take sent.0 cfg.outcomes) (first_count cfg index n) (record e { clock = sent.1 })

  -- The loop over the configurations, with the results so far.
  unfoldable pub run_configs : List Config → ℕ → ℕ → Results → Env → ConfigsEnd × Env
  unfolding run_config set_result
  run_configs [] index n results e = (all_done results, e)
  run_configs (cfg ∷ cfgs) index n results e =
      let (ends, e') = run_config cfg index n (polled e) in
      let rest =
        λ (c : Count). run_configs cfgs (suc index) n (set_result cfg.name c.passed results) e' in
      if is_set polls e.clock then (cancelled, polled e) else elim ends [
        | finished c ↦ rest c
        | stopped ↦ (cancelled, e')
        | crashed x ↦ (raising x, e')
      ]

  module _ (now : String) (report : Result String) where
    abbrev pub fail : String → Env → Env
    fail x e = update (with_error x) e

    -- The end of the thread, with the report where all is done.
    unfoldable pub close : ConfigsEnd → Env → Env
    unfolding sum_passed
    close (all_done results) e = elim report [
      | ok path ↦ update (with_report now path (sum_passed results)) e
      | raised x ↦ fail x e
    ]
    close cancelled e = update (with_end "cancelled" now) e
    close (raising x) e = fail x e

    -- With the gold file read, the loop and the end.
    unfoldable pub run_gold : Result ℕ → List Config → Env → Env
    unfolding run_configs close
    run_gold (raised x) cfgs e = fail x e
    run_gold (ok n) cfgs e = let (ends, e') = run_configs cfgs 0 n [] e in close ends e'

    -- The thread on a store, from its first poll on.
    unfoldable pub run_eval_thread : Result ℕ → List Config → Store → Store
    unfolding run_gold
    run_eval_thread gold cfgs s = elim (load_task task_id s) [
      | none ↦ s
      | some p ↦
          (run_gold gold cfgs (update (with_start now) (record { clock = 0; store = s }))).store
    ]
