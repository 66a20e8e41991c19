-- ===== src/Eval/Tests.antt =====
-- Concrete tasks of the evaluation.
use nl2sql_agent.Common.{◌≡◌, ◌≤◌, refl, true, false, none, some, List, [], ◌∷◌, arith, ℕ, ◌+◌}
use nl2sql_agent.Common.Result.{ok, raised}
use nl2sql_agent.Eval.Progress.{TaskProgress, from_dict, to_dict, from_dict-to_dict}
use nl2sql_agent.Eval.Store.{Store, save_task, load_task}
use nl2sql_agent.Eval.Manager.{
  World, Start, start_eval_task, begin_task, cancel_task, new_progress, is_task_running,
}
use nl2sql_agent.Eval.Manager.OneAtATime.{
  at_once, after, start, cancel, running, running_bounded, restart_after_cancel, Process, Reach,
  admit, register,
}
use nl2sql_agent.Eval.Thread.{Config, run_eval_thread}
use nl2sql_agent.Eval.Thread.Counts.{IsCounted}
use nl2sql_agent.Eval.Thread.Bounds.{run_eval_thread-IsCounted}
use nl2sql_agent.Eval.Thread.Completes.{run_eval_thread-completes}

abbrev empty : Store
empty = record { up = true; docs = λ id. none; ids = [] }

abbrev idle : World
idle = record { store = empty; active = [] }

-- Two samples under two configurations.
abbrev ablation : Start
ablation = record {
  task_id = "t1";
  gold = ok 2;
  config_names = "R0" ∷ "R1" ∷ [];
  experiment = "ablation";
  database_url = "";
  default_url = "sqlite:///shop.db";
  now = "2025-01-01";
}

abbrev again : Start
again = record ablation { task_id = "t2" }

abbrev created : TaskProgress
created = new_progress ablation 2

abbrev started : World
started = record {
  store = save_task created empty;
  active = record { id = "t1"; is_set = false } ∷ [];
}

abbrev restarted : World
restarted = record {
  store = save_task (new_progress again 2) started.store;
  active = record { id = "t1"; is_set = true } ∷ record { id = "t2"; is_set = false } ∷ [];
}

starts : start_eval_task ablation idle ≡ ok (started, "t1")
unfolding start_eval_task begin_task
starts = refl

restarts : start_eval_task again (cancel_task "t1" started).0 ≡ ok (restarted, "t2")
unfolding start_eval_task begin_task cancel_task
restarts = refl

-- Two starts that both look for a running task before either registers its own.
abbrev both : World
both = record {
  store = save_task (new_progress again 2) started.store;
  active = record { id = "t1"; is_set = false } ∷ record { id = "t2"; is_set = false } ∷ [];
}

abbrev with_starts : World → ℕ → Process
with_starts w f = record { world = w; in_flight = f }

none_running : is_task_running idle ≡ false
unfolding is_task_running
none_running = refl

begins : begin_task ablation idle ≡ ok (started, "t1")
unfolding begin_task
begins = refl

begins_too : begin_task again started ≡ ok (both, "t2")
unfolding begin_task
begins_too = refl

overlapping : Reach 2 (with_starts idle 0) (with_starts both 0)
overlapping = after _ _ (register again started both "t2" 0 begins_too) (
    after _ _ (register ablation idle started "t1" 1 begins) (
      after _ _ (admit idle 1 none_running (omega arith))
        (after _ _ (admit idle 0 none_running (omega arith)) at_once)))

two_running : running both.active ≡ 2
two_running = refl

running_bounded_example : running both.active + 0 ≤ 2
running_bounded_example = running_bounded refl refl overlapping

-- A start, a cancel and a start, one after the other.
one_by_one : Reach 1 (with_starts idle 0) (with_starts restarted 0)
one_by_one =
    after _ _ (start again (cancel_task "t1" started).0 restarted "t2" 0 restarts (omega arith)) (
      after _ _ (cancel "t1" (with_starts started 0))
        (after _ _ (start ablation idle started "t1" 0 starts (omega arith)) at_once))

restart_after_cancel_example :
    let w : World = record { store = empty; active = record { id = "t1"; is_set = false } ∷ [] } in
    (w' : World) × (start_eval_task again (cancel_task "t1" w).0 ≡ ok (w', "t2"))
    × (w'.active ≡ record { id = "t1"; is_set = true } ∷ record { id = "t2"; is_set = false } ∷ [])
restart_after_cancel_example = restart_after_cancel empty "t1" again 2 refl

abbrev configs : List Config
configs =
    record { name = "R0"; outcomes = ok true ∷ ok false ∷ [] }
    ∷ record { name = "R1"; outcomes = ok true ∷ ok true ∷ [] }
    ∷ []

abbrev stored : Store
stored = save_task created empty

loaded : load_task "t1" stored ≡ some created
unfolding load_task save_task new_progress from_dict to_dict
loaded = refl

created_counts : IsCounted 2 created
unfolding new_progress
created_counts = record {
  configs = (omega arith, (omega arith, tt));
  passed = omega arith;
  completed = omega arith;
}

-- Cancelled at the sixth poll, with a report that cannot be written.
run_eval_thread-IsCounted_example :
    (q : TaskProgress) × (load_task "t1"
        (run_eval_thread "t1" (some 6) "now" (raised "OSError") (ok 2) configs stored)
      ≡ some q)
    × IsCounted 2 q
unfolding new_progress
run_eval_thread-IsCounted_example =
    run_eval_thread-IsCounted "t1" (some 6) "now" (raised "OSError") 2 configs stored created loaded
      refl created_counts refl

-- A configuration runs again under its name.
abbrev repeated : List Config
repeated =
    record { name = "R0"; outcomes = ok true ∷ ok false ∷ [] }
    ∷ record { name = "R1"; outcomes = ok true ∷ ok true ∷ [] }
    ∷ record { name = "R1"; outcomes = ok false ∷ ok true ∷ [] }
    ∷ []

run_eval_thread-completes_example :
    (q : TaskProgress) × (load_task "t1"
        (run_eval_thread "t1" none "now" (ok "r.md") (ok 2) repeated stored)
      ≡ some q)
    × (q.status ≡ "completed")
    × (q.report_dir ≡ "r.md")
    × (q.overall_passed ≡ 2)
unfolding new_progress
run_eval_thread-completes_example =
    run_eval_thread-completes "t1" "now" "r.md" 2 repeated stored created loaded refl
      (((tt, (tt, tt)), refl), (((tt, (tt, tt)), refl), (((tt, (tt, tt)), refl), tt)))

from_dict-to_dict_example : from_dict (to_dict created) ≡ created
from_dict-to_dict_example = from_dict-to_dict created
