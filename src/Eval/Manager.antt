-- ===== src/Eval/Manager.antt =====
-- The public operations of evaluation/task_manager.py on its cancel events. Arguments of a start are
-- the new id, the number of gold samples or the exception of reading them, and the time. A start
-- looks for a running task first and registers its own later, and its endpoint runs in a thread pool:
-- `start_eval_task` is a start that no other overlaps, and `is_task_running` and `begin_task` are the
-- two halves between which others can come.
pub mod OneAtATime
use nl2sql_agent.Common.{
  ℕ, ◌*◌, String, Bool, true, false, not, ◌&&◌, Option, none, some, List, [], ◌∷◌, ◌++◌, ◌==◌,
  if◌then◌else◌, any, length, truthy, map,
}
use nl2sql_agent.Common.Result.{Result, ok, raised, ◌>>=◌}
use nl2sql_agent.Eval.Progress.{TaskProgress, ConfigEntry}
use nl2sql_agent.Eval.Store.{Store, save_task}

-- An entry of `_active_tasks`: a task and whether its cancel event is set.
pub record Active : Type 0 where
  pub id : String
  pub is_set : Bool

pub record World : Type 0 where
  pub store : Store
  pub active : List Active

unfoldable pub is_task_running : World → Bool
is_task_running w = any (λ (a : Active). not a.is_set) w.active

abbrev has_id : String → List Active → Bool
has_id id as_ = any (λ (a : Active). a.id == id) as_

unfoldable pub set_event : String → List Active → List Active
set_event id [] = []
set_event id (a ∷ as_) =
    if a.id == id then record a { is_set = true } ∷ as_ else a ∷ set_event id as_

unfoldable pub cancel_task : String → World → World × Bool
unfolding set_event
cancel_task id w =
    if has_id id w.active then (record w { active = set_event id w.active }, true) else (w, false)

-- The first task whose event is not set.
unfoldable pub first_running : List Active → Option String
first_running [] = none
first_running (a ∷ as_) = let later = first_running as_ in if a.is_set then later else some a.id

-- `_active_tasks[task_id] = event`, under an id that is new.
abbrev with_active : String → World → World
with_active id w = record w { active = w.active ++ record { id = id; is_set = false } ∷ [] }

-- `_active_tasks.pop(task_id, None)`, at the end of the thread.
unfoldable pub drop_active : String → List Active → List Active
drop_active id [] = []
drop_active id (a ∷ as_) = if a.id == id then drop_active id as_ else a ∷ drop_active id as_

-- The arguments of `start_eval_task`, with what it reads besides.
pub record Start : Type 0 where
  pub task_id : String
  pub gold : Result ℕ
  pub config_names : List String
  pub experiment : String
  pub database_url : String
  pub default_url : String
  pub now : String

unfoldable pub new_progress : Start → ℕ → TaskProgress
new_progress a n = record {
  task_id = a.task_id;
  status = "pending";
  experiment = a.experiment;
  configs =
      map (λ (name : String). record { name = name; total = n; completed = 0; passed = 0 })
        a.config_names;
  current_config = "";
  current_sample = 0;
  total_configs = length a.config_names;
  total_samples = n * length a.config_names;
  overall_completed = 0;
  overall_passed = 0;
  created_at = a.now;
  started_at = "";
  completed_at = "";
  report_dir = "";
  error = "";
  database_url = if truthy a.database_url then a.database_url else a.default_url;
}

-- What a start does once it has found no running task: the thread begins when it returns.
unfoldable pub begin_task : Start → World → Result (World × String)
unfolding new_progress
begin_task a w = a.gold >>= λ n.
    ok
      (with_active a.task_id (record w { store = save_task (new_progress a n) w.store }), a.task_id)

-- The running task, or the error that the code calls unreachable.
abbrev running_one : World → Option String → Result (World × String)
running_one w none = raised "RuntimeError: An evaluation task is already running"
running_one w (some id) = ok (w, id)

unfoldable pub start_eval_task : Start → World → Result (World × String)
unfolding begin_task first_running is_task_running
start_eval_task a w =
    if is_task_running w then running_one w (first_running w.active) else begin_task a w
