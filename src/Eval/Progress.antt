-- ===== src/Eval/Progress.antt =====
-- `TaskProgress` of evaluation/task_manager.py, and the dict that is stored of it.
use nl2sql_agent.Common.{
  ℕ, ◌≡◌, refl, String, Option, none, some, List, [], ◌∷◌, ◌==◌, if◌then◌else◌,
}

-- An entry of `configs`.
pub record ConfigEntry : Type 0 where
  pub name : String
  pub total : ℕ
  pub completed : ℕ
  pub passed : ℕ

pub record TaskProgress : Type 0 where
  pub task_id : String
  pub status : String
  pub experiment : String
  pub configs : List ConfigEntry
  pub current_config : String
  pub current_sample : ℕ
  pub total_configs : ℕ
  pub total_samples : ℕ
  pub overall_completed : ℕ
  pub overall_passed : ℕ
  pub created_at : String
  pub started_at : String
  pub completed_at : String
  pub report_dir : String
  pub error : String
  pub database_url : String

-- The values of the dict.
pub data Json : Type 0 where
  text : String → Json
  number : ℕ → Json
  entries : List ConfigEntry → Json

abbrev pub Dict : Type 0
Dict = List (String × Json)

unfoldable pub to_dict : TaskProgress → Dict
to_dict p =
    ("task_id", text p.task_id)
    ∷ ("status", text p.status)
    ∷ ("experiment", text p.experiment)
    ∷ ("configs", entries p.configs)
    ∷ ("current_config", text p.current_config)
    ∷ ("current_sample", number p.current_sample)
    ∷ ("total_configs", number p.total_configs)
    ∷ ("total_samples", number p.total_samples)
    ∷ ("overall_completed", number p.overall_completed)
    ∷ ("overall_passed", number p.overall_passed)
    ∷ ("created_at", text p.created_at)
    ∷ ("started_at", text p.started_at)
    ∷ ("completed_at", text p.completed_at)
    ∷ ("report_dir", text p.report_dir)
    ∷ ("error", text p.error)
    ∷ ("database_url", text p.database_url)
    ∷ []

-- `d.get(key)`
unfoldable pub get : String → Dict → Option Json
get key [] = none
get key ((k, v) ∷ d) = let later = get key d in if k == key then some v else later

-- `d.get(key, default)` for each kind of value; one of another kind does not occur in a dict that
-- the program wrote, and counts as absent here.
abbrev text_or : String → Option Json → String
text_or d (some (text s)) = s
text_or d (some (number n)) = d
text_or d (some (entries cs)) = d
text_or d none = d

abbrev number_or : Option Json → ℕ
number_or (some (number n)) = n
number_or (some (text s)) = 0
number_or (some (entries cs)) = 0
number_or none = 0

abbrev entries_or : Option Json → List ConfigEntry
entries_or (some (entries cs)) = cs
entries_or (some (text s)) = []
entries_or (some (number n)) = []
entries_or none = []

unfoldable pub from_dict : Dict → TaskProgress
unfolding get
from_dict d = record {
  task_id = text_or "" (get "task_id" d);
  status = text_or "pending" (get "status" d);
  experiment = text_or "" (get "experiment" d);
  configs = entries_or (get "configs" d);
  current_config = text_or "" (get "current_config" d);
  current_sample = number_or (get "current_sample" d);
  total_configs = number_or (get "total_configs" d);
  total_samples = number_or (get "total_samples" d);
  overall_completed = number_or (get "overall_completed" d);
  overall_passed = number_or (get "overall_passed" d);
  created_at = text_or "" (get "created_at" d);
  started_at = text_or "" (get "started_at" d);
  completed_at = text_or "" (get "completed_at" d);
  report_dir = text_or "" (get "report_dir" d);
  error = text_or "" (get "error" d);
  database_url = text_or "" (get "database_url" d);
}

-- A dict that is made of a progress is read back as that progress.
pub from_dict-to_dict : (p : TaskProgress) → from_dict (to_dict p) ≡ p
unfolding from_dict to_dict
from_dict-to_dict p = refl
