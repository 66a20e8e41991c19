-- ===== src/Eval/Store.antt =====
-- The Redis side of evaluation/task_manager.py: documents under task ids and the set of the ids.
-- A document that expires is gone; JSON is read back as it was written.
use Prim.Native.Nat.{Ordering}
use Prim.Native.String.{compare}
use nl2sql_agent.Common.{
  ℕ, ◌≡◌, refl, ap, ◌∙◌, String, Bool, true, Option, none, some, List, [], ◌∷◌, ◌==◌, eq_refl,
  if◌then◌else◌, Bool-cases, Option-cases, inl, inr,
}
use mathlib.Core.Option
use nl2sql_agent.Common.Sets.{add}
use nl2sql_agent.Eval.Progress.{TaskProgress, to_dict, from_dict, from_dict-to_dict, Dict}

-- `up` says whether Redis is reached.
pub record Store : Type 0 where
  pub up : Bool
  pub docs : String → Option Dict
  pub ids : List String

abbrev write : (String → Option Dict) → String → Option Dict → String → Option Dict
write docs id d k = if k == id then d else docs k

-- `_save_task`
unfoldable pub save_task : TaskProgress → Store → Store
save_task p s =
    if s.up
    then record s { docs = write s.docs p.task_id (some (to_dict p)); ids = add p.task_id s.ids }
    else s

abbrev read : Option Dict → Option TaskProgress
read none = none
read (some d) = some (from_dict d)

-- `_load_task` and `get_task_status`
unfoldable pub load_task : String → Store → Option TaskProgress
load_task id s = if s.up then read (s.docs id) else none

-- "Read, change, save", where nothing is done to a task that is not there.
unfoldable pub modify : String → (TaskProgress → TaskProgress) → Store → Store
modify id f s = elim (load_task id s) [ none ↦ s | some p ↦ save_task (f p) s ]

-- The time to live of a document runs out.
unfoldable pub expire : String → Store → Store
expire id s = record s { docs = write s.docs id none }

pub record Summary : Type 0 where
  pub task_id : String
  pub status : String
  pub experiment : String
  pub overall_completed : ℕ
  pub total_samples : ℕ
  pub overall_passed : ℕ
  pub created_at : String
  pub completed_at : String

unfoldable pub summary : TaskProgress → Summary
summary p = record {
  task_id = p.task_id;
  status = p.status;
  experiment = p.experiment;
  overall_completed = p.overall_completed;
  total_samples = p.total_samples;
  overall_passed = p.overall_passed;
  created_at = p.created_at;
  completed_at = p.completed_at;
}

-- `tasks.sort(key=…["created_at"], reverse=True)`
insert_summary : Summary → List Summary → List Summary
insert_summary x [] = x ∷ []
insert_summary x (y ∷ ys) =
    let later = insert_summary x ys in
    elim (compare y.created_at x.created_at) [ Ordering.gt ↦ y ∷ later | _ ↦ x ∷ y ∷ ys ]

sort_summaries : List Summary → List Summary
unfolding insert_summary
sort_summaries [] = []
sort_summaries (x ∷ xs) = insert_summary x (sort_summaries xs)

-- The documents that are there, and the ids of those that are not, which are removed.
unfoldable pub live : Store → List String → List Summary
unfolding summary load_task
live s [] = []
live s (id ∷ ids) = elim (load_task id s) [ none ↦ live s ids | some p ↦ summary p ∷ live s ids ]

unfoldable pub kept_ids : Store → List String → List String
unfolding load_task
kept_ids s [] = []
kept_ids s (id ∷ ids) = elim (load_task id s) [
  | none ↦ kept_ids s ids
  | some p ↦ id ∷ kept_ids s ids
]

unfoldable pub list_tasks : Store → List Summary × Store
unfolding live kept_ids sort_summaries
list_tasks s =
    if s.up then (sort_summaries (live s s.ids), record s { ids = kept_ids s s.ids }) else ([], s)

pub load-save :
    (id : String) (p : TaskProgress) (s : Store)
    → load_task id (save_task p s)
      ≡ (if s.up then (if id == p.task_id then some p else load_task id s) else none)
unfolding load_task save_task
load-save id p s = elim (Bool-cases s.up) [
  | inl up ↦ rw up (elim (Bool-cases (id == p.task_id)) [
    | inl same ↦ rw same (ap some (from_dict-to_dict p))
    | inr other ↦ rw other refl
  ])
  | inr down ↦ rw down refl
]

-- What holds of the document of a task, if it is there.
abbrev pub Holds : (TaskProgress → Type 0) → String → Store → Type 0
Holds P id s = (p : TaskProgress) → load_task id s ≡ some p → P p

modify-there :
    (id : String) (f : TaskProgress → TaskProgress) (s : Store) (p : TaskProgress)
    → load_task id s ≡ some p
    → modify id f s ≡ save_task (f p) s
unfolding modify
modify-there id f s p h = rw (h, modify) refl

modify-absent :
    (id : String) (f : TaskProgress → TaskProgress) (s : Store)
    → load_task id s ≡ none
    → modify id f s ≡ s
unfolding modify
modify-absent id f s h = rw (h, modify) refl

load-up : (id : String) (s : Store) (p : TaskProgress) → load_task id s ≡ some p → s.up ≡ true
unfolding load_task
load-up id s p h = elim (Bool-cases s.up) [
  | inl up ↦ up
  | inr down ↦ let gone = rw down at h in absurd (cc)
]

-- What is loaded after a change.
pub load-modify :
    (id : String) (f : TaskProgress → TaskProgress) (s : Store)
    → ((p : TaskProgress) → p.task_id ≡ id → (f p).task_id ≡ id)
    → Holds (λ p. p.task_id ≡ id) id s
    → load_task id (modify id f s) ≡ Option.map f (load_task id s)
load-modify id f s keeps h = elim (Option-cases (load_task id s)) [
  | inl absent ↦ rw (modify-absent id f s absent) (rw absent refl)
  | inr (p, there) ↦
      let named = keeps p (h p there) in
      rw (modify-there id f s p there)
        (load-save id (f p) s ∙ rw there (simp (load-up id s p there, named, eq_refl)))
]
