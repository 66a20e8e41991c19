-- ===== src/Task/Store/Transitions.antt =====
-- How the status of a task moves: the table of `_valid_transition` and the round of feedback.
pub mod Leads
use nl2sql_agent.Common.{
  String, ◌≡◌, refl, sym, ◌∙◌, Bool, true, false, Option, none, some, ◌⊎◌, inl, inr, ◌==◌, arith,
  if◌then◌else◌, eq_iff, Option-cases, Bool-cases,
}
use nl2sql_agent.Task.State.{Status, running, success, failed, TaskState}
use nl2sql_agent.Task.Redis.{Redis}
use nl2sql_agent.Task.Store.{
  World, task_get, task_update, task_transition, feedback_transition, valid_transition, allowed,
  with_status, ended,
}
use nl2sql_agent.Task.Store.Lookup.{updated, task_get-task_update, task_update-none}

module _ {redis : Redis} where
  pub transition-valid :
      (w : World redis) (id : String) (status : Status) (extra : TaskState → TaskState)
      → task_transition w id status extra ≡ (
          if valid_transition (task_get w id) status
          then task_update w id (with_status status extra)
          else w)
  unfolding task_transition
  transition-valid w id status extra = refl

  -- A transition either leaves every task as it is, or moves the task of its id along an entry of
  -- the table, merges the extra fields and stamps the update, and leaves the others as they are.
  pub transition_is_allowed :
      (w : World redis) (id : String) (status : Status) (extra : TaskState → TaskState)
      → (task_transition w id status extra ≡ w)
        ⊎ ((t : TaskState) × (task_get w id ≡ some t)
            × (allowed t.status status ≡ true)
            × ((j : String)
                → task_get (task_transition w id status extra) j ≡ (
                    if id == j
                    then some (record (extra t) { status = status; updated_at = w.now })
                    else task_get w j)))
  unfolding valid_transition
  transition_is_allowed w id status extra = elim (Option-cases (task_get w id)) [
    | inl gone ↦ inl (
        rw (transition-valid w id status extra)
          (rw (task_update-none w id (with_status status extra) gone) (ground arith)))
    | inr (t, h) ↦ elim (Bool-cases (allowed t.status status)) [
      | inl fits ↦ inr (
        t,
        h,
        fits,
        λ j. rw (transition-valid w id status extra) (
            rw h
              (rw fits (rw (task_get-task_update w id j (with_status status extra)) (rw h refl)))),
      )
      | inr unfit ↦ inl (rw (transition-valid w id status extra) (rw h (rw unfit refl)))
    ]
  ]
