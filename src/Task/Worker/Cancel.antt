-- ===== src/Task/Worker/Cancel.antt =====
-- A request to cancel, from the endpoint to the worker.
use nl2sql_agent.Common.{
  String, ◌≡◌, refl, ap, ◌∙◌, true, false, some, [], arith, eq_refl, is_some, Option-cases, inl,
  inr,
}
use nl2sql_agent.Agent.State.{AgentState}
use nl2sql_agent.Task.State.{
  Status, cancelled, TaskState, Request, Topic, TaskMessage, status_topic, stopped_at,
}
use nl2sql_agent.Task.Redis.{Redis, cancel_key, text}
use nl2sql_agent.Task.Store.{
  World, publish, task_get, task_transition, task_is_cancelled, task_request_cancel,
  task_clear_cancel, allowed, valid_transition, with_status, ttl_cancel_flag,
}
use nl2sql_agent.Task.Store.Lookup.{
  task_get-task_update, task_get-task_request_cancel, task_get-task_clear_cancel, is_up, get-setex,
  get-delete,
}
use nl2sql_agent.Task.Store.Published.{broker-task_transition, broker-task_request_cancel}
use nl2sql_agent.Task.Store.Transitions.{transition-valid}
use nl2sql_agent.Task.Api.{task_cancel, has_ended}
use nl2sql_agent.Task.Worker.{
  Stream, step, was_cancelled, consume, stop, handle_task, unchanged, outside, message,
}

cancellable : (s : Status) → has_ended s ≡ false → allowed s cancelled ≡ true
unfolding allowed
cancellable s h = ground arith

task_get-cancelled :
    {redis : Redis} (v : World redis) (id : String) (t : TaskState)
    → task_get v id ≡ some t
    → allowed t.status cancelled ≡ true
    → task_get (task_transition v id cancelled unchanged) id
      ≡ some (record t { status = cancelled; updated_at = v.now })
unfolding valid_transition
task_get-cancelled v id t there fits = rw (transition-valid v id cancelled unchanged) (
    rw there (
      rw fits (
        task_get-task_update v id id (with_status cancelled unchanged)
        ∙ rw (eq_refl id) (rw there refl))))

now-asked : {redis : Redis} (w : World redis) (id : String) → (task_request_cancel w id).now ≡ w.now
unfolding task_request_cancel
now-asked w id = elim (Option-cases w.db) [ inl down ↦ rw down refl | inr (db, up) ↦ rw up refl ]

not-cancelled :
    {redis : Redis} (v : World redis) (id : String)
    → task_is_cancelled (task_clear_cancel v id) id ≡ false
unfolding task_is_cancelled task_clear_cancel
not-cancelled v id =
    ap is_some (get-delete v (cancel_key id) (cancel_key id)) ∙ rw (eq_refl id) refl

task_get-publish :
    {redis : Redis} (w : World redis) (topic : Topic) (msg : TaskMessage) (k : String)
    → task_get (publish w topic msg) k ≡ task_get w k
unfolding publish task_get
task_get-publish w topic msg k = refl

module _ {redis : Redis} (w : World redis) (id : String) (t : TaskState)
    (there : task_get w id ≡ some t) (open_task : has_ended t.status ≡ false) where
  abbrev asked_to_cancel : World redis
  asked_to_cancel = task_request_cancel w id

  endpoint : task_cancel w id ≡ (asked_to_cancel, "cancelled")
  unfolding task_cancel
  endpoint = rw (task_cancel, there, open_task) refl

  flagged : task_is_cancelled asked_to_cancel id ≡ true
  unfolding task_is_cancelled task_request_cancel
  flagged =
      ap is_some
        (get-setex w (cancel_key id) (cancel_key id) ttl_cancel_flag (text "1") (omega arith))
      ∙ rw (eq_refl id) (rw (is_up w id t there) refl)

  -- The task afterwards.
  abbrev pub cancelled_task : TaskState
  cancelled_task = record t { status = cancelled; updated_at = w.now }

  moved : task_get (task_transition asked_to_cancel id cancelled unchanged) id ≡ some cancelled_task
  moved =
      task_get-cancelled asked_to_cancel id t (task_get-task_request_cancel w id id ∙ there)
        (cancellable t.status open_task)
      ∙ rw (now-asked w id) refl

  -- A cancel request for a task that has not ended is accepted. If the worker gets the task's
  -- message after it, it publishes nothing, starts no job, and the task is CANCELLED.
  pub cancelled_before_start :
      let (v, answer) = task_cancel w id in
      (answer ≡ "cancelled")
      × ((graph : AgentState → Stream) (req : Request)
          → let x = handle_task graph id req v in
            (x.broker ≡ w.broker) × (task_get x id ≡ some cancelled_task))
  unfolding handle_task
  cancelled_before_start = rw endpoint (
    refl,
    λ graph req. rw flagged (
      broker-task_transition asked_to_cancel id cancelled unchanged
          ∙ broker-task_request_cancel w id,
      moved,
    ),
  )

  -- A task that has not ended is asked to be cancelled. If its job has started and nothing happens
  -- before its next step, that step notices the request: the run ends as cancelled, whatever
  -- the rest of the job is, the task is CANCELLED and the flag is gone.
  pub cancelled_mid_run :
      (node name : String) (finish : AgentState → World redis → World redis)
      (update : AgentState → AgentState) (rest : Stream) (a : AgentState)
      → let (x, r) = consume id node finish (step [] name update rest) a (task_cancel w id).0 in
        (r ≡ was_cancelled)
        × (task_get x id ≡ some cancelled_task)
        × (task_is_cancelled x id ≡ false)
  unfolding consume outside stop
  cancelled_mid_run node name finish update rest a =
      let v =
        publish (task_transition asked_to_cancel id cancelled unchanged) status_topic
          (message id "cancelled" (stopped_at node)) in
      rw endpoint (
        rw flagged (
          refl,
          task_get-task_clear_cancel v id id
              ∙ task_get-publish _ status_topic (message id "cancelled" (stopped_at node)) id
              ∙ moved,
          not-cancelled v id,
        ))
