-- ===== src/Task/Api/Feedback.antt =====
-- What becomes of a feedback that the endpoint accepts.
use nl2sql_agent.Common.{
  ◌+◌, ◌<◌, String, ◌≡◌, refl, ap, ◌∙◌, true, false, none, some, [], ◌∷◌, ◌++◌, arith, length,
  eq_refl, ltb,
}
use nl2sql_agent.Agent.State.{AgentState}
use nl2sql_agent.Task.State.{
  Status, running, TaskState, FeedbackRequest, feedback_topic, TaskMessage, Topic,
}
use nl2sql_agent.Task.Redis.{Redis}
use nl2sql_agent.Task.Store.{
  World, publish, task_get, task_update, feedback_transition, task_feedback_max_turns, ended,
  Broker,
}
use nl2sql_agent.Task.Store.Lookup.{task_get-task_update}
use nl2sql_agent.Task.Store.Published.{broker-task_update, send-handed, handed}
use nl2sql_agent.Task.Api.{task_feedback, feedback_message, accepts_feedback, response}
use nl2sql_agent.Task.Worker.{Stream, handle_feedback}

abbrev resumed : TaskState → TaskState
resumed u = record u { status = running; node = none; progress = 0 }

module _ {redis : Redis} (w : World redis) (id : String) where
  feedback_transition-ended :
      (t : TaskState)
      → task_get w id ≡ some t
      → ended t.status ≡ true
      → feedback_transition w id ≡ task_update w id resumed
  unfolding feedback_transition
  feedback_transition-ended t h e = rw (feedback_transition, h, e) refl

  task_get-feedback_transition :
      (t : TaskState)
      → task_get w id ≡ some t
      → ended t.status ≡ true
      → task_get (feedback_transition w id) id ≡ some (record (resumed t) { updated_at = w.now })
  task_get-feedback_transition t h e =
      rw (feedback_transition-ended t h e)
        (rw (task_get-task_update w id id resumed) (rw (eq_refl id, h) refl))

  feedback-accepted :
      (text : String) (t : TaskState)
      → task_get w id ≡ some t
      → accepts_feedback t.status ≡ true
      → length t.conversation_turns < task_feedback_max_turns
      → task_feedback w id text ≡ (
        feedback_transition (publish w feedback_topic (feedback_message id text t)) id,
        response (length t.conversation_turns + 1),
      )
  unfolding task_feedback
  feedback-accepted text t h e less =
      let few : ltb task_feedback_max_turns (length t.conversation_turns + 1) ≡ false =
        ground arith in
      rw (task_feedback, h, e, few) refl

task_get-publish :
    {redis : Redis} (w : World redis) (topic : Topic) (msg : TaskMessage) (k : String)
    → task_get (publish w topic msg) k ≡ task_get w k
unfolding publish task_get
task_get-publish w topic msg k = refl

accepts-ended : (s : Status) → accepts_feedback s ≡ true → ended s ≡ true
accepts-ended s h = ground arith

-- A worker leaves a task that is RUNNING alone.
busy-skips :
    {redis : Redis} (v : World redis) (graph : AgentState → Stream) (id : String)
    (p : FeedbackRequest) (u : TaskState)
    → task_get v id ≡ some u
    → u.status ≡ running
    → handle_feedback graph id p v ≡ v
unfolding handle_feedback
busy-skips v graph id p u h e = rw (handle_feedback, h, e) refl

module _ {redis : Redis} (w : World redis) (id text : String) where
  -- The endpoint accepts a feedback for a task that is SUCCESS or FAILED and has had fewer than 10
  -- turns, hands it to the broker and puts the task to RUNNING. If the worker gets a feedback message of the
  -- task after that, whatever it is, it takes it for a duplicate and does nothing: no round of feedback
  -- is run.
  pub feedback_ignored :
      (t : TaskState)
      → task_get w id ≡ some t
      → accepts_feedback t.status ≡ true
      → length t.conversation_turns < task_feedback_max_turns
      → let (v, answer) = task_feedback w id text in
        (answer ≡ response (length t.conversation_turns + 1))
        × (v.broker.published
            ≡ w.broker.published
              ++ handed w.broker ((feedback_topic, feedback_message id text t) ∷ []))
        × ((graph : AgentState → Stream) (p : FeedbackRequest) → handle_feedback graph id p v ≡ v)
  unfolding publish
  feedback_ignored t h e less =
      let b = publish w feedback_topic (feedback_message id text t) in
      let there = task_get-publish w feedback_topic (feedback_message id text t) id ∙ h in
      let over = accepts-ended t.status e in
      rw (feedback-accepted w id text t h e less) (
        refl,
        ap (λ v. v.broker.published) (feedback_transition-ended b id t there over)
            ∙ ap (λ (x : Broker). x.published) (broker-task_update b id resumed)
            ∙ send-handed w.broker (feedback_topic, feedback_message id text t),
        λ graph p.
            busy-skips (feedback_transition b id) graph id p
              (record (resumed t) { updated_at = b.now })
              (task_get-feedback_transition b id t there over) refl,
      )
