-- ===== src/Task/Worker/Statuses.antt =====
-- What an attempt of the worker does to the status of a task.
use nl2sql_agent.Task.Worker.Job.{initial_state}
use nl2sql_agent.Common.{
  String, ◌≡◌, refl, some, List, [], ◌∷◌, ◌⊎◌, ltb, if_cases, ◌+◌, ◌∙◌, arith, concat, str,
}
use nl2sql_agent.Agent.State.{AgentState}
use nl2sql_agent.Task.State.{
  TaskState, Request, success, failed, running, timeout, cancelled, TaskMessage, Topic, Status,
}
use nl2sql_agent.Task.Redis.{Redis}
use nl2sql_agent.Task.Store.{
  World, publish, task_get, task_update, task_transition, task_is_cancelled, task_clear_cancel,
  task_heartbeat, task_request_cancel, with_error, get_task_timeout,
}
use nl2sql_agent.Task.Store.Lookup.{
  task_get-task_heartbeat, task_get-task_request_cancel, task_get-task_clear_cancel,
}
use nl2sql_agent.Task.Store.Transitions.Leads.{
  Leads, Leads-final, Follows, Follows-same, Follows-trans, Follows-task_update,
  Follows-task_transition, Follows-wait, Leading,
}
use nl2sql_agent.Task.Worker.{
  Outside, wait, beat, ask_cancel, moves, act, outside, Stream, ends, raises, overruns, step, Ran,
  stop, progress, consume, with_progress, run_graph, handle_task, after_graph, on_error, on_timeout,
  start, completed, was_cancelled, raised_error, timed_out, max_retries, unchanged, keep_context,
  finish_graph, with_retry,
}

module _ {redis : Redis} {k : String} {b : World redis} where
  then_leads : {w : World redis} (v : World redis) → Follows k b w → Leading k w v → Follows k b v
  then_leads {w} v f g = record { leads = Follows-trans k b w v f.leads g }

  -- What moves the status of each task along the table only keeps what `b` has led to.
  via-publish :
      {w : World redis} (topic : Topic) (msg : TaskMessage)
      → Follows k b w
      → Follows k b (publish w topic msg)
  unfolding publish task_get
  via-publish topic msg f = record { leads = f.leads }

module _ {redis : Redis} {k : String} (id : String) {b : World redis} where
  via-clear : {w : World redis} → Follows k b w → Follows k b (task_clear_cancel w id)
  via-clear {w} f =
      then_leads (task_clear_cancel w id) f (Follows-same k w _ (task_get-task_clear_cancel w id k))

  via-beat : {w : World redis} → Follows k b w → Follows k b (task_heartbeat w id)
  via-beat {w} f =
      then_leads (task_heartbeat w id) f (Follows-same k w _ (task_get-task_heartbeat w id k))

  via-transition :
      {w : World redis} (status : Status) (extra : TaskState → TaskState)
      → Follows k b w
      → Follows k b (task_transition w id status extra)
  via-transition {w} status extra f =
      then_leads (task_transition w id status extra) f (Follows-task_transition k id status extra w)

  via-act : {w : World redis} (o : Outside) → Follows k b w → Follows k b (act id o w)
  via-act {w} (wait n) f = then_leads (record w { now = w.now + n }) f (Follows-wait k n w)
  via-act beat f = via-beat f
  via-act {w} ask_cancel f =
      then_leads (task_request_cancel w id) f
        (Follows-same k w _ (task_get-task_request_cancel w id k))
  via-act {w} (moves other status extra) f =
      then_leads (task_transition w other status extra) f
        (Follows-task_transition k other status extra w)

  via-outside :
      {w : World redis} (os : List Outside) → Follows k b w → Follows k b (outside id os w)
  unfolding outside
  via-outside {w} [] f = f
  via-outside {w} (o ∷ os) f = via-outside {w = act id o w} os (via-act o f)

  via-update :
      {w : World redis} (change : TaskState → TaskState)
      → ((t : TaskState) → (change t).status ≡ t.status)
      → Follows k b w
      → Follows k b (task_update w id change)
  via-update {w} change keeps f =
      then_leads (task_update w id change) f (Follows-task_update k id change w keeps)

  via-stop : {w : World redis} (node : String) → Follows k b w → Follows k b (stop id node w)
  unfolding stop
  via-stop node f = via-clear (via-publish _ _ (via-transition cancelled unchanged f))

  via-progress :
      {w : World redis} (name : String) (a : AgentState)
      → Follows k b w
      → Follows k b (progress id name a w)
  unfolding progress
  via-progress name a f = via-update (with_progress name a) (λ t. refl) (via-publish _ _ f)

  -- The loop over the steps of a job.
  via-consume :
      (node : String) (finish : AgentState → World redis → World redis)
      → ((a : AgentState) (w : World redis) → Follows k b w → Follows k b (finish a w))
      → (s : Stream) (a : AgentState) (w : World redis) → Follows k b w
      → Follows k b (consume id node finish s a w).0
  unfolding consume
  via-consume node finish m (ends os) a w f = m a (outside id os w) (via-outside os f)
  via-consume node finish m (raises os e) a w f = via-outside os f
  via-consume node finish m (overruns os) a w f = via-outside os f
  via-consume node finish m (step os name update rest) a w f =
      let v = outside id os w in
      let g = via-outside os f in
      if_cases (λ (r : World redis × Ran). Follows k b r.0) (task_is_cancelled v id) _ _
        (λ _. via-stop node g)
        (λ _.
          via-consume node finish m rest (update a) (progress id name (update a) v)
            (via-progress name (update a) g))

  via-error :
      {w : World redis} (req : Request) (e : String)
      → Follows k b w
      → Follows k b (on_error id req e w)
  unfolding on_error
  via-error {w} req e f =
      if_cases (Follows k b) (task_is_cancelled w id) _ _
        (λ _.
          via-clear
            (via-transition cancelled (with_error (concat ("Cancelled after error: " ∷ e ∷ []))) f))
        (λ _.
          if_cases (Follows k b) (ltb req.retry_count max_retries) _ _
            (λ _. via-publish _ _ (
              via-update (λ t. with_error e (with_retry (req.retry_count + 1) t)) (λ t. refl)
                (via-publish _ _ f)))
            (λ _. via-publish _ _ (via-publish _ _ (via-transition failed (with_error e) f))))

  via-timeout :
      {w : World redis} (req : Request) → Follows k b w → Follows k b (on_timeout id req w)
  unfolding on_timeout
  via-timeout {w} req f =
      let limit = get_task_timeout req.retry_count in
      if_cases (Follows k b) (task_is_cancelled w id) _ _
        (λ _. via-clear (via-transition cancelled (with_error "Cancelled during execution") f))
        (λ _. via-publish _ _ (
          via-transition timeout
            (with_error (concat ("Task timed out after " ∷ str limit ∷ "s" ∷ []))) f))

  via-end :
      (req : Request) (r : World redis × Ran) → Follows k b r.0 → Follows k b (after_graph id req r)
  via-end req (w, completed) f = via-transition success unchanged f
  via-end req (w, was_cancelled) f = f
  via-end req (w, raised_error e) f = via-error req e f
  via-end req (w, timed_out) f = via-timeout req f

  via-graph :
      {w : World redis} (graph : AgentState → Stream) (req : Request)
      → Follows k b w
      → Follows k b (run_graph graph id req w).0
  unfolding run_graph
  via-graph {w} graph req f =
      via-consume "?" (finish_graph id)
        (λ a v g. via-publish _ _ (via-update (keep_context a) (λ t. refl) g))
        (graph (initial_state req)) (initial_state req) w f

  via-start : {w : World redis} (req : Request) → Follows k b w → Follows k b (start id req w)
  unfolding start
  via-start req f =
      via-beat (via-publish _ _ (via-transition running (with_retry req.retry_count) f))

module _ {redis : Redis} (graph : AgentState → Stream) (id : String) (req : Request)
    (w : World redis) where
  moved : (k : String) → Follows k w (handle_task graph id req w)
  unfolding handle_task
  moved k =
      let here : Follows k w w = record { leads = Follows-same k w w refl } in
      if_cases (Follows k w) (task_is_cancelled w id) _ _
        (λ _. via-transition id cancelled unchanged here)
        (λ _. via-end id req _ (via-graph id graph req (via-start id req here)))

  -- Whatever a job does, and whatever of the passing of time, heartbeats, requests to cancel the task
  -- and moves of tasks along the table by other processes happens before its steps and its end, each
  -- task that an attempt leaves in the store was there before it, and its status got where it is along
  -- the table of `_valid_transition`.
  pub handle_task_follows :
      (k : String) (u : TaskState)
      → task_get (handle_task graph id req w) k ≡ some u
      → (t : TaskState) × (task_get w k ≡ some t) × Leads t.status u.status
  handle_task_follows k = (moved k).leads

  -- A task that is SUCCESS or CANCELLED has the same status, if it is still in the store, after a
  -- worker handled one more request for it.
  pub handle_task-final :
      (t u : TaskState)
      → task_get w id ≡ some t
      → (t.status ≡ success) ⊎ (t.status ≡ cancelled)
      → task_get (handle_task graph id req w) id ≡ some u
      → u.status ≡ t.status
  handle_task-final t u there final h =
      let (s, here, l) = handle_task_follows id u h in
      let e : s.status ≡ t.status = ground (arith, here, there) in
      Leads-final s.status u.status (ground (arith, e, final)) l ∙ e
