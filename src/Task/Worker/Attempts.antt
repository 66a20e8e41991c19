-- ===== src/Task/Worker/Attempts.antt =====
-- How often the worker tries a task: the requests that an attempt publishes for the next one, and
-- the dead letter of the last one.
pub mod Bounded
use nl2sql_agent.Common.{
  ℕ, zero, suc, ◌+◌, ◌-◌, ◌≤◌, ◌<◌, String, ◌≡◌, refl, sym, ap, ◌∙◌, Bool, true, false, Option,
  none, some, List, [], ◌∷◌, ◌++◌, ◌⊎◌, inl, inr, Bool-cases, ltb, if◌then◌else◌, if_cases, arith,
  concat, str,
}
use nl2sql_agent.Agent.State.{AgentState}
use nl2sql_agent.Task.State.{
  Status, TaskState, Request, success, failed, running, timeout, cancelled, TaskMessage, Topic,
  request_topic, status_topic, result_topic, dlq_topic, feedback_topic, request, dead_letter,
}
use nl2sql_agent.Task.Redis.{Redis}
use nl2sql_agent.Task.Store.{
  World, publish, task_get, task_update, task_transition, task_is_cancelled, task_clear_cancel,
  task_heartbeat, task_request_cancel, with_error, get_task_timeout, Broker,
}
use nl2sql_agent.Task.Store.Published.{
  broker-task_update, broker-task_transition, broker-task_heartbeat, broker-task_request_cancel,
  broker-task_clear_cancel, send-handed, handed, send-accepts,
}
use nl2sql_agent.Task.Worker.{
  Outside, wait, beat, ask_cancel, moves, act, outside, Stream, ends, raises, overruns, step, Ran,
  stop, progress, consume, with_progress, run_graph, handle_task, after_graph, on_error, on_timeout,
  start, completed, was_cancelled, raised_error, timed_out, max_retries, message, unchanged,
  keep_context, finish_graph, with_retry,
}
use nl2sql_agent.Task.Worker.Job.{initial_state}

-- The messages of a topic that asks for work: a request or a dead letter.
abbrev pub asks : Topic → Bool
asks request_topic = true
asks dlq_topic = true
asks _ = false

abbrev pub requests_in : List (Topic × TaskMessage) → List (Topic × TaskMessage)
requests_in [] = []
requests_in ((topic, msg) ∷ ms) =
    let rest = requests_in ms in if asks topic then (topic, msg) ∷ rest else rest

requests_in-append :
    (ms ns : List (Topic × TaskMessage)) → requests_in (ms ++ ns) ≡ requests_in ms ++ requests_in ns
requests_in-append [] ns = refl
requests_in-append ((topic, msg) ∷ ms) ns = ground (arith, requests_in-append ms ns)

pub append-nil : {A : Type 0} (xs : List A) → xs ++ [] ≡ xs
append-nil [] = refl
append-nil (x ∷ xs) = ap (λ ys. x ∷ ys) (append-nil xs)

-- What the world's list of messages holds of requests and dead letters.
abbrev pub work : {redis : Redis} → World redis → List (Topic × TaskMessage)
work w = requests_in w.broker.published

quiet-handed :
    (b : Broker) (topic : Topic) (msg : TaskMessage)
    → asks topic ≡ false
    → (ms : List (Topic × TaskMessage)) → ms ++ requests_in (handed b ((topic, msg) ∷ [])) ≡ ms
quiet-handed b topic msg h ms = elim (Bool-cases (b.accepts (topic, msg))) [
  | inl taken ↦ rw (taken, h) (append-nil ms)
  | inr lost ↦ rw lost (append-nil ms)
]

module _ {redis : Redis} where
  pub work-publish :
      (w : World redis) (topic : Topic) (msg : TaskMessage)
      → work (publish w topic msg) ≡ work w ++ requests_in (handed w.broker ((topic, msg) ∷ []))
  unfolding publish
  work-publish w topic msg =
      ap requests_in (send-handed w.broker (topic, msg))
      ∙ requests_in-append w.broker.published (handed w.broker ((topic, msg) ∷ []))

  pub publish-takes :
      (w : World redis) (topic : Topic) (msg : TaskMessage)
      → (publish w topic msg).broker.accepts ≡ w.broker.accepts
  unfolding publish
  publish-takes w topic msg = send-accepts w.broker (topic, msg)

  -- Nothing from `b` to `w` asks for work.
  pub record Quiet (b w : World redis) : Type 0 where
    pub same : work w ≡ work b
    pub takes : w.broker.accepts ≡ b.broker.accepts

module _ {redis : Redis} {b : World redis} where
  pub Quiet-same : {w : World redis} (v : World redis) → Quiet b w → v.broker ≡ w.broker → Quiet b v
  Quiet-same {w} v q e = record {
    same = ap (λ (x : Broker). requests_in x.published) e ∙ q.same;
    takes = ap Broker.accepts e ∙ q.takes;
  }

  pub Quiet-publish :
      {w : World redis} (topic : Topic) (msg : TaskMessage)
      → asks topic ≡ false
      → Quiet b w
      → Quiet b (publish w topic msg)
  Quiet-publish {w} topic msg h q = record {
    same = work-publish w topic msg ∙ quiet-handed w.broker topic msg h (work w) ∙ q.same;
    takes = publish-takes w topic msg ∙ q.takes;
  }

  pub Quiet-update :
      {w : World redis} (id : String) (change : TaskState → TaskState)
      → Quiet b w
      → Quiet b (task_update w id change)
  Quiet-update {w} id change q =
      Quiet-same (task_update w id change) q (broker-task_update w id change)

  pub Quiet-transition :
      {w : World redis} (id : String) (status : Status) (extra : TaskState → TaskState)
      → Quiet b w
      → Quiet b (task_transition w id status extra)
  Quiet-transition {w} id status extra q =
      Quiet-same (task_transition w id status extra) q (broker-task_transition w id status extra)

  pub Quiet-clear : {w : World redis} (id : String) → Quiet b w → Quiet b (task_clear_cancel w id)
  Quiet-clear {w} id q = Quiet-same (task_clear_cancel w id) q (broker-task_clear_cancel w id)

  Quiet-beat : {w : World redis} (id : String) → Quiet b w → Quiet b (task_heartbeat w id)
  Quiet-beat {w} id q = Quiet-same (task_heartbeat w id) q (broker-task_heartbeat w id)

  Quiet-act : {w : World redis} (id : String) (o : Outside) → Quiet b w → Quiet b (act id o w)
  Quiet-act {w} id (wait n) q = Quiet-same (act id (wait n) w) q refl
  Quiet-act id beat q = Quiet-beat id q
  Quiet-act {w} id ask_cancel q =
      Quiet-same (task_request_cancel w id) q (broker-task_request_cancel w id)
  Quiet-act {w} id (moves k status extra) q =
      Quiet-same (task_transition w k status extra) q (broker-task_transition w k status extra)

  Quiet-outside :
      {w : World redis} (id : String) (os : List Outside) → Quiet b w → Quiet b (outside id os w)
  unfolding outside
  Quiet-outside {w} id [] q = q
  Quiet-outside {w} id (o ∷ os) q = Quiet-outside {w = act id o w} id os (Quiet-act id o q)

  Quiet-stop : {w : World redis} (id node : String) → Quiet b w → Quiet b (stop id node w)
  unfolding stop
  Quiet-stop id node q =
      Quiet-clear id (Quiet-publish _ _ refl (Quiet-transition id cancelled unchanged q))

  Quiet-progress :
      {w : World redis} (id name : String) (a : AgentState)
      → Quiet b w
      → Quiet b (progress id name a w)
  unfolding progress
  Quiet-progress id name a q = Quiet-update id (with_progress name a) (Quiet-publish _ _ refl q)

  Quiet-consume :
      (id node : String) (finish : AgentState → World redis → World redis)
      → ((a : AgentState) (w : World redis) → Quiet b w → Quiet b (finish a w))
      → (s : Stream) (a : AgentState) (w : World redis) → Quiet b w
      → Quiet b (consume id node finish s a w).0
  unfolding consume
  Quiet-consume id node finish m (ends os) a w q = m a (outside id os w) (Quiet-outside id os q)
  Quiet-consume id node finish m (raises os e) a w q = Quiet-outside id os q
  Quiet-consume id node finish m (overruns os) a w q = Quiet-outside id os q
  Quiet-consume id node finish m (step os name update rest) a w q =
      let v = outside id os w in
      let p = Quiet-outside id os q in
      if_cases (λ (r : World redis × Ran). Quiet b r.0) (task_is_cancelled v id) _ _
        (λ _. Quiet-stop id node p)
        (λ _.
          Quiet-consume id node finish m rest (update a) (progress id name (update a) v)
            (Quiet-progress id name (update a) p))

  pub Quiet-start :
      {w : World redis} (id : String) (req : Request) → Quiet b w → Quiet b (start id req w)
  unfolding start
  Quiet-start id req q =
      Quiet-beat id
        (Quiet-publish _ _ refl (Quiet-transition id running (with_retry req.retry_count) q))

  pub Quiet-graph :
      {w : World redis} (graph : AgentState → Stream) (id : String) (req : Request)
      → Quiet b w
      → Quiet b (run_graph graph id req w).0
  unfolding run_graph
  Quiet-graph {w} graph id req q =
      Quiet-consume id "?" (finish_graph id)
        (λ a v p. Quiet-publish _ _ refl (Quiet-update id (keep_context a) p))
        (graph (initial_state req)) (initial_state req) w q
