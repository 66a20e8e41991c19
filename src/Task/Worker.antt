-- ===== src/Task/Worker.antt =====
-- worker/main.py. A job is what `graph.stream` yields, step by step, on a state, and how it comes to
-- its end before or at the timeout of `fut.result`: it ends, it raises, or it overruns. Other
-- processes and the heartbeat thread act before each step and before the end; of what they do, the
-- creation of tasks, an accepted feedback and what they publish are left out. What a job does after it
-- overran is not modelled, nor is the traceback in a dead letter.
pub mod Job
pub mod Attempts
pub mod Statuses
pub mod Cancel
use nl2sql_agent.Common.{
  ℕ, ◌+◌, String, Bool, true, false, Option, none, some, List, [], ◌∷◌, ◌++◌, ◌==◌, if◌then◌else◌,
  ltb, concat, str, length, truthy,
}
use nl2sql_agent.Agent.State.{AgentState, ExecResult, Turn}
use nl2sql_agent.Task.State.{
  Status, pending, running, success, failed, timeout, cancelled, TaskState, Request,
  FeedbackRequest, Payload, request, feedback_request, started, feedback_turn, stopped_at,
  node_summary, result, retrying, error_message, dead_letter, TaskMessage, Topic, request_topic,
  status_topic, result_topic, dlq_topic, feedback_topic,
}
use nl2sql_agent.Task.Redis.{Redis, seconds}
use nl2sql_agent.Task.Store.{
  World, publish, task_get, task_update, task_transition, feedback_transition, task_is_cancelled,
  task_clear_cancel, task_request_cancel, task_heartbeat, get_task_timeout, with_error, is_running,
}
use Job.{initial_state, feedback_state, node_progress, summarize_node, sanitize}

abbrev pub max_retries : ℕ
max_retries = 3

-- What happens beside the job: time passes, the heartbeat thread beats, a client asks to cancel, and
-- another process, such as the scan for stale tasks, moves some task along the table.
pub data Outside : Type 0 where
  wait : ℕ → Outside
  beat : Outside
  ask_cancel : Outside
  moves : String → Status → (TaskState → TaskState) → Outside

pub data Stream : Type 0 where
  ends : List Outside → Stream
  raises : List Outside → String → Stream
  overruns : List Outside → Stream
  step : List Outside → String → (AgentState → AgentState) → Stream → Stream

pub data Ran : Type 0 where
  completed : Ran
  was_cancelled : Ran
  raised_error : String → Ran
  timed_out : Ran

abbrev pub message : String → String → Payload → TaskMessage
message id event payload = record { task_id = id; event = event; payload = payload }

-- `accumulated.get("sql") or accumulated.get("chosen_sql", …)`; no node writes `chosen_sql`.
abbrev pub sql_of : AgentState → String
sql_of s = if truthy s.sql then s.sql else s.chosen_sql

abbrev sql_so_far : AgentState → Option String
sql_so_far s = if truthy (sql_of s) then some (sql_of s) else none

-- The fields that a node's output updates.
abbrev pub with_progress : String → AgentState → TaskState → TaskState
with_progress name a t = record t {
  node = some name;
  progress = node_progress name;
  sql = sql_so_far a;
  token_usage = some a.token_usage;
}

abbrev with_result : AgentState → TaskState → TaskState
with_result a t = record t {
  sql = some (sql_of a);
  exec_result = sanitize a.exec_result;
  token_usage = some a.token_usage;
}

abbrev pub keep_context : AgentState → TaskState → TaskState
keep_context a t = record (with_result a t) {
  schema_text = a.schema_text;
  notes_text = a.notes_text;
  fewshot_text = a.fewshot_text;
}

abbrev turns_after : FeedbackRequest → AgentState → List Turn
turns_after p a =
    p.conversation_turns
    ++ record {
      turn = length p.conversation_turns + 1;
      user_feedback = p.feedback;
      sql = sql_of a;
      exec_result = sanitize a.exec_result;
    }
      ∷ []

abbrev pub keep_turn : FeedbackRequest → AgentState → TaskState → TaskState
keep_turn p a t = record (with_result a t) { conversation_turns = turns_after p a }

abbrev result_of : AgentState → Payload
result_of a = result (sql_of a) (sanitize a.exec_result) a.token_usage

abbrev pub with_retry : ℕ → TaskState → TaskState
with_retry n t = record t { retry_count = n }

abbrev pub unchanged : TaskState → TaskState
unchanged t = t

abbrev pub is_busy : Option TaskState → Bool
is_busy none = false
is_busy (some t) = is_running t.status

module _ {redis : Redis} where
  abbrev pub act : String → Outside → World redis → World redis
  act id (wait n) w = record w { now = w.now + n }
  act id beat w = task_heartbeat w id
  act id ask_cancel w = task_request_cancel w id
  act id (moves k status extra) w = task_transition w k status extra

  unfoldable pub outside : String → List Outside → World redis → World redis
  unfolding task_heartbeat task_request_cancel task_transition
  outside id [] w = w
  outside id (o ∷ os) w = outside id os (act id o w)

  -- A step that finds the cancel flag.
  unfoldable pub stop : String → String → World redis → World redis
  unfolding task_transition task_clear_cancel
  stop id node w =
      task_clear_cancel
        (publish (task_transition w id cancelled unchanged) status_topic
          (message id "cancelled" (stopped_at node)))
        id

  -- A step that goes on: the event of the node and its progress.
  unfoldable pub progress : String → String → AgentState → World redis → World redis
  unfolding summarize_node node_progress task_update
  progress id name a w =
      task_update
        (publish w status_topic
          (message id "node_done" (node_summary name (summarize_node name a))))
        id (with_progress name a)

  -- The loop over the steps; `node` is what the event of a cancelled run names, `finish` what
  -- follows the loop.
  unfoldable pub consume :
      String
      → String
      → (AgentState → World redis → World redis)
      → Stream
      → AgentState
      → World redis
      → World redis × Ran
  unfolding outside stop progress task_is_cancelled
  consume id node finish (ends os) a w = (finish a (outside id os w), completed)
  consume id node finish (raises os e) a w = (outside id os w, raised_error e)
  consume id node finish (overruns os) a w = (outside id os w, timed_out)
  consume id node finish (step os name update rest) a w =
      let v = outside id os w in
      let further = consume id node finish rest (update a) (progress id name (update a) v) in
      if task_is_cancelled v id then (stop id node v, was_cancelled) else further

  abbrev pub finish_graph : String → AgentState → World redis → World redis
  finish_graph id a w =
      publish (task_update w id (keep_context a)) result_topic (message id "success" (result_of a))

  -- The steps have no key "_last_node".
  unfoldable pub run_graph :
      (AgentState → Stream) → String → Request → World redis → World redis × Ran
  unfolding consume initial_state task_update sanitize
  run_graph graph id req w =
      consume id "?" (finish_graph id) (graph (initial_state req)) (initial_state req) w

  abbrev finish_feedback : String → FeedbackRequest → AgentState → World redis → World redis
  finish_feedback id p a w =
      publish (task_update w id (keep_turn p a)) result_topic (message id "success" (result_of a))

  unfoldable pub run_feedback_graph :
      (AgentState → Stream) → String → FeedbackRequest → World redis → World redis × Ran
  unfolding consume feedback_state task_update task_get sanitize
  run_feedback_graph graph id p w =
      let start = feedback_state p (task_get w id) in
      consume id "feedback" (finish_feedback id p) (graph start) start w

  -- The end of an attempt that raised.
  unfoldable pub on_error : String → Request → String → World redis → World redis
  unfolding task_is_cancelled task_transition task_clear_cancel task_update
  on_error id req e w =
      let n = req.retry_count in
      let again = record req { retry_count = n + 1; last_error = e } in
      if task_is_cancelled w id
      then task_clear_cancel
          (task_transition w id cancelled
            (with_error (concat ("Cancelled after error: " ∷ e ∷ []))))
          id
      else if ltb n max_retries
      then publish
          (task_update (publish w request_topic (message id "retry" (request again))) id
            (λ t. with_error e (with_retry (n + 1) t)))
          status_topic (message id "retrying" (retrying (n + 1) e))
      else publish
          (publish (task_transition w id failed (with_error e)) status_topic
            (message id "failed" (error_message e)))
          dlq_topic (message id "dead_letter" (dead_letter req e))

  unfoldable pub on_timeout : String → Request → World redis → World redis
  unfolding task_is_cancelled task_transition task_clear_cancel get_task_timeout
  on_timeout id req w =
      let limit = get_task_timeout req.retry_count in
      if task_is_cancelled w id
      then task_clear_cancel
          (task_transition w id cancelled (with_error "Cancelled during execution")) id
      else publish
          (task_transition w id timeout
            (with_error (concat ("Task timed out after " ∷ str limit ∷ "s" ∷ []))))
          status_topic (message id "timeout" (started req.retry_count limit))

  abbrev pub after_graph : String → Request → World redis × Ran → World redis
  after_graph id req (w, completed) = task_transition w id success unchanged
  after_graph id req (w, was_cancelled) = w
  after_graph id req (w, raised_error e) = on_error id req e w
  after_graph id req (w, timed_out) = on_timeout id req w

  -- An attempt that starts; the heartbeat thread beats at once.
  unfoldable pub start : String → Request → World redis → World redis
  unfolding task_transition task_heartbeat get_task_timeout
  start id req w =
      task_heartbeat
        (publish (task_transition w id running (with_retry req.retry_count)) status_topic
          (message id "running" (started req.retry_count (get_task_timeout req.retry_count))))
        id

  unfoldable pub handle_task : (AgentState → Stream) → String → Request → World redis → World redis
  unfolding task_is_cancelled task_transition start run_graph on_error on_timeout
  handle_task graph id req w =
      if task_is_cancelled w id
      then task_transition w id cancelled unchanged
      else after_graph id req (run_graph graph id req (start id req w))

  abbrev after_feedback : String → FeedbackRequest → World redis × Ran → World redis
  after_feedback id p (w, completed) = task_transition w id success unchanged
  after_feedback id p (w, was_cancelled) = w
  after_feedback id p (w, raised_error e) =
      publish (task_transition w id failed (with_error e)) status_topic
        (message id "failed" (error_message e))
  after_feedback id p (w, timed_out) =
      publish
        (task_transition w id timeout
          (with_error (concat ("Feedback turn " ∷ str p.turn ∷ " timed out" ∷ []))))
        status_topic (message id "timeout" (feedback_turn p.turn))

  -- A feedback round that starts.
  abbrev begin_feedback : String → FeedbackRequest → World redis → World redis
  begin_feedback id p w =
      task_heartbeat
        (publish (feedback_transition w id) status_topic
          (message id "running" (feedback_turn p.turn)))
        id

  unfoldable pub handle_feedback :
      (AgentState → Stream) → String → FeedbackRequest → World redis → World redis
  unfolding task_get feedback_transition task_heartbeat run_feedback_graph task_transition
  handle_feedback graph id p w =
      if is_busy (task_get w id)
      then w
      else after_feedback id p (run_feedback_graph graph id p (begin_feedback id p w))
