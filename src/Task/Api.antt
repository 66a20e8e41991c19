-- ===== src/Task/Api.antt =====
-- api/routes/task.py: the endpoints. Arguments are the id that `uuid4` gives and the hash of an
-- idempotency key and a question (`sha256`). A response of an HTTPException is `raised_http`.
pub mod Feedback
pub mod Submit
pub mod Stream
use nl2sql_agent.Common.{
  ℕ, suc, ◌+◌, ◌-◌, String, Bool, true, false, ◌&&◌, ◌||◌, Option, none, some, List, [], ◌∷◌, ◌==◌,
  if◌then◌else◌, ltb, prefix, concat, str, length, get_or_else, truthy,
}
use nl2sql_agent.Task.State.{
  Status, pending, running, success, failed, timeout, cancelled, TaskState, Request,
  FeedbackRequest, Payload, request, feedback_request, TaskMessage, request_topic, feedback_topic,
}
use nl2sql_agent.Task.Redis.{Redis, Value, time, seconds}
use nl2sql_agent.Task.Store.{
  World, publish, task_get, task_create, task_request_cancel, task_get_heartbeat, idempotent_check,
  idempotent_set, feedback_transition, task_feedback_max_turns, heartbeat_stale_s, is_running,
}

-- `TaskSubmitRequest`, whose `llm` no one reads.
pub record Submission : Type 0 where
  pub question : String
  pub rag_schema : Bool
  pub rag_domain : Bool
  pub multi_candidate : Bool
  pub rag_k : ℕ
  pub rag_column_prune : Bool
  pub rag_hybrid : Bool
  pub rag_fk_expand : Bool
  pub fewshot_enabled : Bool
  pub database_url : Option String
  pub db_id : Option String
  pub idempotency_key : Option String

pub data Response (A : Type 0) : Type 0 where
  response : A → Response A
  raised_http : ℕ → String → Response A

abbrev pub status_name : Status → String
status_name pending = "PENDING"
status_name running = "RUNNING"
status_name success = "SUCCESS"
status_name failed = "FAILED"
status_name timeout = "TIMEOUT"
status_name cancelled = "CANCELLED"

unfoldable pub payload_of : Submission → Request
payload_of req = record {
  question = req.question;
  db_id = get_or_else req.db_id "";
  database_url = get_or_else req.database_url "";
  rag_schema = req.rag_schema;
  rag_domain = req.rag_domain;
  multi_candidate = req.multi_candidate;
  rag_k = req.rag_k;
  rag_column_prune = req.rag_column_prune;
  rag_hybrid = req.rag_hybrid;
  rag_fk_expand = req.rag_fk_expand;
  fewshot_enabled = req.fewshot_enabled;
  retry_count = 0;
  last_error = "";
}

-- The text whose hash is the key, if the request has a key that is not empty.
unfoldable pub idempotency_text : Submission → Option String
idempotency_text req = elim req.idempotency_key [
  | none ↦ none
  | some k ↦ if truthy k then some (concat (k ∷ ":" ∷ prefix 80 req.question ∷ [])) else none
]

abbrev pub has_ended : Status → Bool
has_ended success = true
has_ended failed = true
has_ended cancelled = true
has_ended timeout = true
has_ended _ = false

-- What `task_health` answers.
pub record Health : Type 0 where
  pub task_status : Status
  pub heartbeat : Option Value
  pub healthy : Bool
  pub worker_alive : Bool

unfoldable pub is_healthy : ℕ → Option Value → Bool
is_healthy now (some (time beat)) = ltb (now - beat) (seconds heartbeat_stale_s)
is_healthy now _ = false

abbrev pub feedback_message : String → String → TaskState → TaskMessage
feedback_message id feedback t = record {
  task_id = id;
  event = "feedback";
  payload = feedback_request (record {
    feedback = feedback;
    turn = length t.conversation_turns + 1;
    question = t.question;
    db_id = t.db_id;
    database_url = t.database_url;
    sql = t.sql;
    exec_result = t.exec_result;
    conversation_turns = t.conversation_turns;
  });
}

abbrev pub accepts_feedback : Status → Bool
accepts_feedback success = true
accepts_feedback failed = true
accepts_feedback _ = false

module _ {redis : Redis} where
  -- A submission with no task yet.
  unfoldable pub submit_new : World redis → Submission → String → World redis
  unfolding payload_of task_create
  submit_new w req id =
      publish
        (task_create w id req.question (get_or_else req.db_id "") (get_or_else req.database_url ""))
        request_topic
        (record { task_id = id; event = "submitted"; payload = request (payload_of req) })

  unfoldable pub submit_keyed : World redis → Submission → String → String → World redis × String
  unfolding idempotent_check idempotent_set submit_new
  submit_keyed w req id hash = elim (idempotent_check w hash) [
    | none ↦ (submit_new (idempotent_set w hash id) req id, id)
    | some existing ↦
        if truthy existing
        then (w, existing)
        else (submit_new (idempotent_set w hash id) req id, id)
  ]

  -- The id in the response; its status is PENDING.
  unfoldable pub task_submit :
      (sha256 : String → String) → World redis → Submission → String → World redis × String
  unfolding idempotency_text submit_keyed submit_new
  task_submit sha256 w req id = elim (idempotency_text req) [
    | none ↦ (submit_new w req id, id)
    | some t ↦ submit_keyed w req id (sha256 t)
  ]

  unfoldable pub task_status : World redis → String → Response TaskState
  unfolding task_get
  task_status w id = elim (task_get w id) [
    | none ↦ raised_http 404 "Task not found or expired"
    | some t ↦ response t
  ]

  -- The status in the response comes with the world.
  unfoldable pub task_cancel : World redis → String → World redis × String
  unfolding task_get task_request_cancel
  task_cancel w id = elim (task_get w id) [
    | none ↦ (w, "not_found")
    | some t ↦
        if has_ended t.status
        then (w, status_name t.status)
        else (task_request_cancel w id, "cancelled")
  ]

  unfoldable pub task_health : World redis → String → Response Health
  unfolding task_get task_get_heartbeat is_healthy
  task_health w id = elim (task_get w id) [
    | none ↦ raised_http 404 "Task not found or expired"
    | some t ↦
        let beat = task_get_heartbeat w id in
        response (record {
          task_status = t.status;
          heartbeat = beat;
          healthy = is_healthy w.now beat;
          worker_alive = is_healthy w.now beat && is_running t.status;
        })
  ]

  -- The turn in the response comes with the world.
  unfoldable pub task_feedback : World redis → String → String → World redis × Response ℕ
  unfolding task_get feedback_transition
  task_feedback w id feedback = elim (task_get w id) [
    | none ↦ (w, raised_http 404 "Task not found or expired")
    | some t ↦
        if accepts_feedback t.status
        then (if ltb task_feedback_max_turns (length t.conversation_turns + 1)
            then (w, raised_http 400 "Maximum feedback turns (10) reached")
            else (
              feedback_transition (publish w feedback_topic (feedback_message id feedback t)) id,
              response (length t.conversation_turns + 1),
            ))
        else (
          w,
          raised_http 400 (
              concat (
                "Feedback only allowed on SUCCESS tasks (current: "
                ∷ status_name t.status
                ∷ ")"
                ∷ [])),
        )
  ]
