-- ===== src/Task/Tests/Runs.antt =====
-- The theorems on tasks at concrete inputs.
use mathlib.Core.List.{Memᴰ}
use nl2sql_agent.Common.{
  ℕ, ◌+◌, ◌≤◌, String, ◌≡◌, refl, true, false, Option, none, some, [], ◌∷◌, ◌++◌, ◌⊎◌, inl, inr,
  ◌==◌, arith, if◌then◌else◌,
}
use nl2sql_agent.Agent.State.{AgentState}
use nl2sql_agent.Task.State.{
  Status, pending, running, success, cancelled, TaskState, Request, FeedbackRequest, feedback_topic,
  request_topic, request, timeout,
}
use nl2sql_agent.Task.Redis.{state_key, document, seconds}
use nl2sql_agent.Task.Store.{
  World, task_get, task_transition, allowed, new_task, scan_stale_tasks, task_is_cancelled,
  idempotent_check, task_heartbeat, publish, task_update, set_state, valid_transition, Broker, send,
}
use nl2sql_agent.Task.Store.Transitions.{transition_is_allowed}
use nl2sql_agent.Task.Store.Transitions.Leads.{Leads}
use nl2sql_agent.Task.Store.Scan.{holds}
use nl2sql_agent.Task.Store.Scan.Exact.{IsLost, scan_stale_tasks-IsLost}
use nl2sql_agent.Task.Api.{
  Submission, response, task_submit, task_status, task_cancel, task_feedback, feedback_message,
  idempotency_text, payload_of,
}
use nl2sql_agent.Task.Api.Submit.{new_submission, resubmission}
use nl2sql_agent.Task.Api.Feedback.{feedback_ignored}
use nl2sql_agent.Task.Store.Published.{handed}
use nl2sql_agent.Task.Worker.{
  Stream, ends, raises, step, was_cancelled, handle_task, handle_feedback, consume, unchanged,
  max_retries, run_graph, start, outside, progress,
}
use nl2sql_agent.Task.Worker.Job.{initial_state}
use nl2sql_agent.Task.Worker.Statuses.{handle_task_follows, handle_task-final}
use nl2sql_agent.Task.Worker.Attempts.{work}
use nl2sql_agent.Task.Worker.Attempts.Bounded.{
  submitted, retried, new_work, handle_task-asks, attempts_bounded, again,
}
use nl2sql_agent.Task.Worker.Cancel.{cancelled_before_start, cancelled_mid_run}
use nl2sql_agent.Task.Tests.Memory.{memory}

-- A task in a given state, as the one document of a store.
abbrev pub task : Status → TaskState
task status = record (new_task "a1" "sales per region" "shop" "" 7) { status = status }

-- A broker that takes every message.
abbrev pub connected : Broker
connected = record { accepts = λ m. true; published = [] }

abbrev pub world : Status → World memory
world status = record {
  db = some ((state_key "a1", seconds 7200, document (task status)) ∷ []);
  now = 10;
  broker = connected;
}

abbrev work_request : ℕ → Request
work_request n = record {
  question = "sales per region";
  db_id = "shop";
  database_url = "";
  rag_schema = true;
  rag_domain = true;
  multi_candidate = true;
  rag_k = 8;
  rag_column_prune = false;
  rag_hybrid = true;
  rag_fk_expand = true;
  fewshot_enabled = true;
  retry_count = n;
  last_error = "";
}

-- A job of one node that succeeds, and one that raises.
abbrev good_job : AgentState → Stream
good_job s = step [] "generator" (λ a. record a { sql = "SELECT 1" }) (ends [])

abbrev bad_job : AgentState → Stream
bad_job s = raises [] "ValueError: no model"

abbrev state : AgentState
state = initial_state (work_request 0)

there_pending : task_get (world pending) "a1" ≡ some (task pending)
unfolding task_get
there_pending = refl

there_running : task_get (world running) "a1" ≡ some (task running)
unfolding task_get
there_running = refl

there_success : task_get (world success) "a1" ≡ some (task success)
unfolding task_get
there_success = refl

transition_is_allowed_example :
    (task_transition (world pending) "a1" running unchanged ≡ world pending)
    ⊎ ((t : TaskState) × (task_get (world pending) "a1" ≡ some t)
        × (allowed t.status running ≡ true)
        × ((j : String)
            → task_get (task_transition (world pending) "a1" running unchanged) j ≡ (
                if "a1" == j
                then some (record (unchanged t) { status = running; updated_at = 10 })
                else task_get (world pending) j)))
transition_is_allowed_example = transition_is_allowed (world pending) "a1" running unchanged

scan_stale_tasks-IsLost_example :
    let (v, found) = scan_stale_tasks 60 (world running) in
    (IsLost (world running) 60 "a1"
      × (holds "a1" found ≡ true)
      × ((t : TaskState) × (task_get (world running) "a1" ≡ some t)
          × ((e : String) × (task_get v "a1"
                ≡ some (record t { status = timeout; error = some e; updated_at = 10 })))))
    ⊎ ((IsLost (world running) 60 "a1" → ⊥)
        × (holds "a1" found ≡ false)
        × (task_get v "a1" ≡ task_get (world running) "a1"))
scan_stale_tasks-IsLost_example = scan_stale_tasks-IsLost 60 (world running) "a1"

handle_task-asks_example :
    work (handle_task bad_job "a1" (work_request 0) (world pending))
    ≡ work (world pending)
      ++ handed connected (new_work bad_job "a1" (work_request 0) (world pending))
handle_task-asks_example = handle_task-asks bad_job "a1" (work_request 0) (world pending)

cancelled_before_start_example :
    let (v, answer) = task_cancel (world pending) "a1" in
    (answer ≡ "cancelled")
    × ((graph : AgentState → Stream) (req : Request)
        → let x = handle_task graph "a1" req v in
          (x.broker ≡ connected)
          × (task_get x "a1"
              ≡ some (record (task pending) { status = cancelled; updated_at = 10 })))
cancelled_before_start_example =
    cancelled_before_start (world pending) "a1" (task pending) there_pending refl

cancelled_mid_run_example :
    let (x, r) =
      consume "a1" "?"
        (λ a w. w)
        (step [] "guard" (λ a. a) (ends []))
        state
        (task_cancel (world running) "a1").0 in
    (r ≡ was_cancelled)
    × (task_get x "a1" ≡ some (record (task running) { status = cancelled; updated_at = 10 }))
    × (task_is_cancelled x "a1" ≡ false)
cancelled_mid_run_example =
    cancelled_mid_run (world running) "a1" (task running) there_running refl "?" "guard" (λ a w. w)
      (λ a. a) (ends []) state

-- A request for "sales" with a key.
abbrev submission : Submission
submission = record {
  question = "sales per region";
  rag_schema = true;
  rag_domain = true;
  multi_candidate = true;
  rag_k = 8;
  rag_column_prune = false;
  rag_hybrid = true;
  rag_fk_expand = true;
  fewshot_enabled = true;
  database_url = none;
  db_id = some "shop";
  idempotency_key = some "k1";
}

-- A hash that keeps the text.
abbrev sha : String → String
sha t = t

abbrev key_text : String
key_text = "k1:sales per region"

abbrev empty_world : World memory
empty_world = record { db = some []; now = 10; broker = connected }

has_key : idempotency_text submission ≡ some key_text
unfolding idempotency_text
has_key = refl

unseen : idempotent_check empty_world (sha key_text) ≡ none
unfolding idempotent_check
unseen = refl

new_submission_example :
    let (v, answer) = task_submit sha empty_world submission "a1" in
    (answer ≡ "a1")
    × (v.broker.published
        ≡ (
          request_topic,
          record { task_id = "a1"; event = "submitted"; payload = request (payload_of submission) },
        )
          ∷ [])
    × (task_status v "a1" ≡ response (new_task "a1" "sales per region" "shop" "" 10))
new_submission_example =
    new_submission sha empty_world submission "a1" (inr (key_text, has_key, unseen)) refl

resubmission_example :
    let v = (task_submit sha empty_world submission "a1").0 in
    let later = record v { now = v.now + 5000000 } in
    task_submit sha later submission "b2" ≡ (later, "a1")
resubmission_example =
    resubmission sha empty_world submission "a1" key_text [] 5000000 submission "b2" has_key unseen
      refl refl (omega arith) has_key

feedback_ignored_example :
    let (v, answer) = task_feedback (world success) "a1" "group by region" in
    (answer ≡ response 1)
    × (v.broker.published
        ≡ (feedback_topic, feedback_message "a1" "group by region" (task success)) ∷ [])
    × ((graph : AgentState → Stream) (p : FeedbackRequest) → handle_feedback graph "a1" p v ≡ v)
feedback_ignored_example =
    feedback_ignored (world success) "a1" "group by region" (task success) there_success refl
      (omega arith)

-- The first attempt raises and publishes the second.
retry_published :
    work (handle_task bad_job "a1" (work_request 0) (world pending))
    ≡ work (world pending) ++ again "a1" (work_request 0) "ValueError: no model" ∷ []
unfolding handle_task task_is_cancelled run_graph consume start task_transition task_heartbeat
    publish send task_update set_state valid_transition allowed task_get
retry_published = refl

abbrev second : Request
second = record (work_request 0) { retry_count = 1; last_error = "ValueError: no model" }

attempts_bounded_example : (second.retry_count ≡ 1) × (1 ≤ max_retries)
attempts_bounded_example = attempts_bounded memory "a1" 1 second (
    retried 0 (work_request 0) second bad_job (world pending) "retry"
      (again "a1" (work_request 0) "ValueError: no model" ∷ []) (submitted (work_request 0) refl)
      retry_published (Memᴰ.head refl))

-- A task that ran to its end, and one whose message is delivered again.
abbrev after_good : World memory
after_good = handle_task good_job "a1" (work_request 0) (world pending)

abbrev after_again : World memory
after_again = handle_task good_job "a1" (work_request 0) (world success)

abbrev state_of : Option TaskState → TaskState
state_of none = task pending
state_of (some t) = t

there_after_good : task_get after_good "a1" ≡ some (state_of (task_get after_good "a1"))
unfolding handle_task task_is_cancelled run_graph consume outside progress start task_transition
    task_heartbeat publish send task_update set_state valid_transition allowed task_get
there_after_good = refl

there_after_again : task_get after_again "a1" ≡ some (state_of (task_get after_again "a1"))
unfolding handle_task task_is_cancelled run_graph consume outside progress start task_transition
    task_heartbeat publish send task_update set_state valid_transition allowed task_get
there_after_again = refl

handle_task_follows_example :
    (t : TaskState) × (task_get (world pending) "a1" ≡ some t)
    × Leads t.status (state_of (task_get after_good "a1")).status
handle_task_follows_example =
    handle_task_follows good_job "a1" (work_request 0) (world pending) "a1"
      (state_of (task_get after_good "a1")) there_after_good

handle_task-final_example : (state_of (task_get after_again "a1")).status ≡ success
handle_task-final_example =
    handle_task-final good_job "a1" (work_request 0) (world success) (task success)
      (state_of (task_get after_again "a1")) there_success (inl refl) there_after_again
