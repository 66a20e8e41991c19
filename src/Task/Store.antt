-- ===== src/Task/Store.antt =====
-- infrastructure/task_store.py on the interface of Redis. `World` is what the processes share: the
-- database (`none` where `get_redis` gives None), the clock and the broker of infrastructure/broker.py.
pub mod Lookup
pub mod Published
pub mod Transitions
pub mod Scan
use Prim.Native.Nat.{◌/◌}
use nl2sql_agent.Common.{
  ℕ, ◌+◌, ◌-◌, String, ◌≡◌, Bool, true, false, ◌&&◌, ◌||◌, not, Option, none, some, List, [], ◌∷◌,
  ◌++◌, ◌==◌, if◌then◌else◌, ltb, prefix, concat, str, is_some, min, zero, suc,
}
use nl2sql_agent.Task.State.{
  Status, pending, running, success, failed, timeout, cancelled, TaskState, TaskMessage, Topic,
}
use nl2sql_agent.Task.Redis.{
  Redis, Key, state_key, heartbeat_key, cancel_key, idempotent_key, Value, document, time, text,
  seconds,
}

abbrev pub heartbeat_ttl_s : ℕ
heartbeat_ttl_s = 30

abbrev pub heartbeat_stale_s : ℕ
heartbeat_stale_s = 60

abbrev pub ttl_idempotent : ℕ
ttl_idempotent = 300

abbrev pub ttl_cancel_flag : ℕ
ttl_cancel_flag = 3600

abbrev pub task_feedback_max_turns : ℕ
task_feedback_max_turns = 10

unfoldable pub ttl_for_status : Status → ℕ
ttl_for_status pending = 7200
ttl_for_status running = 7200
ttl_for_status timeout = 3600
ttl_for_status success = 86400
ttl_for_status failed = 86400
ttl_for_status cancelled = 86400

-- `get_task_timeout`
unfoldable pub get_task_timeout : ℕ → ℕ
get_task_timeout zero = 120
get_task_timeout (suc zero) = 300
get_task_timeout (suc (suc n)) = 480

-- The table `allowed` of `_valid_transition`.
unfoldable pub allowed : Status → Status → Bool
allowed pending running = true
allowed pending cancelled = true
allowed running success = true
allowed running failed = true
allowed running timeout = true
allowed running cancelled = true
allowed failed pending = true
allowed timeout pending = true
allowed _ _ = false

unfoldable pub is_pending : Status → Bool
is_pending pending = true
is_pending _ = false

unfoldable pub valid_transition : Option TaskState → Status → Bool
unfolding allowed is_pending
valid_transition none status = is_pending status
valid_transition (some current) status = allowed current.status status

-- Kafka as a producer sees it: whether it takes a message, which it never does where there is no
-- connection, and what it has taken.
pub record Broker : Type 0 where
  pub accepts : Topic × TaskMessage → Bool
  pub published : List (Topic × TaskMessage)

-- What a broker has after a send, which leaves no trace if it fails.
unfoldable pub send : Broker → Topic × TaskMessage → Broker
send b m = if b.accepts m then record b { published = b.published ++ m ∷ [] } else b

pub record World (redis : Redis) : Type 0 where
  pub db : Option redis.Db
  pub now : ℕ
  pub broker : Broker

-- `json.loads`, None where the text is no JSON.
abbrev pub loads : Option Value → Option TaskState
loads (some (document t)) = some t
loads _ = none

abbrev pub with_status : Status → (TaskState → TaskState) → TaskState → TaskState
with_status status extra t = record (extra t) { status = status }

abbrev pub ended : Status → Bool
ended success = true
ended failed = true
ended _ = false

abbrev pub id_of : Option Value → Option String
id_of (some (text id)) = some id
id_of _ = none

abbrev pub with_error : String → TaskState → TaskState
with_error e t = record t { error = some e }

-- Why a heartbeat is stale, `none` where it is fresh.
unfoldable pub stale_error : ℕ → ℕ → Option Value → Option String
stale_error now stale_s none =
    some (concat ("Worker lost (no heartbeat for " ∷ str stale_s ∷ "s)" ∷ []))
stale_error now stale_s (some (time beat)) =
    if ltb (seconds stale_s) (now - beat)
    then some (concat ("Worker lost (heartbeat stale " ∷ str ((now - beat) / 1000000) ∷ "s)" ∷ []))
    else none
stale_error now stale_s (some v) = some "Worker lost (heartbeat unparseable)"

abbrev pub is_running : Status → Bool
is_running running = true
is_running _ = false

-- What a scan finds wrong with a task of a given state and heartbeat.
unfoldable pub lost_of : ℕ → ℕ → Option TaskState → Option Value → Option String
unfolding stale_error
lost_of now stale_s none beat = none
lost_of now stale_s (some t) beat =
    if is_running t.status then stale_error now stale_s beat else none

-- The state of a task that is made at a given time.
abbrev pub new_task : String → String → String → String → ℕ → TaskState
new_task id question db_id database_url now = record {
  task_id = id;
  status = pending;
  question = prefix 200 question;
  db_id = db_id;
  database_url = database_url;
  progress = 0;
  node = none;
  sql = none;
  exec_result = none;
  token_usage = none;
  retry_count = 0;
  error = none;
  created_at = now;
  updated_at = now;
  schema_text = "";
  notes_text = "";
  fewshot_text = "";
  conversation_turns = [];
}

module _ {redis : Redis} where
  -- `broker.publish`; nobody reads the Boolean that it returns.
  unfoldable pub publish : World redis → Topic → TaskMessage → World redis
  unfolding send
  publish w topic msg = record w { broker = send w.broker (topic, msg) }

  abbrev pub get : World redis → Key → Option Value
  get w key = elim w.db [ none ↦ none | some db ↦ redis.get db w.now key ]

  abbrev pub setex : World redis → Key → ℕ → Value → World redis
  setex w key ttl v = elim w.db [
    | none ↦ w
    | some db ↦ record w { db = some (redis.setex db w.now key ttl v) }
  ]

  abbrev pub delete : World redis → Key → World redis
  delete w key = elim w.db [ none ↦ w | some db ↦ record w { db = some (redis.delete db key) } ]

  unfoldable pub task_get : World redis → String → Option TaskState
  task_get w id = loads (get w (state_key id))

  -- `_set_state`
  unfoldable pub set_state : World redis → String → TaskState → World redis
  unfolding ttl_for_status
  set_state w id t = setex w (state_key id) (ttl_for_status t.status) (document t)

  unfoldable pub task_create : World redis → String → String → String → String → World redis
  unfolding set_state
  task_create w id question db_id database_url =
      set_state w id (new_task id question db_id database_url w.now)

  -- The keyword arguments are the change that they make to the state.
  unfoldable pub task_update : World redis → String → (TaskState → TaskState) → World redis
  unfolding task_get set_state
  task_update w id change = elim (task_get w id) [
    | none ↦ w
    | some t ↦ set_state w id (record (change t) { updated_at = w.now })
  ]

  unfoldable pub task_transition :
      World redis → String → Status → (TaskState → TaskState) → World redis
  unfolding valid_transition task_update task_get
  task_transition w id status extra =
      if valid_transition (task_get w id) status
      then task_update w id (with_status status extra)
      else w

  unfoldable pub feedback_transition : World redis → String → World redis
  unfolding task_update task_get
  feedback_transition w id = elim (task_get w id) [
    | none ↦ w
    | some t ↦
        if ended t.status
        then task_update w id (λ u. record u { status = running; node = none; progress = 0 })
        else w
  ]

  unfoldable pub task_request_cancel : World redis → String → World redis
  task_request_cancel w id = setex w (cancel_key id) ttl_cancel_flag (text "1")

  unfoldable pub task_is_cancelled : World redis → String → Bool
  task_is_cancelled w id = is_some (get w (cancel_key id))

  unfoldable pub task_clear_cancel : World redis → String → World redis
  task_clear_cancel w id = delete w (cancel_key id)

  unfoldable pub idempotent_check : World redis → String → Option String
  idempotent_check w hash = id_of (get w (idempotent_key hash))

  unfoldable pub idempotent_set : World redis → String → String → World redis
  idempotent_set w hash id = setex w (idempotent_key hash) ttl_idempotent (text id)

  unfoldable pub task_heartbeat : World redis → String → World redis
  task_heartbeat w id = setex w (heartbeat_key id) heartbeat_ttl_s (time w.now)

  unfoldable pub task_get_heartbeat : World redis → String → Option Value
  task_get_heartbeat w id = get w (heartbeat_key id)

  unfoldable pub lost : World redis → ℕ → String → Option String
  unfolding task_get task_get_heartbeat
  lost w stale_s id = lost_of w.now stale_s (task_get w id) (task_get_heartbeat w id)

  unfoldable pub scan_ids : ℕ → World redis → List String → World redis × List String
  unfolding lost task_transition
  scan_ids stale_s w [] = (w, [])
  scan_ids stale_s w (id ∷ ids) = elim (lost w stale_s id) [
    | none ↦ scan_ids stale_s w ids
    | some e ↦
        let (v, found) = scan_ids stale_s (task_transition w id timeout (with_error e)) ids in
        (v, id ∷ found)
  ]

  unfoldable pub scan_stale_tasks : ℕ → World redis → World redis × List String
  unfolding scan_ids
  scan_stale_tasks stale_s w = elim w.db [
    | none ↦ (w, [])
    | some db ↦ scan_ids stale_s w (redis.scan db w.now)
  ]
