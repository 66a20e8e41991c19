-- ===== src/Task/Api/Stream.antt =====
-- `task_stream` of api/routes/task.py: the events of one listener. A turn of its loop either gets a
-- token within its half second or polls the store; the list of the turns ends where the deadline of
-- 300 seconds does. The framing of the events is that of a package.
pub mod Ends
use nl2sql_agent.Common.{
  ℕ, String, Bool, true, false, not, ◌&&◌, Option, none, some, List, [], ◌∷◌, ◌++◌, ◌==◌, eqb,
  prefix, truthy, if◌then◌else◌,
}
use nl2sql_agent.Agent.State.{ExecResult, TokenUsage}
use nl2sql_agent.Task.State.{Status, TaskState}
use nl2sql_agent.Task.Redis.{Redis}
use nl2sql_agent.Task.Store.{World, task_get}
use nl2sql_agent.Task.Api.{has_ended}

pub data Event : Type 0 where
  token : String → Event
  -- status, progress, node, the first 200 characters of the SQL, error
  status : Status → ℕ → Option String → String → Option String → Event
  node_done : String → Event
  -- status, SQL, result, tokens, error
  complete : Status → Option String → Option ExecResult → Option TokenUsage → Option String → Event
  error : String → Event
  timed_out : Event

-- A turn of the loop: a token came, or the store is polled.
pub data Turn (redis : Redis) : Type 0 where
  heard : String → Turn redis
  polled : World redis → Turn redis

abbrev pub text_of : Option String → String
text_of none = ""
text_of (some t) = t

abbrev pub same_time : Option ℕ → ℕ → Bool
same_time none now = false
same_time (some last) now = eqb last now

abbrev pub status_events : Option ℕ → TaskState → List Event
status_events last t =
    if same_time last t.updated_at
    then []
    else status t.status t.progress t.node (prefix 200 (text_of t.sql)) t.error ∷ []

abbrev pub node_events : String → TaskState → List Event
node_events last t =
    if truthy (text_of t.node) && not (text_of t.node == last)
    then node_done (text_of t.node) ∷ []
    else []

-- `last_node` after a poll.
abbrev pub seen_node : String → TaskState → String
seen_node last t = if truthy (text_of t.node) then text_of t.node else last

abbrev pub completed : TaskState → Event
completed t = complete t.status t.sql t.exec_result t.token_usage t.error

module _ {redis : Redis} (id : String) where
  -- The events of the turns that are left, with `last_updated` and `last_node`.
  unfoldable pub events : Option ℕ → String → List (Turn redis) → List Event
  unfolding task_get
  events updated node [] = timed_out ∷ []
  events updated node (heard t ∷ turns) = token t ∷ events updated node turns
  events updated node (polled w ∷ turns) = elim (task_get w id) [
    | none ↦ error "Task not found" ∷ []
    | some t ↦
        let rest = events (some t.updated_at) (seen_node node t) turns in
        status_events updated t
        ++ (node_events node t ++ (if has_ended t.status then completed t ∷ [] else rest))
  ]

  -- `task_stream`
  unfoldable pub task_stream : List (Turn redis) → List Event
  unfolding events
  task_stream turns = events none "" turns
