-- ===== src/Task/Tests/Streams.antt =====
-- A listener's stream at concrete turns.
use nl2sql_agent.Common.{List, [], ◌∷◌}
use nl2sql_agent.Task.State.{running, success}
use nl2sql_agent.Task.Api.Stream.{Turn, heard, polled, task_stream}
use nl2sql_agent.Task.Api.Stream.Ends.{EndsWith, verdict, heard_before, task_stream-EndsWith}
use nl2sql_agent.Task.Tests.Memory.{memory}
use nl2sql_agent.Task.Tests.Runs.{world}

-- A token, a poll that finds the task RUNNING, one that finds it SUCCESS, and a late token.
abbrev turns : List (Turn memory)
turns = heard "SELECT" ∷ polled (world running) ∷ polled (world success) ∷ heard "late" ∷ []

task_stream-EndsWith_example :
    EndsWith (task_stream "a1" turns) (heard_before "a1" turns) (verdict "a1" turns)
task_stream-EndsWith_example = task_stream-EndsWith "a1" turns
