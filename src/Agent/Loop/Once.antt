-- ===== src/Agent/Loop/Once.antt =====
-- The retrieved context is expanded once in a run of the feedback graph.
use nl2sql_agent.Common.{ℕ, ◌≡◌, some}
use nl2sql_agent.Common.Result.{Result, ok}
use nl2sql_agent.Agent.State.{AgentState}
use nl2sql_agent.Agent.Graph.{LoopNode, after_refiner}
use nl2sql_agent.Agent.Loop.{Services, node_of}

-- A state has the number of chunks of an expansion.
abbrev IsExpanded : ℕ → AgentState → Type 0
IsExpanded k s = s.rag_k_expanded ≡ some k

-- The states that the nodes of the graph lead to, in whatever order they come.
pub data Later (x : Services) (s : AgentState) : AgentState → Type 0 where
  now : Later x s s
  by_node : (n : LoopNode) (t u : AgentState) → node_of x n t ≡ ok u → Later x s t → Later x s u
  by_post_refiner : (t : AgentState) → Later x s t → Later x s (after_refiner t)
