-- ===== src/Agent/Graph.antt =====
-- agent/graphs/: the routes between the nodes, and the run of a compiled graph, which is
-- langgraph's: it applies the node, merges its update and follows the edge, for at most
-- `recursion_limit` steps (25 unless configured). A node is its effect on the state.
pub mod Runs
pub mod Termination
pub mod Correction
pub mod Vote
use nl2sql_agent.Common.{
  ℕ, zero, suc, ◌+◌, String, Bool, ◌&&◌, Option, none, some, List, [], ◌∷◌, ◌==◌, if◌then◌else◌,
  leb,
}
use nl2sql_agent.Common.Result.{Result, ok, raised}
use nl2sql_agent.Agent.State.{AgentState, succeeded}

-- The nodes of the correction loop, which both graphs share.
pub data LoopNode : Type 0 where
  generator guard voter semantic_check refiner post_refiner : LoopNode

pub data FullNode : Type 0 where
  router schema_retriever decomposer fewshot_selector : FullNode
  loop : LoopNode → FullNode

-- `none` is END.
unfoldable pub route_after_guard : AgentState → LoopNode
route_after_guard s = if s.guard_pass then voter else refiner

unfoldable pub route_after_voter : AgentState → LoopNode
route_after_voter s = if succeeded s.exec_result then semantic_check else refiner

unfoldable pub route_after_semantic : AgentState → Option LoopNode
route_after_semantic s = if s.semantic_pass then none else some refiner

unfoldable pub route_after_refiner : AgentState → Option LoopNode
route_after_refiner s = if leb s.retry_count s.max_retries then some generator else none

-- `_after_refiner`
unfoldable pub after_refiner : AgentState → AgentState
after_refiner s = record s { retry_count = s.retry_count + 1 }

unfoldable pub route_after_schema : AgentState → FullNode
route_after_schema s =
    if s.complexity == "complex" && s.decomposer_enabled then decomposer else fewshot_selector

-- The edges of the loop.
unfoldable pub next : LoopNode → AgentState → Option LoopNode
unfolding route_after_guard route_after_voter route_after_semantic route_after_refiner
next generator s = some guard
next guard s = some (route_after_guard s)
next voter s = some (route_after_voter s)
next semantic_check s = route_after_semantic s
next refiner s = some post_refiner
next post_refiner s = route_after_refiner s

unfoldable pub next_full : FullNode → AgentState → Option FullNode
unfolding next route_after_schema
next_full router s = some schema_retriever
next_full schema_retriever s = some (route_after_schema s)
next_full decomposer s = some fewshot_selector
next_full fewshot_selector s = some (loop generator)
next_full (loop n) s = elim (next n s) [ none ↦ none | some m ↦ some (loop m) ]

-- How a run ends; the nodes that it entered come with the state.
pub data Outcome (N S : Type 0) : Type 0 where
  finished : List N → S → Outcome N S
  failed : List N → String → Outcome N S
  recursion_error : List N → Outcome N S

abbrev pub entered : {N S : Type 0} → N → Outcome N S → Outcome N S
entered n (finished ns s) = finished (n ∷ ns) s
entered n (failed ns e) = failed (n ∷ ns) e
entered n (recursion_error ns) = recursion_error (n ∷ ns)

module _ {N S : Type 0} (next_of : N → S → Option N) (node : N → S → Result S) where
  abbrev pub continue : (N → S → Outcome N S) → N → S → Option N → Outcome N S
  continue go n s none = finished (n ∷ []) s
  continue go n s (some m) = entered n (go m s)

  abbrev pub follow : (N → S → Outcome N S) → N → Result S → Outcome N S
  follow go n (raised e) = failed (n ∷ []) e
  follow go n (ok s) = continue go n s (next_of n s)

  -- The run from a node on, with the steps that are left.
  unfoldable pub run : ℕ → N → S → Outcome N S
  run zero n s = recursion_error []
  run (suc limit) n s = follow (run limit) n (node n s)

-- The loop's nodes: `_post_refiner` is the graph's own, the others are given.
unfoldable pub loop_node :
    (LoopNode → AgentState → Result AgentState) → LoopNode → AgentState → Result AgentState
unfolding after_refiner
loop_node node post_refiner s = ok (after_refiner s)
loop_node node n s = node n s

unfoldable pub full_node :
    (FullNode → AgentState → Result AgentState) → FullNode → AgentState → Result AgentState
unfolding after_refiner
full_node node (loop post_refiner) s = ok (after_refiner s)
full_node node n s = node n s

-- `create_feedback_graph` and `create_full_graph`, run from START.
unfoldable pub run_feedback_graph :
    (LoopNode → AgentState → Result AgentState) → ℕ → AgentState → Outcome LoopNode AgentState
unfolding run loop_node next
run_feedback_graph node limit s = run next (loop_node node) limit refiner s

unfoldable pub run_full_graph :
    (FullNode → AgentState → Result AgentState) → ℕ → AgentState → Outcome FullNode AgentState
unfolding run full_node next_full
run_full_graph node limit s = run next_full (full_node node) limit router s
