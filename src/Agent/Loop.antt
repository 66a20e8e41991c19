-- ===== src/Agent/Loop.antt =====
-- agent/graphs/feedback_graph.py: the nodes that the graph is made of.
pub mod Ends
pub mod Once
use nl2sql_agent.Common.{String, List}
use nl2sql_agent.Common.Result.{Result, ok}
use nl2sql_agent.Agent.State.{AgentState, ExecResult}
use nl2sql_agent.Agent.Generator.{Prompt, Reply, generator_node}
use nl2sql_agent.Agent.Guard.{guard_node}
use nl2sql_agent.Agent.Voter.{voter_node}
use nl2sql_agent.Agent.Semantic.{semantic_check_node}
use nl2sql_agent.Agent.Refiner.{Feedback, Knowledge, refiner_node}
use nl2sql_agent.Agent.Graph.{
  LoopNode, generator, guard, voter, semantic_check, refiner, post_refiner,
}
use nl2sql_agent.Guard.Sqlglot.{Sqlglot}
use nl2sql_agent.Retrieval.Schema.{TableInfo}

-- What the nodes use of the world: the chat models, the database, sqlglot, the retrieval.
pub record Services : Type 0 where
  pub chat : Prompt → Reply
  pub extract_sql : String → String
  pub dialect : String
  pub sqlglot : Sqlglot
  pub schema_info : String → List TableInfo
  pub run_sql : String → ExecResult
  pub normalize : ExecResult → Result String
  pub vote : List String → Reply
  pub check : AgentState → Reply
  pub feedback : Feedback
  pub knowledge : Knowledge

-- The nodes of `create_feedback_graph` but its own `_post_refiner`, which a run of the graph puts in.
unfoldable pub node_of : Services → LoopNode → AgentState → Result AgentState
unfolding generator_node guard_node voter_node semantic_check_node refiner_node
node_of x generator s = generator_node x.chat x.extract_sql x.dialect s
node_of x guard s = guard_node x.sqlglot x.schema_info s
node_of x voter s = voter_node x.run_sql x.normalize x.vote s
node_of x semantic_check s = ok (semantic_check_node x.check s)
node_of x refiner s = refiner_node x.feedback x.knowledge s
node_of x post_refiner s = ok s
