-- ===== src/Agent/Loop/Ends.antt =====
-- The feedback graph of the real nodes ends.
use mathlib.Core.Path.{subst}
use nl2sql_agent.Common.{◌≤◌, ◌≡◌, true, Option, inl, inr, arith, Bool-cases, eqb, String}
use nl2sql_agent.Common.Result.{Result, ok, raised, ok-injective}
use nl2sql_agent.Agent.State.{AgentState}
use nl2sql_agent.Agent.Generator.{
  Reply, answer, failure, generator_node, single, several, ask, Gathered,
}
use nl2sql_agent.Agent.Guard.{guard_node}
use nl2sql_agent.Agent.Voter.{voter_node}
use nl2sql_agent.Agent.Semantic.{semantic_check_node, checked, judged}
use nl2sql_agent.Agent.Refiner.{refiner_node, expand, corrected}
use nl2sql_agent.Agent.Refiner.Expansion.{refiner_node-ok}
use nl2sql_agent.Agent.Graph.{
  LoopNode, generator, guard, voter, semantic_check, refiner, post_refiner, run_feedback_graph,
}
use nl2sql_agent.Agent.Graph.Termination.{feedback_graph_ends, is_generator}
use nl2sql_agent.Agent.Graph.Runs.{ends, nodes, total_weight}
use nl2sql_agent.Task.State.{FeedbackRequest, TaskState}
use nl2sql_agent.Task.Worker.Job.{feedback_state}
use nl2sql_agent.Agent.Loop.{Services, node_of}

-- A node's result has the loop's counters of its input.
abbrev Keeps : AgentState → AgentState → Type 0
Keeps s t = (t.retry_count ≡ s.retry_count) × (t.max_retries ≡ s.max_retries)

module _ (x : Services) where
  single-Keeps :
      (s t : AgentState) (r : Reply) → single x.chat x.extract_sql x.dialect s r ≡ ok t → Keeps s t
  unfolding single
  single-Keeps s t (failure e) h = absurd (cc)
  single-Keeps s t (answer raw used) h = ground arith

  several-Keeps :
      (s t : AgentState) (r : Result Gathered)
      → several x.chat x.extract_sql x.dialect s r ≡ ok t
      → Keeps s t
  unfolding several
  several-Keeps s t (raised e) h = absurd (cc)
  several-Keeps s t (ok g) h = ground arith

  generator-Keeps :
      (s t : AgentState) → generator_node x.chat x.extract_sql x.dialect s ≡ ok t → Keeps s t
  unfolding generator_node
  generator-Keeps s t h = elim (Bool-cases (eqb s.retry_count 0)) [
    | inl first ↦ single-Keeps s t (ask x.chat x.extract_sql x.dialect s 0) (rw first at h)
    | inr later ↦ several-Keeps s t _ (rw later at h)
  ]

  guard-Keeps : (s t : AgentState) → guard_node x.sqlglot x.schema_info s ≡ ok t → Keeps s t
  unfolding guard_node
  guard-Keeps s t h = ground arith

  voter-Keeps : (s t : AgentState) → voter_node x.run_sql x.normalize x.vote s ≡ ok t → Keeps s t
  unfolding voter_node
  voter-Keeps s t h = ground arith

  semantic-Keeps : (s : AgentState) → Keeps s (semantic_check_node x.check s)
  unfolding semantic_check_node checked judged
  semantic-Keeps s = ground arith

  corrected-Keeps :
      (hint : String) (s : AgentState) → Keeps s (corrected x.feedback x.knowledge hint s)
  unfolding corrected expand
  corrected-Keeps hint s = ground arith

  refiner-Keeps : (s t : AgentState) → refiner_node x.feedback x.knowledge s ≡ ok t → Keeps s t
  refiner-Keeps s t h =
      let (hint, _, same) = refiner_node-ok x.feedback x.knowledge s t h in
      subst (Keeps s) same (corrected-Keeps hint s)

  node_of-Keeps : (n : LoopNode) (s t : AgentState) → node_of x n s ≡ ok t → Keeps s t
  unfolding node_of
  node_of-Keeps generator s t h = generator-Keeps s t h
  node_of-Keeps guard s t h = guard-Keeps s t h
  node_of-Keeps voter s t h = voter-Keeps s t h
  node_of-Keeps semantic_check s t h = subst (Keeps s) (ok-injective h) (semantic-Keeps s)
  node_of-Keeps refiner s t h = refiner-Keeps s t h
  node_of-Keeps post_refiner s t h = ground arith

  -- A feedback round of the worker, on whatever message and stored task, with whatever the models,
  -- the database and the retrieval answer: within langgraph's 25 steps the graph finishes or fails
  -- in a node, and the generator runs twice at most.
  pub feedback_round_ends :
      (p : FeedbackRequest) (t : Option TaskState)
      → let r = run_feedback_graph (node_of x) 25 (feedback_state p t) in
        (ends r ≡ true) × (total_weight is_generator (nodes r) ≤ 2)
  unfolding feedback_state
  feedback_round_ends p t =
      feedback_graph_ends (node_of x) node_of-Keeps (feedback_state p t) 25 (omega arith)
        (omega arith)
