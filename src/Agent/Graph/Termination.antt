-- ===== src/Agent/Graph/Termination.antt =====
-- The correction loop ends: how many steps a run of each graph takes at most, and how often it
-- generates.
use nl2sql_agent.Common.{ℕ, suc, ◌+◌, ◌-◌, ◌*◌, ◌≤◌, ◌<◌, ◌≡◌, true, some, arith}
use nl2sql_agent.Common.Result.{Result, ok}
use nl2sql_agent.Agent.State.{AgentState}
use nl2sql_agent.Agent.Graph.{
  LoopNode, generator, guard, voter, semantic_check, refiner, post_refiner, FullNode, router,
  schema_retriever, decomposer, fewshot_selector, loop, next, next_full, loop_node, full_node,
  run_feedback_graph, run_full_graph,
}
use nl2sql_agent.Agent.Graph.Runs.{ends, nodes, total_weight, Falls, Pays, run-ends, run-weight}

-- A node leaves the two counters of the loop alone.
abbrev pub KeepsRetries : {N : Type 0} → (N → AgentState → Result AgentState) → Type 0
KeepsRetries {N} node =
    (n : N) (s t : AgentState)
    → node n s ≡ ok t
    → (t.retry_count ≡ s.retry_count) × (t.max_retries ≡ s.max_retries)

-- Retries are left.
abbrev pub HasRounds : AgentState → Type 0
HasRounds s = s.retry_count ≤ s.max_retries

-- The rounds of generation that are left, this one included.
abbrev pub rounds : AgentState → ℕ
rounds s = suc s.max_retries - s.retry_count

-- The steps that come behind a node at most.
steps : LoopNode → ℕ → ℕ
steps generator k = 6 * k - 1
steps guard k = 6 * k - 2
steps voter k = 6 * k - 3
steps semantic_check k = 6 * k - 4
steps refiner k = 6 * k - 5
steps post_refiner k = 6 * k - 6

-- The rounds of generation that a node and all behind it take at most.
generations : LoopNode → ℕ → ℕ
generations generator k = k
generations _ k = k - 1

abbrev pub is_generator : LoopNode → ℕ
is_generator generator = 1
is_generator _ = 0

module _ (node : LoopNode → AgentState → Result AgentState) (keeps : KeepsRetries node) where
  loop-step :
      (n : LoopNode) (s t : AgentState) (m : LoopNode)
      → HasRounds s
      → loop_node node n s ≡ ok t
      → next n t ≡ some m
      → HasRounds t
        × (steps m (rounds t) < steps n (rounds s))
        × (is_generator n + generations m (rounds t) ≤ generations n (rounds s))
  unfolding loop_node next steps generations
  loop-step generator s t m i e k = ground (arith, keeps generator s t e)
  loop-step guard s t m i e k = ground (arith, keeps guard s t e)
  loop-step voter s t m i e k = ground (arith, keeps voter s t e)
  loop-step semantic_check s t m i e k = ground (arith, keeps semantic_check s t e)
  loop-step refiner s t m i e k = ground (arith, keeps refiner s t e)
  loop-step post_refiner s t m i e k = ground arith

  loop-Falls : Falls next (loop_node node) HasRounds (λ n s. steps n (rounds s))
  loop-Falls n s t m i e k = let (j, less, _) = loop-step n s t m i e k in (j, less)

  loop-Pays : Pays next (loop_node node) HasRounds is_generator (λ n s. generations n (rounds s))
  loop-Pays n s t m i e k = let (j, _, paid) = loop-step n s t m i e k in (j, paid)

  -- With nodes that leave `retry_count` and `max_retries` alone, with retries left and a recursion
  -- limit of at least 6 (max_retries + 1 - retry_count) - 4, a run of the feedback graph finishes or
  -- fails in a node, and it enters the generator at most max_retries - retry_count times.
  pub feedback_graph_ends :
      (s : AgentState) (limit : ℕ)
      → HasRounds s
      → 6 * rounds s ≤ limit + 4
      → (ends (run_feedback_graph node limit s) ≡ true)
        × (total_weight is_generator (nodes (run_feedback_graph node limit s))
            ≤ s.max_retries - s.retry_count)
  unfolding run_feedback_graph steps generations
  feedback_graph_ends s limit i h = (
    run-ends next (loop_node node) HasRounds (λ n t. steps n (rounds t)) loop-Falls limit refiner s
        i (omega arith),
    omega (
      arith,
      run-weight next (loop_node node) HasRounds is_generator (λ n t. generations n (rounds t))
          loop-Pays covers limit refiner s i,
    ),
  )
    where
      covers :
          (n : LoopNode) (t : AgentState) → HasRounds t → is_generator n ≤ generations n (rounds t)
      covers n t j = ground arith

steps_full : FullNode → ℕ → ℕ
unfolding steps
steps_full router k = 6 * k + 3
steps_full schema_retriever k = 6 * k + 2
steps_full decomposer k = 6 * k + 1
steps_full fewshot_selector k = 6 * k
steps_full (loop n) k = steps n k

generations_full : FullNode → ℕ → ℕ
unfolding generations
generations_full (loop n) k = generations n k
generations_full _ k = k

abbrev pub is_generator_full : FullNode → ℕ
is_generator_full (loop n) = is_generator n
is_generator_full _ = 0

module _ (node : FullNode → AgentState → Result AgentState) (keeps : KeepsRetries node) where
  full-step :
      (n : FullNode) (s t : AgentState) (m : FullNode)
      → HasRounds s
      → full_node node n s ≡ ok t
      → next_full n t ≡ some m
      → HasRounds t
        × (steps_full m (rounds t) < steps_full n (rounds s))
        × (is_generator_full n + generations_full m (rounds t) ≤ generations_full n (rounds s))
  unfolding full_node next_full steps_full generations_full
  full-step router s t m i e k = ground (arith, keeps router s t e)
  full-step schema_retriever s t m i e k = ground (arith, keeps schema_retriever s t e)
  full-step decomposer s t m i e k = ground (arith, keeps decomposer s t e)
  full-step fewshot_selector s t m i e k = ground (arith, keeps fewshot_selector s t e)
  full-step (loop generator) s t m i e k = ground (arith, keeps (loop generator) s t e)
  full-step (loop guard) s t m i e k = ground (arith, keeps (loop guard) s t e)
  full-step (loop voter) s t m i e k = ground (arith, keeps (loop voter) s t e)
  full-step (loop semantic_check) s t m i e k = ground (arith, keeps (loop semantic_check) s t e)
  full-step (loop refiner) s t m i e k = ground (arith, keeps (loop refiner) s t e)
  full-step (loop post_refiner) s t m i e k = ground arith

  full-Falls : Falls next_full (full_node node) HasRounds (λ n s. steps_full n (rounds s))
  full-Falls n s t m i e k = let (j, less, _) = full-step n s t m i e k in (j, less)

  full-Pays :
      Pays next_full
        (full_node node)
        HasRounds
        is_generator_full
        (λ n s. generations_full n (rounds s))
  full-Pays n s t m i e k = let (j, _, paid) = full-step n s t m i e k in (j, paid)

  -- With nodes that leave `retry_count` and `max_retries` alone, with retries left and a recursion
  -- limit of at least 6 (max_retries + 1 - retry_count) + 4, a run of the full graph finishes or fails
  -- in a node, and it enters the generator at most max_retries + 1 - retry_count times.
  pub full_graph_ends :
      (s : AgentState) (limit : ℕ)
      → HasRounds s
      → 6 * rounds s + 4 ≤ limit
      → (ends (run_full_graph node limit s) ≡ true)
        × (total_weight is_generator_full (nodes (run_full_graph node limit s)) ≤ rounds s)
  unfolding run_full_graph steps_full generations_full
  full_graph_ends s limit i h = (
    run-ends next_full (full_node node) HasRounds (λ n t. steps_full n (rounds t)) full-Falls limit
        router s i (omega arith),
    run-weight next_full (full_node node) HasRounds is_generator_full
        (λ n t. generations_full n (rounds t)) full-Pays covers limit router s i,
  )
    where
      covers :
          (n : FullNode) (t : AgentState)
          → HasRounds t
          → is_generator_full n ≤ generations_full n (rounds t)
      covers (loop n) t j = ground arith
      covers n t j = ground arith
