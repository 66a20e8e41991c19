-- ===== src/Agent/Tests.antt =====
-- Concrete runs of the agent's nodes and graphs.
use nl2sql_agent.Agent.Refiner.{refiner_node}
use nl2sql_agent.Common.{
  ◌-◌, ◌≤◌, ◌≡◌, refl, true, false, none, some, List, [], ◌∷◌, arith, truthy, All,
}
use mathlib.Core.List.{Memᴰ}
use nl2sql_agent.Common.Strings.{strip}
use nl2sql_agent.Common.Result.{Result, ok, raised}
use nl2sql_agent.Agent.State.{AgentState, ExecResult, no_tokens, Cell}
use nl2sql_agent.Agent.Generator.{
  answer, generator_node, single, ask, several, generate_from, gather,
}
use nl2sql_agent.Agent.Generator.Candidates.{HasCandidates, generator_node-HasCandidates}
use nl2sql_agent.Agent.Guard.{guard_node}
use nl2sql_agent.Agent.Voter.{Ballot, voter_node, candidates, ballots, successful, settled}
use nl2sql_agent.Agent.Semantic.{semantic_check_node, checked, judged, read_verdict, normalize_sql}
use nl2sql_agent.Agent.Graph.{
  LoopNode, guard, semantic_check, FullNode, loop, run_feedback_graph, run_full_graph,
  route_after_voter, after_refiner,
}
use nl2sql_agent.Agent.Graph.Runs.{ends, nodes, total_weight}
use nl2sql_agent.Agent.Graph.Termination.{
  KeepsRetries, rounds, is_generator, is_generator_full, feedback_graph_ends, full_graph_ends,
}
use nl2sql_agent.Agent.Graph.Correction.{
  IsSilent, Shows, guard_feedback_lost, semantic_feedback_shown,
}
use nl2sql_agent.Agent.Graph.Vote.{IsPlurality, voter-IsPlurality, voter_never_fails, Comparable}
use nl2sql_agent.Agent.Loop.{Services, node_of}
use nl2sql_agent.Agent.Loop.Ends.{feedback_round_ends}
use nl2sql_agent.Guard.Safety.{check_safety, ast_check, ast_parsed, ast_statements}
use nl2sql_agent.Guard.Sqlglot.{Sqlglot}
use nl2sql_agent.Task.State.{FeedbackRequest}
use nl2sql_agent.Task.Worker.Job.{initial_state, feedback_state, default_request}

abbrev message : FeedbackRequest
message = record {
  feedback = "group by region";
  turn = 1;
  question = "sales per region";
  db_id = "shop";
  database_url = "sqlite:///shop.db";
  sql = some "SELECT 1";
  exec_result = none;
  conversation_turns = [];
}

abbrev first : AgentState
first = initial_state (default_request message)

-- A guard that never passes.
abbrev strict_loop : LoopNode → AgentState → Result AgentState
strict_loop guard s = ok (record s { guard_pass = false })
strict_loop n s = ok s

abbrev strict_full : FullNode → AgentState → Result AgentState
strict_full (loop n) s = strict_loop n s
strict_full n s = ok s

strict_loop-keeps : KeepsRetries strict_loop
strict_loop-keeps n s t h = ground arith

strict_full-keeps : KeepsRetries strict_full
strict_full-keeps n s t h = ground arith

full_graph_ends_example :
    (ends (run_full_graph strict_full 25 first) ≡ true)
    × (total_weight is_generator_full (nodes (run_full_graph strict_full 25 first)) ≤ rounds first)
unfolding initial_state
full_graph_ends_example =
    full_graph_ends strict_full strict_full-keeps first 25 (omega arith) (omega arith)

feedback_graph_ends_example :
    (ends (run_feedback_graph strict_loop 25 first) ≡ true)
    × (total_weight is_generator (nodes (run_feedback_graph strict_loop 25 first))
        ≤ first.max_retries - first.retry_count)
unfolding initial_state
feedback_graph_ends_example =
    feedback_graph_ends strict_loop strict_loop-keeps first 25 (omega arith) (omega arith)

abbrev one_row : ExecResult
one_row = record {
  success = true;
  error = none;
  rows = some ((Cell.number true 1000000 ∷ []) ∷ []);
  columns = some ("n" ∷ []);
  row_count = 1;
  voted_by = none;
  sql = none;
}

-- A parser that reads every text as one DROP.
abbrev drops : Sqlglot
drops = record {
  parse = λ sql dialect. ok (some "drop" ∷ []);
  parse_one = λ sql dialect.
      ok (record { cte_aliases = []; tables = []; columns = []; select_aliases = [] });
}

abbrev services : Services
services = record {
  chat = λ p. answer "DROP TABLE sales" no_tokens;
  extract_sql = λ t. t;
  dialect = "";
  sqlglot = drops;
  schema_info = λ url. [];
  run_sql = λ sql. one_row;
  normalize = λ r. ok "one";
  vote = λ sqls. answer "1" no_tokens;
  check = λ s. answer "NO: the region is missing" no_tokens;
  feedback = record {
    user = λ s sql. "user";
    semantic = λ s sql. "semantic";
    execution = λ s sql. "execution";
    guard = λ s sql. "guard";
  };
  knowledge = record { classify = λ e. ok ""; retrieve = λ q db k. []; schema_info = λ url. [] };
}

feedback_round_ends_example :
    let r = run_feedback_graph (node_of services) 25 (feedback_state message none) in
    (ends r ≡ true) × (total_weight is_generator (nodes r) ≤ 2)
feedback_round_ends_example = feedback_round_ends services message none

abbrev state_or : AgentState → Result AgentState → AgentState
state_or s (ok t) = t
state_or s (raised e) = s

-- The first round, whose SQL the guard rejects.
abbrev generated : AgentState
generated =
    state_or first (generator_node services.chat services.extract_sql services.dialect first)

abbrev guarded : AgentState
guarded = state_or generated (guard_node services.sqlglot services.schema_info generated)

generated-ok :
    generator_node services.chat services.extract_sql services.dialect first ≡ ok generated
unfolding initial_state generator_node single ask
generated-ok = refl

guarded-ok : guard_node services.sqlglot services.schema_info generated ≡ ok guarded
unfolding initial_state generator_node single ask guard_node check_safety ast_check ast_parsed
    ast_statements strip
guarded-ok = refl

guard_feedback_lost_example :
    (v : AgentState) × (refiner_node services.feedback services.knowledge guarded ≡ ok v)
    × (truthy (after_refiner v).last_error ≡ true)
    × IsSilent (after_refiner v)
guard_feedback_lost_example =
    guard_feedback_lost services.chat services.extract_sql services.dialect services.sqlglot
      services.schema_info services.feedback services.knowledge first generated guarded ""
      generated-ok guarded-ok refl

-- A retry asks for several candidates; the second one repeats the first.
abbrev retrying : AgentState
retrying = record first { retry_count = 1 }

abbrev regenerated : AgentState
regenerated =
    state_or retrying (generator_node services.chat services.extract_sql services.dialect retrying)

regenerated-ok :
    generator_node services.chat services.extract_sql services.dialect retrying ≡ ok regenerated
unfolding initial_state generator_node several ask generate_from gather
    nl2sql_agent.Agent.Generator.normalize_sql
regenerated-ok = refl

generator_node-HasCandidates_example : HasCandidates regenerated
generator_node-HasCandidates_example =
    generator_node-HasCandidates services.chat services.extract_sql services.dialect retrying
      regenerated regenerated-ok

-- A state whose SQL the semantic check rejects.
abbrev answered : AgentState
answered = record first { sql = "SELECT 1"; candidate_sqls = "SELECT 1" ∷ "SELECT 2" ∷ [] }

semantic_feedback_shown_example :
    (v : AgentState) × (refiner_node services.feedback services.knowledge
        (semantic_check_node services.check answered)
      ≡ ok v)
    × Shows (after_refiner v) answered.sql
unfolding initial_state semantic_check_node checked judged read_verdict normalize_sql
semantic_feedback_shown_example =
    semantic_feedback_shown services.check services.feedback services.knowledge answered "" refl
      refl

-- Every result has a canonical form, and the first candidate runs.
answered-Comparable :
    All
      (Comparable services.run_sql services.normalize services.vote)
      (candidates services.run_sql services.normalize services.vote answered)
unfolding initial_state
answered-Comparable = ((λ h. ("one", refl)), ((λ h. ("one", refl)), tt))

voter_never_fails_example :
    (t : AgentState) × (voter_node services.run_sql services.normalize services.vote answered
      ≡ ok t)
    × (route_after_voter t ≡ semantic_check)
voter_never_fails_example =
    voter_never_fails services.run_sql services.normalize services.vote answered
      (λ url. answered-Comparable)

abbrev good : List Ballot → List Ballot
good all = successful services.run_sql services.normalize services.vote all

voter-IsPlurality_example :
    (all : List Ballot) × (ballots services.run_sql services.normalize services.vote
        (candidates services.run_sql services.normalize services.vote answered)
      ≡ ok all)
    × (w : Ballot) × (voter_node services.run_sql services.normalize services.vote answered
        ≡ ok (settled answered w))
    × Memᴰ w (good all)
    × IsPlurality (good all) w (good all)
unfolding initial_state
voter-IsPlurality_example =
    voter-IsPlurality services.run_sql services.normalize services.vote answered "SELECT 1" refl
      answered-Comparable (Memᴰ.head refl) refl

-- The feedback of the semantic check makes the refiner expand the context.
abbrev doubted : AgentState
doubted = record first { semantic_feedback = "the region is missing"; rag_k = 8 }

abbrev widened : AgentState
widened = state_or doubted (refiner_node services.feedback services.knowledge doubted)
