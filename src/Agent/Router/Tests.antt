-- ===== src/Agent/Router/Tests.antt =====
-- Concrete questions for the router.
use nl2sql_agent.Common.{ℕ, ◌≡◌, refl, ◌⊎◌, ◌↔◌, String, none, [], ◌∷◌}
use nl2sql_agent.Common.Strings.{contains, lower, is_space}
use nl2sql_agent.Common.Regex.{ascii_only, search_for, find_all, is_word, is_digit}
use nl2sql_agent.Agent.State.{AgentState, no_tokens}
use nl2sql_agent.Agent.Generator.{Reply, answer}
use nl2sql_agent.Agent.Router.{
  heuristic_score, explicit_signals, implicit_signal, count_hints, count_entities,
  parametric_signal, first_pair, token_signal,
}
use nl2sql_agent.Agent.Router.Node.{router_node, classification}
use nl2sql_agent.Agent.Router.Silent.{IsSilent}
use nl2sql_agent.Agent.Router.Decides.{SaysSimple, score_of, router_node-simple}
use nl2sql_agent.Task.State.{FeedbackRequest}
use nl2sql_agent.Task.Worker.Job.{initial_state, default_request}

abbrev message : FeedbackRequest
message = record {
  feedback = "";
  turn = 1;
  question = "";
  db_id = "shop";
  database_url = "sqlite:///shop.db";
  sql = none;
  exec_result = none;
  conversation_turns = [];
}

abbrev asked : String → AgentState
asked q = record (initial_state (default_request message)) { question = q }

abbrev count : String → ℕ
count q = 6

abbrev model : String → Reply
model q = answer "Simple. One table." no_tokens

abbrev twofold : String
twofold = "Show sales and also show the top 5 costs"

router_node-simple_example :
    (router_node ascii_only count model (asked twofold)).complexity ≡ "simple" ↔ (
      IsSilent ascii_only (count twofold) twofold
      ⊎ (((score_of ascii_only count model (asked twofold)).score ≡ 1)
          × SaysSimple (model twofold)))
router_node-simple_example = router_node-simple ascii_only count model (asked twofold)

scores :
    ((heuristic_score ascii_only 6 twofold).details
      ≡ "multi_intent:and also" ∷ "structure:topN" ∷ [])
    × ((heuristic_score ascii_only 6 "List the 'A' and 'B' stores?").details ≡ "entities>=2" ∷ [])
unfolding heuristic_score implicit_signal explicit_signals search_for lower is_word count_hints
    find_all count_entities parametric_signal contains first_pair token_signal is_space is_digit
scores = (refl, refl)

says_simple : classification " Simple. One table." ≡ "simple"
unfolding classification
says_simple = refl
