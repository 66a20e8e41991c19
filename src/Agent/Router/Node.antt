-- ===== src/Agent/Router/Node.antt =====
-- `_llm_classify` and `router_node` of agent/nodes/router.py. The trace and the latencies are left out.

use nl2sql_agent.Common.{
  ℕ, String, Option, none, some, List, [], ◌∷◌, ◌==◌, if◌then◌else◌, leb, eqb, join,
}
use nl2sql_agent.Common.Strings.{lower, strip, rstrip_of, words}
use nl2sql_agent.Common.Regex.{Unicode}
use nl2sql_agent.Agent.State.{AgentState, TokenUsage, add_tokens}
use nl2sql_agent.Agent.Generator.{Reply, answer, failure}
use nl2sql_agent.Agent.Router.{Signals, heuristic_score}

-- What the node adds to the state; `sub_steps` is always empty.
pub record Routing : Type 0 where
  pub complexity : String
  pub router_score : ℕ
  pub router_score_detail : String
  pub router_method : String
  pub token_usage : TokenUsage
  pub router_llm_raw : Option String

abbrev punctuation : String
punctuation = ".,;:!?。，；：！？"

abbrev pub head_word : List String → String
head_word [] = ""
head_word (w ∷ ws) = w

-- The first word of a reply decides; any other word counts as "complex".
unfoldable pub classification : String → String
unfolding lower rstrip_of words strip
classification raw =
    if lower (rstrip_of punctuation (head_word (words (strip raw)))) == "simple"
    then "simple"
    else "complex"

abbrev decided : Signals → TokenUsage → String → Routing
decided t usage complexity = record {
  complexity = complexity;
  router_score = t.score;
  router_score_detail = elim t.details [ [] ↦ "none" | d ∷ ds ↦ join "," (d ∷ ds) ];
  router_method = "heuristic";
  token_usage = usage;
  router_llm_raw = none;
}

-- The answer of the model, or "complex" if it raises.
unfoldable pub borderline : Signals → TokenUsage → Reply → Routing
unfolding classification strip
borderline t usage (answer raw used) =
    record (decided t (add_tokens usage used) (classification raw)) {
      router_method = "llm_borderline";
      router_llm_raw = some (strip raw);
    }
borderline t usage (failure e) = record (decided t usage "complex") {
  router_method = "llm_borderline_error";
}

unfoldable pub route : Signals → TokenUsage → Reply → Routing
unfolding borderline
route t usage reply =
    if leb 2 t.score
    then decided t usage "complex"
    else if eqb t.score 1
    then borderline t usage reply
    else decided t usage "simple"

module _ (u : Unicode) (count_tokens : String → ℕ) (ask : String → Reply) where
  unfoldable pub router_node : AgentState → Routing
  unfolding heuristic_score route
  router_node s =
      route (heuristic_score u (count_tokens s.question) s.question) s.token_usage (ask s.question)
