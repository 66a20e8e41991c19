-- ===== src/Guard/Review/Raises.antt =====
-- The braces of the prompt's examples are read as fields.
use nl2sql_agent.Common.{◌≡◌, refl, String, List}
use nl2sql_agent.Common.Result.{raised}
use nl2sql_agent.Agent.State.{Issue}
use nl2sql_agent.Agent.Generator.{Reply}
use nl2sql_agent.Guard.Review.{Verdict, review}
use nl2sql_agent.Guard.Review.Prompt.{reviewer_prompt, format}

abbrev pub key_error : String
key_error = "KeyError: '\n  \"valid\"'"

format-reviewer_prompt : (dialect : String) → format reviewer_prompt dialect ≡ raised key_error
unfolding format
format-reviewer_prompt dialect = refl

module _ (hard_check : String → String → List Issue) (extract_json : String → Verdict)
    (json : List Issue → String) (ask : String → String → Reply) where
  -- `review` raises a KeyError on every query, schema, notes and dialect, whatever its check finds,
  -- and so never asks the model.
  pub review-raises :
      (sql schema notes dialect : String)
      → review hard_check extract_json json ask sql schema notes dialect ≡ raised key_error
  unfolding review
  review-raises sql schema notes dialect = rw format-reviewer_prompt refl
