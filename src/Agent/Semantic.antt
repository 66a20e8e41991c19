-- ===== src/Agent/Semantic.antt =====
-- agent/nodes/semantic_check.py. The model's reply to the check's prompt is an argument; how the
-- texts in the prompt are made is in Prompt and Shown.
pub mod Prompt
pub mod Shown
pub mod Cut
mod Tests
use Prim.Native.Nat.{◌+◌}
use Prim.Native.Char.{code}
use text.Mathlib.Text.{starts_with}
use nl2sql_agent.Common.{
  String, Bool, true, false, not, ◌&&◌, ◌||◌, some, [], ◌∷◌, ◌==◌, if◌then◌else◌, leb, eqb, truthy,
  concat, join, prefix, str,
}
use nl2sql_agent.Common.Strings.{upper, lower, words, strip}
use nl2sql_agent.Agent.State.{AgentState, TokenUsage, add_tokens, no_tokens}
use nl2sql_agent.Agent.Generator.{Reply, answer, failure}

-- `_normalize_sql`
unfoldable pub normalize_sql : String → String
unfolding lower words
normalize_sql sql = join " " (words (lower sql))

-- `raw[2:]`
abbrev drop_two : String → String
drop_two (String.◌∷◌ _ (String.◌∷◌ _ s)) = s
drop_two _ = ""

-- `s.lstrip(":")`
abbrev skip_colons : String → String
skip_colons String.[] = ""
skip_colons (String.◌∷◌ c s) =
    let rest = skip_colons s in if eqb (code c) b':' then rest else String.◌∷◌ c s

pub record Verdict : Type 0 where
  pub passed : Bool
  pub reason : String

-- What the stripped reply says.
unfoldable pub read_verdict : String → Verdict
unfolding upper strip
read_verdict raw =
    if starts_with (upper raw) "YES"
    then record { passed = true; reason = "" }
    else if starts_with (upper raw) "NO"
    then record { passed = false; reason = strip (skip_colons (strip (drop_two raw))) }
    else record { passed = false; reason = prefix 200 raw }

-- The same SQL was rejected twice in a row.
unfoldable pub escapes : AgentState → Bool
escapes s = (normalize_sql s.sql == s.sem_last_rejected_sql) && leb 2 s.sem_reject_count

-- `tu.get(k, 0)` for k in prompt, completion, total: the provider's dict has the keys prompt_tokens,
-- completion_tokens and total_tokens, so that nothing is found.
abbrev misnamed : TokenUsage → TokenUsage
misnamed used = no_tokens

abbrev accepted : AgentState → TokenUsage → AgentState
accepted s used = record s {
  semantic_pass = true;
  semantic_feedback = "";
  token_usage = add_tokens s.token_usage (misnamed used);
  sem_reject_count = 0;
  sem_last_rejected_sql = "";
}

abbrev rejected : AgentState → String → TokenUsage → AgentState
rejected s reason used = record s {
  semantic_pass = false;
  semantic_feedback = reason;
  token_usage = add_tokens s.token_usage (misnamed used);
  sem_reject_count =
      if normalize_sql s.sql == s.sem_last_rejected_sql then s.sem_reject_count + 1 else 1;
  sem_last_rejected_sql = normalize_sql s.sql;
  last_error = concat ("Semantic check failed: " ∷ reason ∷ []);
  last_sql = some s.sql;
  null_sql = false;
}

unfoldable pub judged : AgentState → Verdict → TokenUsage → AgentState
judged s v used = if v.passed then accepted s used else rejected s v.reason used

unfoldable pub checked : AgentState → Reply → AgentState
unfolding judged
checked s (failure e) = record s {
  semantic_pass = true;
  semantic_feedback = concat ("(check skipped: " ∷ e ∷ ")" ∷ []);
}
checked s (answer raw used) = judged s (read_verdict (strip raw)) used

unfoldable pub semantic_check_node : (AgentState → Reply) → AgentState → AgentState
unfolding checked escapes
semantic_check_node check s =
    if not (truthy s.sql) || not (truthy s.question)
    then record s { semantic_pass = true; semantic_feedback = "" }
    else if escapes s
    then record s {
      semantic_pass = true;
      semantic_feedback =
          concat (
            "(escape hatch: same SQL rejected " ∷ str s.sem_reject_count ∷ " times, passing)" ∷ []);
    }
    else checked s (check s)
