-- ===== src/Agent/Generator.antt =====
-- agent/nodes/generator.py. The chat model is an argument, a function from the temperature and the
-- prompt of one call to its reply; so is `extract_sql`. The system message is a fixed template
-- filled with the dialect, which stands for it. Token streaming is not modelled: a reply is what
-- its chunks add up to.
pub mod Candidates
use nl2sql_agent.Common.{
  ℕ, suc, String, Bool, not, ◌&&◌, ◌||◌, Option, none, some, List, [], ◌∷◌, ◌++◌, ◌==◌,
  if◌then◌else◌, any, truthy, concat, join, str, eqb, false,
}
use nl2sql_agent.Common.Strings.{words, strip, upper}
use nl2sql_agent.Common.Result.{Result, ok, raised}
use nl2sql_agent.Agent.Dialect.{prompt_dialect}
use nl2sql_agent.Agent.State.{AgentState, SubQuestion, TokenUsage, add_tokens}

-- What the chat model is asked: the temperature in tenths, the dialect of the system message and
-- the user message.
pub record Prompt : Type 0 where
  pub temperature : ℕ
  pub dialect : String
  pub message : String

pub data Reply : Type 0 where
  answer : String → TokenUsage → Reply
  failure : String → Reply

-- `_format_sub_questions` of agent/generator_llm.py
dependencies : List ℕ → String
dependencies [] = ""
dependencies (d ∷ ds) =
    concat (" (depends on steps: [" ∷ join ", " (str d ∷ mathlib.Core.List.map str ds) ∷ "])" ∷ [])

sub_question_line : SubQuestion → String
unfolding dependencies
sub_question_line q = concat ("Step " ∷ str q.id ∷ ": " ∷ q.sub_q ∷ dependencies q.depends_on ∷ [])

pub format_sub_questions : List SubQuestion → String
unfolding sub_question_line
format_sub_questions qs = join "\n" (mathlib.Core.List.map sub_question_line qs)

-- A part of the prompt that is left out when its text is empty.
abbrev pub optional_part : String → String → List String
optional_part title body = if truthy body then concat (title ∷ body ∷ []) ∷ [] else []

abbrev pub error_parts : String → String → List String
error_parts last_error last_sql =
    if truthy last_error && truthy last_sql
    then concat ("## LAST_ERROR\n" ∷ last_error ∷ [])
      ∷ concat ("## LAST_SQL\n" ∷ last_sql ∷ [])
      ∷ []
    else []

abbrev pub notes_title : String
notes_title = concat (
    "## RETRIEVED NOTES\n" ∷ "Notes are hints only. SCHEMA is the ground truth — if notes conflict "
    ∷ "with schema columns, types, or values, trust the schema.\n" ∷ [])

abbrev pub sub_question_part : List SubQuestion → List String
sub_question_part [] = []
sub_question_part (q ∷ qs) =
    concat (
      "## SUB_QUESTIONS (use CTE/WITH to implement each step)\n"
      ∷ format_sub_questions (q ∷ qs)
      ∷ [])
    ∷ []

abbrev pub text_or_empty : Option String → String
text_or_empty none = ""
text_or_empty (some t) = t

abbrev pub last_sql_of : AgentState → String
last_sql_of s = text_or_empty s.last_sql

-- The parts that do not depend on an earlier round.
abbrev pub context_parts : AgentState → List String
context_parts s =
    concat ("## SCHEMA\n" ∷ s.schema_text ∷ [])
    ∷ (optional_part "## FEW-SHOT EXAMPLES\n" s.fewshot_text
        ++ (optional_part "## SAMPLE ROWS\n" s.sample_rows_text
            ++ (optional_part notes_title s.notes_text
                ++ (sub_question_part s.sub_questions
                    ++ concat ("## USER QUESTION\n" ∷ s.question ∷ []) ∷ []))))

-- The `parts` of `_generate_one`, with the arguments that the node reads from the state.
unfoldable pub prompt_parts : AgentState → List String
prompt_parts s = error_parts s.last_error (last_sql_of s) ++ context_parts s

-- `_normalize_sql`
unfoldable pub normalize_sql : String → String
unfolding words strip upper
normalize_sql sql = upper (strip (join " " (words sql)))

-- What the loop over the temperatures has gathered.
pub record Gathered : Type 0 where
  pub candidates : List String
  pub raws : List String
  pub usage : TokenUsage

module _ (chat : Prompt → Reply) (extract_sql : String → String) (sql_dialect : String) where
  -- One call of the chat model.
  unfoldable pub ask : AgentState → ℕ → Reply
  ask s temperature = chat (record {
    temperature = temperature;
    dialect = prompt_dialect sql_dialect s.database_url;
    message = join "\n\n" (prompt_parts s);
  })

  abbrev pub is_duplicate : String → List String → Bool
  is_duplicate sql candidates = any (λ c. normalize_sql c == normalize_sql sql) candidates

  -- A reply that came back: its usage and text are kept, its SQL if it is not empty and new.
  unfoldable pub gather : String → TokenUsage → Gathered → Gathered
  gather raw used g =
      let sql = extract_sql raw in
      record {
        candidates =
            if not (truthy sql) || is_duplicate sql g.candidates
            then g.candidates
            else g.candidates ++ sql ∷ [];
        raws = g.raws ++ raw ∷ [];
        usage = add_tokens g.usage used;
      }

  -- `break` after the second temperature, if its SQL repeats an earlier candidate.
  abbrev pub stops_early : ℕ → String → Gathered → Bool
  stops_early i raw g =
      let sql = extract_sql raw in eqb i 1 && (truthy sql && is_duplicate sql g.candidates)

  -- The loop, from its round `i` on.
  unfoldable pub generate_from : AgentState → ℕ → List ℕ → Gathered → Result Gathered
  generate_from s i [] g = ok g
  generate_from s i (temperature ∷ temperatures) g = elim (ask s temperature) [
    | failure e ↦
        let rest = generate_from s (suc i) temperatures g in if eqb i 0 then raised e else rest
    | answer raw used ↦
        let rest = generate_from s (suc i) temperatures (gather raw used g) in
        if stops_early i raw g then ok (gather raw used g) else rest
  ]

  abbrev pub temperatures : List ℕ
  temperatures = 0 ∷ 3 ∷ 6 ∷ []

  unfoldable pub single : AgentState → Reply → Result AgentState
  single s (failure e) = raised e
  single s (answer raw used) = ok (record s {
    sql = extract_sql raw;
    raw_response = raw;
    token_usage = add_tokens s.token_usage used;
    candidate_sqls = [];
    last_error = "";
    last_sql = some "";
    null_sql = false;
  })

  unfoldable pub several : AgentState → Result Gathered → Result AgentState
  several s (raised e) = raised e
  several s (ok g) = elim g.candidates [
    | [] ↦ ok (record s {
      sql = "";
      raw_response = join "\n---\n" g.raws;
      token_usage = g.usage;
      candidate_sqls = [];
      last_error = "All generation attempts returned empty SQL.";
      last_sql = some "";
      null_sql = false;
    })
    | c ∷ cs ↦ ok (record s {
      sql = c;
      raw_response = join "\n---\n" g.raws;
      token_usage = g.usage;
      candidate_sqls = c ∷ cs;
      last_error = "";
      last_sql = some "";
      null_sql = false;
    })
  ]

  -- Several candidates are asked for on a retry only.
  unfoldable pub generator_node : AgentState → Result AgentState
  generator_node s =
      if eqb s.retry_count 0
      then single s (ask s 0)
      else several s (
          generate_from s 0 temperatures
            (record { candidates = []; raws = []; usage = s.token_usage }))
