-- ===== src/Guard/Review.antt =====
-- guard/review.py: the review of a query by a model, after a check of its identifiers. Arguments are
-- that check (`_hard_check_hallucinations`), the reading of the reply (`extract_json`), the text of
-- a list of issues, and the model.
pub mod Prompt
pub mod Raises
use Prim.Native.Char.{Char, code}
use nl2sql_agent.Common.{
  ℕ, ◌+◌, String, Bool, true, false, not, ◌&&◌, ◌||◌, Option, none, some, List, [], ◌∷◌, ◌++◌, ◌==◌,
  if◌then◌else◌, eqb, is_nil, length, truthy, concat, join,
}
use nl2sql_agent.Common.Strings.{lower, mem_text}
use nl2sql_agent.Common.Regex
use nl2sql_agent.Common.Regex.{Regex, search_for, literal, some_of, char_is, ascii_only}
use nl2sql_agent.Common.Result.{Result, ok, raised}
use nl2sql_agent.Agent.State.{Issue, TokenUsage}
use nl2sql_agent.Agent.Generator.{Reply, answer, failure}
use nl2sql_agent.Guard.Review.Prompt.{reviewer_prompt, format}

-- What `extract_json` reads from the model's reply; an absent field is false, [], 0 or "".
pub record Verdict : Type 0 where
  pub valid : Bool
  pub issues : List Issue
  pub critical_count : ℕ
  pub suggested_fix : String

pub record Review : Type 0 where
  pub verdict : Verdict
  pub token_usage : TokenUsage

-- "'([^']+)'"
abbrev quoted : Regex
quoted =
    Regex.seq (literal "'")
      (Regex.seq (Regex.group (some_of (λ c. not (char_is 39 c)))) (literal "'"))

-- The first quoted text of a detail, in lower case.
quoted_id : Issue → Option String
quoted_id i = elim (search_for ascii_only quoted i.detail) [
  | none ↦ none
  | some e ↦ elim e.taken [ none ↦ none | some t ↦ some (lower t) ]
]

seen_ids : List Issue → List String
unfolding quoted_id
seen_ids [] = []
seen_ids (i ∷ is) = elim (quoted_id i) [ none ↦ seen_ids is | some t ↦ t ∷ seen_ids is ]

abbrev is_seen : List String → Option String → Bool
is_seen seen none = false
is_seen seen (some t) = mem_text t seen

deduped : List String → List Issue → List Issue
unfolding quoted_id
deduped seen [] = []
deduped seen (i ∷ is) =
    let rest = deduped seen is in if is_seen seen (quoted_id i) then rest else i ∷ rest

abbrev hallucinations : List Issue → List Issue
hallucinations [] = []
hallucinations (i ∷ is) =
    if i.kind == "hallucination" then i ∷ hallucinations is else hallucinations is

-- The issues of the check and those of the model that do not repeat them.
unfoldable pub merged : List Issue → Verdict → Verdict
unfolding seen_ids deduped
merged hard v =
    let issues = hard ++ deduped (seen_ids hard) v.issues in
    record v {
      valid = v.valid && is_nil hard;
      issues = issues;
      critical_count = v.critical_count + length (hallucinations issues);
    }

module _ (hard_check : String → String → List Issue) (extract_json : String → Verdict)
    (json : List Issue → String) (ask : String → String → Reply) where
  abbrev optional : Bool → String → List String
  optional b t = if b then t ∷ [] else []

  unfoldable pub review_message : String → String → String → List Issue → String
  review_message sql schema notes hard = join "\n\n" (
      concat ("## SCHEMA\n" ∷ schema ∷ [])
      ∷ (optional (truthy notes) (concat ("## RETRIEVED NOTES\n" ∷ notes ∷ []))
          ++ (optional (not (is_nil hard)) (
                concat
                  ("## PRE-DETECTED ISSUES (hallucinations confirmed by code)\n" ∷ json hard ∷ []))
              ++ concat ("## SQL TO REVIEW\n```sql\n" ∷ sql ∷ "\n```" ∷ []) ∷ [])))

  abbrev answered : List Issue → Reply → Result Review
  answered hard (failure e) = raised e
  answered hard (answer raw usage) =
      ok (record { verdict = merged hard (extract_json raw); token_usage = usage })

  abbrev asked : String → List Issue → Result String → Result Review
  asked message hard (raised e) = raised e
  asked message hard (ok system) = answered hard (ask system message)

  unfoldable pub review : String → String → String → String → Result Review
  unfolding merged review_message
  review sql schema notes dialect =
      let hard = hard_check sql schema in
      asked (review_message sql schema notes hard) hard (format reviewer_prompt dialect)
