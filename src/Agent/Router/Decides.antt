-- ===== src/Agent/Router/Decides.antt =====
-- How the router decides: by the score, and by the model only at a score of 1.
use nl2sql_agent.Common.{
  ℕ, ◌≤◌, ◌≡◌, refl, sym, ap, ◌∙◌, String, true, arith, ◌⊎◌, inl, inr, ◌↔◌, leb, eqb, ◌==◌, any,
  Bool-cases, eq_iff,
}
use nl2sql_agent.Common.Strings.{contains, lower, rstrip_of, words, strip}
use nl2sql_agent.Agent.Router.Silent.{IsSilent, heuristic_score-IsSilent}
use nl2sql_agent.Common.Regex.{Unicode}
use nl2sql_agent.Agent.State.{AgentState, TokenUsage}
use nl2sql_agent.Agent.Generator.{Reply, answer, failure}
use nl2sql_agent.Agent.Router.{Signals, heuristic_score}
use nl2sql_agent.Agent.Router.Patterns.{multi_intent_patterns}
use nl2sql_agent.Agent.Router.Bounds.{heuristic_score-intent}
use nl2sql_agent.Agent.Router.Node.{classification, borderline, route, router_node, head_word}

-- The reply is an answer whose first word, without the punctuation behind it and in lower case, is
-- "simple".
abbrev pub SaysSimple : Reply → Type 0
SaysSimple (answer raw used) =
    lower (rstrip_of ".,;:!?。，；：！？" (head_word (words (strip raw)))) ≡ "simple"
SaysSimple (failure e) = ⊥

complex-ne-simple : {P : Type 0} (a : String) → a ≡ "complex" → a ≡ "simple" → P
complex-ne-simple a h k = let e = ap (λ s. s == "simple") (sym h ∙ k) in absurd (cc (e))

-- Why a question counts as simple.
abbrev pub WhySimple : Signals → Reply → Type 0
WhySimple t r = (t.score ≡ 0) ⊎ ((t.score ≡ 1) × SaysSimple r)

classification_iff :
    (raw : String)
    → (classification raw ≡ "simple")
      ↔ (lower (rstrip_of ".,;:!?。，；：！？" (head_word (words (strip raw)))) ≡ "simple")
unfolding classification
classification_iff raw =
    let word = lower (rstrip_of ".,;:!?。，；：！？" (head_word (words (strip raw)))) in
    elim (Bool-cases (word == "simple")) [
      | inl same ↦ rw same (λ _. (eq_iff word "simple").0 same, λ _. refl)
      | inr other ↦ rw other (
        complex-ne-simple "complex" refl,
        λ h. let same = (eq_iff word "simple").1 h in absurd (cc),
      )
    ]

borderline_iff :
    (t : Signals) (usage : TokenUsage) (r : Reply)
    → (borderline t usage r).complexity ≡ "simple" ↔ SaysSimple r
unfolding borderline
borderline_iff t usage (answer raw used) = classification_iff raw
borderline_iff t usage (failure e) = (complex-ne-simple "complex" refl, λ h. absurd h)

route_iff :
    (t : Signals) (usage : TokenUsage) (r : Reply)
    → (route t usage r).complexity ≡ "simple" ↔ WhySimple t r
unfolding route
route_iff t usage r = elim (Bool-cases (leb 2 t.score)) [
  | inl high ↦ rw high (
    complex-ne-simple "complex" refl,
    λ why. elim why [ inl z ↦ absurd (ground arith) | inr o ↦ absurd (ground arith) ],
  )
  | inr low ↦ elim (Bool-cases (eqb t.score 1)) [
    | inl one ↦
        rw (low, one)
          (
            λ h. inr (ground arith, (borderline_iff t usage r).0 h),
            λ why. elim why [
              | inl z ↦ absurd (ground arith)
              | inr o ↦ (borderline_iff t usage r).1 o.1
            ],
          )
    | inr other ↦ rw (low, other) (λ h. inl (ground arith), λ why. refl)
  ]
]

route-complex :
    (t : Signals) (usage : TokenUsage) (r : Reply)
    → 2 ≤ t.score
    → ((route t usage r).complexity ≡ "complex") × ((route t usage r).token_usage ≡ usage)
unfolding route
route-complex t usage r h = elim (Bool-cases (leb 2 t.score)) [
  | inl high ↦ rw high (refl, refl)
  | inr low ↦ absurd (ground arith)
]

module _ (u : Unicode) (count_tokens : String → ℕ) (ask : String → Reply) where
  abbrev pub score_of : AgentState → Signals
  score_of s = heuristic_score u (count_tokens s.question) s.question

  -- The router finds a question simple exactly if no signal fires: it has at most 25 tokens, none of
  -- the patterns of the four lists and no "top N" or "at least N", at most one quoted name, at most
  -- one word for a kind of entity, at most one question mark and no compound of aggregates; or if its
  -- score is 1 and the model answers with a text whose first word, without the punctuation behind it
  -- and in lower case, is "simple".
  pub router_node-simple :
      (s : AgentState)
      → (router_node u count_tokens ask s).complexity ≡ "simple" ↔ (
          IsSilent u (count_tokens s.question) s.question
          ⊎ (((score_of s).score ≡ 1) × SaysSimple (ask s.question)))
  unfolding router_node
  router_node-simple s =
      let decides = route_iff (score_of s) s.token_usage (ask s.question) in
      let silent = heuristic_score-IsSilent u (count_tokens s.question) s.question in
      (
        λ h. elim (decides.0 h) [ inl zero ↦ inl (silent.0 zero) | inr one ↦ inr one ],
        λ h. decides.1 (elim h [ inl still ↦ inl (silent.1 still) | inr one ↦ inr one ]),
      )

  -- A question that contains one of the multi-intent patterns, in any case, is complex whatever the
  -- model would say, and no tokens are used for it.
  pub router_node-intent :
      (s : AgentState)
      → any (contains (lower s.question)) multi_intent_patterns ≡ true
      → ((router_node u count_tokens ask s).complexity ≡ "complex")
        × ((router_node u count_tokens ask s).token_usage ≡ s.token_usage)
  unfolding router_node
  router_node-intent s h =
      route-complex (score_of s) s.token_usage (ask s.question)
        (heuristic_score-intent u (count_tokens s.question) s.question h)
