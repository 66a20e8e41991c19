-- ===== src/Agent/Router.antt =====
-- agent/nodes/router.py: the score of a question and the node that decides by it. Arguments are the
-- number of tokens that tiktoken counts, the letters outside ASCII, and the reply of the model.
pub mod Patterns
pub mod Node
pub mod Bounds
pub mod Silent
pub mod Decides
mod Tests
use Prim.Native.Char.{Char, code}
use nl2sql_agent.Common.{
  ℕ, suc, ◌+◌, String, Bool, true, false, not, ◌&&◌, ◌||◌, Option, none, some, List, [], ◌∷◌, ◌++◌,
  ◌==◌, if◌then◌else◌, leb, ltb, any, length, truthy, concat, join, str,
}
use nl2sql_agent.Common.Strings.{contains, lower, strip, words, is_space}
use nl2sql_agent.Common.Regex
use nl2sql_agent.Common.Regex.{
  Regex, Unicode, search_for, find_all, literal, one_of, some_of, char_is,
}
use nl2sql_agent.Agent.State.{AgentState, TokenUsage, add_tokens}
use nl2sql_agent.Agent.Generator.{Reply, answer, failure}
use nl2sql_agent.Agent.Router.Patterns.{
  multi_intent_patterns, multi_intent_pairs, complex_structure_patterns, implicit_complex_patterns,
}
use text.Mathlib.Text.{starts_with}

-- `score` and `details`
pub record Signals : Type 0 where
  pub score : ℕ
  pub details : List String

abbrev pub fire : ℕ → String → Signals → Signals
fire n detail t = record { score = t.score + n; details = t.details ++ detail ∷ [] }

-- The first pattern that the text contains, where the loop breaks.
unfoldable pub first_in : String → List String → Option String
first_in q [] = none
first_in q (p ∷ ps) = let later = first_in q ps in if contains q p then some p else later

unfoldable pub first_pair : String → List (String × String) → Option String
first_pair q [] = none
first_pair q ((a, b) ∷ ps) =
    let later = first_pair q ps in
    if contains q a && contains q b then some (concat (a ∷ "+" ∷ b ∷ [])) else later

abbrev pub fire_found : ℕ → String → Option String → Signals → Signals
fire_found n title none t = t
fire_found n title (some p) t = fire n (concat (title ∷ p ∷ [])) t

abbrev pub fire_if : Bool → String → Signals → Signals
fire_if b detail t = if b then fire 1 detail t else t

abbrev is_some_cursor : Option Regex.Cursor → Bool
is_some_cursor none = false
is_some_cursor (some _) = true

-- The tests on the length.
unfoldable pub token_signal : ℕ → Signals → Signals
token_signal n t =
    if ltb 35 n then fire 2 "tokens>35" t else if ltb 25 n then fire 1 "tokens>25" t else t

abbrev between : ℕ → ℕ → Char → Bool
between a b c = leb a (code c) && leb (code c) b

abbrev hint_char : Char → Bool
hint_char c = between 65 90 c || between 97 122 c || between 0x4E00 0x9FFF c

module _ (u : Unicode) where
  -- `word\s+\d+` between word boundaries
  abbrev counted : Regex → Regex
  counted r = Regex.seq Regex.boundary (
      Regex.seq r
        (Regex.seq (some_of is_space) (Regex.seq (some_of (Regex.is_digit u)) Regex.boundary)))

  abbrev at_least : Regex
  at_least = Regex.seq (literal "at") (Regex.seq (some_of is_space) (literal "least"))

  abbrev pub names_top : String → Bool
  names_top q = is_some_cursor (search_for u (counted (literal "top")) q)

  abbrev pub names_at_least : String → Bool
  names_at_least q = is_some_cursor (search_for u (counted at_least) q)

  -- The parametric patterns, where no structure pattern has fired.
  unfoldable pub parametric_signal : String → Signals → Signals
  parametric_signal q t =
      if any (λ d. starts_with d "structure:") t.details
      then t
      else if names_top q
      then fire 1 "structure:topN" t
      else fire_if (names_at_least q) "structure:at_leastN" t

  abbrev other_than : ℕ → Char → Bool
  other_than n c = not (char_is n c)

  -- The title marks of Chinese, and the two kinds of quotes.
  abbrev marked : Regex
  marked = Regex.seq (one_of ("《" ∷ "「" ∷ "『" ∷ [])) (
      Regex.seq (Regex.one (Regex.any_char u))
        (Regex.seq (Regex.lazy (Regex.any_char u)) (one_of ("》" ∷ "」" ∷ "』" ∷ []))))

  abbrev between_quotes : String → ℕ → Regex
  between_quotes q n = Regex.seq (literal q) (Regex.seq (some_of (other_than n)) (literal q))

  unfoldable pub count_entities : String → ℕ
  count_entities q =
      length (find_all u marked q)
      + length (find_all u (between_quotes "\"" 34) q)
      + length (find_all u (between_quotes "'" 39) q)

  abbrev chinese_hint : Regex
  chinese_hint =
      Regex.seq (Regex.one hint_char)
        (Regex.seq (some_of hint_char) (one_of ("品类" ∷ "类别" ∷ "分类" ∷ "商品" ∷ "产品" ∷ [])))

  abbrev whole_word : List String → Regex
  whole_word ws = Regex.seq Regex.boundary (Regex.seq (one_of ws) Regex.boundary)

  abbrev english_hint : Regex
  english_hint = whole_word (
      "category" ∷ "categories" ∷ "type" ∷ "types" ∷ "class" ∷ "classes" ∷ "group" ∷ "groups"
      ∷ "brand" ∷ "product" ∷ [])

  unfoldable pub count_hints : String → ℕ
  unfolding lower
  count_hints q = length (find_all u chinese_hint q) + length (find_all u english_hint (lower q))

  -- `question.count('?')`
  abbrev pub count_questions : String → ℕ
  count_questions String.[] = 0
  count_questions (String.◌∷◌ c s) =
      if char_is 63 c then suc (count_questions s) else count_questions s

  abbrev pub names_compound : String → Bool
  names_compound q =
      is_some_cursor (search_for u (whole_word ("total average" ∷ "average total" ∷ [])) q)

  -- The signals that are tested whatever the others say.
  unfoldable pub explicit_signals : ℕ → String → Signals
  explicit_signals n question =
      let q = lower question in
      fire_if (names_compound q) "multi_step:compound_agg" (
        fire_if (leb 2 (count_questions question)) "multi_step:multi_q" (
          fire_if (leb 2 (count_hints question)) "entity_hints>=2" (
            fire_if (leb 2 (count_entities question)) "entities>=2" (
              parametric_signal q (
                fire_found 1 "structure:" (first_in q complex_structure_patterns) (
                  fire_found 2 "multi_intent_pair:" (first_pair q multi_intent_pairs) (
                    fire_found 2 "multi_intent:" (first_in q multi_intent_patterns)
                      (token_signal n (record { score = 0; details = [] })))))))))

  -- The implicit patterns count only below a score of 2.
  unfoldable pub implicit_signal : String → Signals → Signals
  unfolding first_in
  implicit_signal q t =
      if ltb t.score 2 then fire_found 1 "implicit:" (first_in q implicit_complex_patterns) t else t

  unfoldable pub heuristic_score : ℕ → String → Signals
  heuristic_score n question = implicit_signal (lower question) (explicit_signals n question)
