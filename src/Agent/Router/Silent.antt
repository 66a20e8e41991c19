-- ===== src/Agent/Router/Silent.antt =====
-- The questions on which no signal of the router fires, written out.
use nl2sql_agent.Common.{
  ℕ, ◌≤◌, ◌≡◌, refl, sym, String, Bool, true, false, ◌&&◌, ◌||◌, Option, none, some, List, [], ◌∷◌,
  arith, ◌↔◌, if◌then◌else◌, any, ltb, leb, Bool-cases, inl, inr,
}
use mathlib.Core.Path.{subst}
use text.Mathlib.Text.{starts_with}
use nl2sql_agent.Common.Strings.{contains, lower}
use nl2sql_agent.Common.Regex.{Unicode}
use nl2sql_agent.Agent.Router.Patterns.{
  multi_intent_patterns, implicit_complex_patterns, multi_intent_pairs, complex_structure_patterns,
}
use nl2sql_agent.Agent.Router.{
  Signals, fire, fire_if, fire_found, token_signal, parametric_signal, implicit_signal,
  explicit_signals, heuristic_score, first_in, names_top, names_at_least, first_pair,
  count_entities, count_hints, count_questions, names_compound,
}
use nl2sql_agent.Agent.Router.Bounds.{IsWeighed, found-Adds, token-Adds, then-Adds, parametric-Adds}

-- Both texts of some pair stand in the question.
abbrev pub any_pair : String → List (String × String) → Bool
any_pair q [] = false
any_pair q ((a, b) ∷ ps) = (contains q a && contains q b) || any_pair q ps

-- At most 25 tokens, no pattern of the four lists, no "top N" or "at least N", at most one quoted
-- name, one word for a kind of entity and one question mark, and no compound of aggregates.
pub record IsSilent (u : Unicode) (n : ℕ) (question : String) : Type 0 where
  pub tokens : n ≤ 25
  pub intent : any (contains (lower question)) multi_intent_patterns ≡ false
  pub pairs : any_pair (lower question) multi_intent_pairs ≡ false
  pub structure : any (contains (lower question)) complex_structure_patterns ≡ false
  pub top : names_top u (lower question) ≡ false
  pub at_least : names_at_least u (lower question) ≡ false
  pub entities : count_entities u question ≤ 1
  pub hints : count_hints u question ≤ 1
  pub questions : count_questions u question ≤ 1
  pub compound : names_compound u (lower question) ≡ false
  pub implicit : any (contains (lower question)) implicit_complex_patterns ≡ false

abbrev IsZero : Signals → Type 0
IsZero t = t.score ≡ 0

IsZero-if :
    (b : Bool) (d : String) (t : Signals) → IsZero (fire_if b d t) ↔ (IsZero t × (b ≡ false))
IsZero-if true d t = (λ h. absurd (omega arith), λ h. absurd (cc (h.1)))
IsZero-if false d t = (λ h. (h, refl), λ h. h.0)

IsZero-count :
    (k : ℕ) (d : String) (t : Signals) → IsZero (fire_if (leb 2 k) d t) ↔ (IsZero t × (k ≤ 1))
IsZero-count k d t = ground (arith, IsZero-if (leb 2 k) d t)

first_in-none :
    (q : String) (ps : List String) → (first_in q ps ≡ none) ↔ (any (contains q) ps ≡ false)
unfolding first_in
first_in-none q [] = (λ _. refl, λ _. refl)
first_in-none q (p ∷ ps) = ground (arith, first_in-none q ps)

first_pair-none :
    (q : String) (ps : List (String × String)) → (first_pair q ps ≡ none) ↔ (any_pair q ps ≡ false)
unfolding first_pair
first_pair-none q [] = (λ _. refl, λ _. refl)
first_pair-none q ((a, b) ∷ ps) = ground (arith, first_pair-none q ps)

IsZero-found :
    (n : ℕ) (d : String) (o : Option String) (t : Signals)
    → 1 ≤ n
    → IsZero (fire_found n d o t) ↔ (IsZero t × (o ≡ none))
IsZero-found n d none t h = (λ z. (z, refl), λ z. z.0)
IsZero-found n d (some p) t h = (λ z. absurd (omega arith), λ z. absurd (cc (z.1)))

IsZero-token : (n : ℕ) (t : Signals) → IsZero (token_signal n t) ↔ (IsZero t × (n ≤ 25))
unfolding token_signal
IsZero-token n t = ground arith

module _ (u : Unicode) where
  no_details : (t : Signals) → IsWeighed t → IsZero t → t.details ≡ []
  no_details t w z = ground (arith, w.0)

  IsZero-choice :
      (b c : Bool) (d e : String) (t : Signals)
      → IsZero (if b then fire 1 d t else fire_if c e t) ↔ (IsZero t × (b ≡ false) × (c ≡ false))
  IsZero-choice true c d e t = (λ h. absurd (omega arith), λ h. absurd (cc (h.1)))
  IsZero-choice false true d e t = (λ h. absurd (omega arith), λ h. absurd (cc (h.2)))
  IsZero-choice false false d e t = (λ h. (h, refl, refl), λ h. h.0)

  IsZero-parametric :
      (q : String) (t : Signals)
      → IsWeighed t
      → IsZero (parametric_signal u q t)
        ↔ (IsZero t × (names_top u q ≡ false) × (names_at_least u q ≡ false))
  unfolding parametric_signal
  IsZero-parametric q t w =
      let plain : t.details ≡ []
          → IsZero (parametric_signal u q t)
            ↔ (IsZero t × (names_top u q ≡ false) × (names_at_least u q ≡ false)) =
        λ d.
          subst
            (λ ds.
              IsZero (
                if any (λ e. starts_with e "structure:") ds
                then t
                else if names_top u q
                then fire 1 "structure:topN" t
                else fire_if (names_at_least u q) "structure:at_leastN" t)
              ↔ (IsZero t × (names_top u q ≡ false) × (names_at_least u q ≡ false)))
            (sym d)
            (IsZero-choice (names_top u q) (names_at_least u q) "structure:topN"
              "structure:at_leastN" t) in
      (
        λ z. (plain (no_details t w (let a = (parametric-Adds u q t).lower in omega arith))).0 z,
        λ h. (plain (no_details t w h.0)).1 h,
      )

  module _ (n : ℕ) (question : String) where
    abbrev q : String
    q = lower question

    abbrev structured : Signals
    structured = fire_found 1 "structure:" (first_in q complex_structure_patterns) (
        fire_found 2 "multi_intent_pair:" (first_pair q multi_intent_pairs) (
          fire_found 2 "multi_intent:" (first_in q multi_intent_patterns)
            (token_signal n (record { score = 0; details = [] }))))

    structured-IsWeighed : IsWeighed structured
    structured-IsWeighed =
        (then-Adds (token-Adds n _) (
            then-Adds
              (found-Adds 2 "multi_intent:" (first_in q multi_intent_patterns) _ (omega arith)
                (omega arith))
              (then-Adds
                (found-Adds 2 "multi_intent_pair:" (first_pair q multi_intent_pairs) _ (omega arith)
                  (omega arith))
                (found-Adds 1 "structure:" (first_in q complex_structure_patterns) _ (omega arith)
                  (omega arith))))).weighed
          (omega arith, omega arith)

    abbrev counted_entities : Signals
    counted_entities =
        fire_if (leb 2 (count_entities u question)) "entities>=2" (parametric_signal u q structured)

    abbrev counted_hints : Signals
    counted_hints = fire_if (leb 2 (count_hints u question)) "entity_hints>=2" counted_entities

    abbrev counted_questions : Signals
    counted_questions =
        fire_if (leb 2 (count_questions u question)) "multi_step:multi_q" counted_hints

    IsZero-structured : IsZero structured ↔ (
        (n ≤ 25)
        × (any (contains q) multi_intent_patterns ≡ false)
        × (any_pair q multi_intent_pairs ≡ false)
        × (any (contains q) complex_structure_patterns ≡ false))
    IsZero-structured =
        let start = token_signal n (record { score = 0; details = [] }) in
        let meant = fire_found 2 "multi_intent:" (first_in q multi_intent_patterns) start in
        let paired = fire_found 2 "multi_intent_pair:" (first_pair q multi_intent_pairs) meant in
        let a = IsZero-token n (record { score = 0; details = [] }) in
        let b =
          IsZero-found 2 "multi_intent:" (first_in q multi_intent_patterns) start (omega arith) in
        let c =
          IsZero-found 2 "multi_intent_pair:" (first_pair q multi_intent_pairs) meant
            (omega arith) in
        let d =
          IsZero-found 1 "structure:" (first_in q complex_structure_patterns) paired
            (omega arith) in
        (
          λ z.
              let (z3, structure) = d.0 z in
              let (z2, pairs) = c.0 z3 in
              let (z1, intent) = b.0 z2 in
              (
                (a.0 z1).1,
                (first_in-none q multi_intent_patterns).0 intent,
                (first_pair-none q multi_intent_pairs).0 pairs,
                (first_in-none q complex_structure_patterns).0 structure,
              ),
          λ (few, intent, pairs, structure). d.1 (
            c.1 (
              b.1 (a.1 (refl, few), (first_in-none q multi_intent_patterns).1 intent),
              (first_pair-none q multi_intent_pairs).1 pairs,
            ),
            (first_in-none q complex_structure_patterns).1 structure,
          ),
        )

    IsZero-implicit :
        (t : Signals)
        → IsZero (implicit_signal u q t)
          ↔ (IsZero t × (any (contains q) implicit_complex_patterns ≡ false))
    unfolding implicit_signal
    IsZero-implicit t =
        let found =
          IsZero-found 1 "implicit:" (first_in q implicit_complex_patterns) t (omega arith) in
        let none_in = first_in-none q implicit_complex_patterns in
        elim (Bool-cases (ltb t.score 2)) [
          | inl low ↦ rw low (
            λ z. let (zero_t, nothing) = found.0 z in (zero_t, none_in.0 nothing),
            λ h. found.1 (h.0, none_in.1 h.1),
          )
          | inr high ↦
              rw high (λ z. absurd (ground arith), λ h. absurd (let z = h.0 in ground arith))
        ]

    -- The score is 0 exactly if none of the signals fires.
    pub heuristic_score-IsSilent :
        ((heuristic_score u n question).score ≡ 0) ↔ IsSilent u n question
    unfolding heuristic_score explicit_signals
    heuristic_score-IsSilent =
        let whole = fire_if (names_compound u q) "multi_step:compound_agg" counted_questions in
        let a = IsZero-implicit whole in
        let b = IsZero-if (names_compound u q) "multi_step:compound_agg" counted_questions in
        let c = IsZero-count (count_questions u question) "multi_step:multi_q" counted_hints in
        let d = IsZero-count (count_hints u question) "entity_hints>=2" counted_entities in
        let e =
          IsZero-count (count_entities u question) "entities>=2"
            (parametric_signal u q structured) in
        let f = IsZero-parametric q structured structured-IsWeighed in
        let g = IsZero-structured in
        (
          λ z.
              let (z7, implicit) = a.0 z in
              let (z6, compound) = b.0 z7 in
              let (z5, questions) = c.0 z6 in
              let (z4, hints) = d.0 z5 in
              let (z3, entities) = e.0 z4 in
              let (z2, top, at_least) = f.0 z3 in
              let (tokens, intent, pairs, structure) = g.0 z2 in
              record {
                tokens = tokens;
                intent = intent;
                pairs = pairs;
                structure = structure;
                top = top;
                at_least = at_least;
                entities = entities;
                hints = hints;
                questions = questions;
                compound = compound;
                implicit = implicit;
              },
          λ s.
              let z2 = g.1 (s.tokens, s.intent, s.pairs, s.structure) in
              let z3 = f.1 (z2, s.top, s.at_least) in
              a.1 (
                b.1 (c.1 (d.1 (e.1 (z3, s.entities), s.hints), s.questions), s.compound),
                s.implicit,
              ),
        )
