-- ===== src/Agent/Router/Bounds.antt =====
-- What the score of a question says: bounds by the number of signals, and the multi-intent patterns.
use nl2sql_agent.Common.{
  ℕ, ◌+◌, ◌*◌, ◌≤◌, ◌≡◌, refl, String, Bool, true, false, Option, none, some, List, [], ◌∷◌, ◌++◌,
  arith, length, length-append, if◌then◌else◌, any, ltb, leb, if_cases, Bool-cases, inl, inr,
  concat,
}
use nl2sql_agent.Common.Strings.{contains, lower}
use nl2sql_agent.Common.Regex.{Unicode}
use nl2sql_agent.Agent.Router.Patterns.{
  multi_intent_patterns, implicit_complex_patterns, multi_intent_pairs, complex_structure_patterns,
}
use text.Mathlib.Text.{starts_with}
use text.Mathlib.TextPositions.{starts_with-append}
use nl2sql_agent.Agent.Router.{
  Signals, fire, fire_if, fire_found, token_signal, parametric_signal, implicit_signal,
  explicit_signals, heuristic_score, first_in, names_top, names_at_least, first_pair,
  count_entities, count_hints, count_questions, names_compound,
}

-- A score between the number of its signals and twice that number.
abbrev pub IsWeighed : Signals → Type 0
IsWeighed t = (length t.details ≤ t.score) × (t.score ≤ 2 * length t.details)

-- What a signal that adds at most `w` does to a score: nothing is taken away.
pub record Adds (w : ℕ) (t t' : Signals) : Type 0 where
  pub weighed : IsWeighed t → IsWeighed t'
  pub lower : t.score ≤ t'.score
  pub upper : t'.score ≤ t.score + w

fire-Adds : (n w : ℕ) (d : String) (t : Signals) → 1 ≤ n → n ≤ 2 → n ≤ w → Adds w t (fire n d t)
fire-Adds n w d t h k l = record {
  weighed = λ e. let grown = length-append t.details (d ∷ []) in (omega (arith), omega (arith));
  lower = omega arith;
  upper = omega arith;
}

same-Adds : (w : ℕ) (t : Signals) → Adds w t t
same-Adds w t = record { weighed = λ e. e; lower = omega arith; upper = omega arith }

pub found-Adds :
    (n : ℕ) (d : String) (o : Option String) (t : Signals)
    → 1 ≤ n
    → n ≤ 2
    → Adds n t (fire_found n d o t)
found-Adds n d none t h k = same-Adds n t
found-Adds n d (some p) t h k = fire-Adds n n _ t h k (omega arith)

if-Adds : (b : Bool) (d : String) (t : Signals) → Adds 1 t (fire_if b d t)
if-Adds true d t = fire-Adds 1 1 d t (omega arith) (omega arith) (omega arith)
if-Adds false d t = same-Adds 1 t

pub token-Adds : (n : ℕ) (t : Signals) → Adds 2 t (token_signal n t)
unfolding token_signal
token-Adds n t =
    if_cases (Adds 2 t) (ltb 35 n) _ _
      (λ _. fire-Adds 2 2 _ t (omega arith) (omega arith) (omega arith))
      (λ _.
        if_cases (Adds 2 t) (ltb 25 n) _ _
          (λ _. fire-Adds 1 2 _ t (omega arith) (omega arith) (omega arith)) (λ _. same-Adds 2 t))

pub then-Adds : {v w : ℕ} {s t r : Signals} → Adds v s t → Adds w t r → Adds (v + w) s r
then-Adds a b = record {
  weighed = λ e. b.weighed (a.weighed e);
  lower = let p = a.lower in let q = b.lower in omega arith;
  upper = let p = a.upper in let q = b.upper in omega arith;
}

as-Adds : {v w : ℕ} {s t : Signals} → v ≤ w → Adds v s t → Adds w s t
as-Adds h a = record {
  weighed = a.weighed;
  lower = a.lower;
  upper = let p = a.upper in omega arith;
}

any-last :
    (p : String → Bool) (xs : List String) (x : String) → p x ≡ true → any p (xs ++ x ∷ []) ≡ true
any-last p [] x h = rw h refl
any-last p (y ∷ xs) x h = ground (arith, any-last p xs x h)

choice-Adds :
    (a b c : Bool) (d e : String) (t : Signals)
    → Adds 1 t (if a then t else if b then fire 1 d t else fire_if c e t)
choice-Adds true b c d e t = same-Adds 1 t
choice-Adds false true c d e t = fire-Adds 1 1 d t (omega arith) (omega arith) (omega arith)
choice-Adds false false c d e t = if-Adds c e t

first_in-found :
    (q : String) (ps : List String)
    → any (contains q) ps ≡ true
    → (p : String) × (first_in q ps ≡ some p)
unfolding first_in
first_in-found q [] h = absurd (cc)
first_in-found q (p ∷ ps) h = elim (Bool-cases (contains q p)) [
  | inl here ↦ (p, rw here refl)
  | inr later ↦ let r = first_in-found q ps (rw later at h) in (r.0, rw later r.1)
]

module _ (u : Unicode) where
  pub parametric-Adds : (q : String) (t : Signals) → Adds 1 t (parametric_signal u q t)
  unfolding parametric_signal
  parametric-Adds q t =
      choice-Adds _ (names_top u q) (names_at_least u q) "structure:topN" "structure:at_leastN" t

  -- A structure pattern keeps the parametric ones from firing.
  pub structured-Adds :
      (q : String) (o : Option String) (t : Signals)
      → Adds 1 t (parametric_signal u q (fire_found 1 "structure:" o t))
  unfolding parametric_signal
  structured-Adds q none t = parametric-Adds q t
  structured-Adds q (some p) t =
      let marked =
        any-last (λ d. starts_with d "structure:") t.details (concat ("structure:" ∷ p ∷ []))
          (starts_with-append "structure:" (concat (p ∷ []))) in
      rw marked (fire-Adds 1 1 _ t (omega arith) (omega arith) (omega arith))

  rest-Adds :
      (q : String) (t : Signals)
      → Adds 7 t (
          fire_if (names_compound u (lower q)) "multi_step:compound_agg" (
            fire_if (leb 2 (count_questions u q)) "multi_step:multi_q" (
              fire_if (leb 2 (count_hints u q)) "entity_hints>=2" (
                fire_if (leb 2 (count_entities u q)) "entities>=2" (
                  parametric_signal u (lower q) (
                    fire_found 1 "structure:" (first_in (lower q) complex_structure_patterns) (
                      fire_found 2 "multi_intent_pair:"
                        (first_pair (lower q) multi_intent_pairs)
                        t)))))))
  rest-Adds q t = as-Adds (omega arith) (
      then-Adds
        (found-Adds 2 "multi_intent_pair:" (first_pair (lower q) multi_intent_pairs) _ (omega arith)
          (omega arith))
        (then-Adds (structured-Adds (lower q) (first_in (lower q) complex_structure_patterns) _) (
          then-Adds (if-Adds (leb 2 (count_entities u q)) "entities>=2" _) (
            then-Adds (if-Adds (leb 2 (count_hints u q)) "entity_hints>=2" _) (
              then-Adds (if-Adds (leb 2 (count_questions u q)) "multi_step:multi_q" _)
                (if-Adds (names_compound u (lower q)) "multi_step:compound_agg" _))))))

  explicit-Adds :
      (n : ℕ) (q : String) → Adds 11 (record { score = 0; details = [] }) (explicit_signals u n q)
  unfolding explicit_signals
  explicit-Adds n q = as-Adds (omega arith) (
      then-Adds (token-Adds n _) (
        then-Adds
          (found-Adds 2 "multi_intent:" (first_in (lower q) multi_intent_patterns) _ (omega arith)
            (omega arith))
          (rest-Adds q _)))

  -- The implicit patterns do not fire from 2 on.
  implicit-bounds :
      (q : String) (t : Signals)
      → IsWeighed t
      → t.score ≤ 11
      → let t' = implicit_signal u q t in (t'.score ≤ 11) × IsWeighed t'
  unfolding implicit_signal
  implicit-bounds q t e h =
      if_cases (λ (t' : Signals). (t'.score ≤ 11) × IsWeighed t') (ltb t.score 2) _ _
        (λ small.
          let a =
            found-Adds 1 "implicit:" (first_in q implicit_complex_patterns) t (omega arith)
              (omega arith) in
          let p = a.upper in (ground arith, a.weighed e))
        (λ _. (h, e))

  -- The score of a question is at most 11, and it lies between the number of the signals that fired
  -- and twice that number; so it is 0 exactly if none did.
  pub heuristic_score-IsWeighed :
      (n : ℕ) (q : String)
      → let t = heuristic_score u n q in
        (t.score ≤ 11) × (length t.details ≤ t.score) × (t.score ≤ 2 * length t.details)
  unfolding heuristic_score
  heuristic_score-IsWeighed n q =
      let a = explicit-Adds n q in
      let t = explicit_signals u n q in
      let h = implicit-bounds (lower q) t (a.weighed (omega arith, omega arith)) a.upper in
      (h.0, h.1.0, h.1.1)

  intent-high :
      (n : ℕ) (q : String)
      → any (contains (lower q)) multi_intent_patterns ≡ true
      → 2 ≤ (explicit_signals u n q).score
  unfolding explicit_signals
  intent-high n q h =
      let found = first_in-found (lower q) multi_intent_patterns h in
      rw found.1 (
        let t = token_signal n (record { score = 0; details = [] }) in
        let up = (rest-Adds q (fire_found 2 "multi_intent:" (some found.0) t)).lower in omega arith)

  pub heuristic_score-intent :
      (n : ℕ) (q : String)
      → any (contains (lower q)) multi_intent_patterns ≡ true
      → 2 ≤ (heuristic_score u n q).score
  unfolding heuristic_score implicit_signal
  heuristic_score-intent n q h =
      let high = intent-high n q h in
      if_cases (λ (t : Signals). 2 ≤ t.score) (ltb (explicit_signals u n q).score 2) _ _
        (λ small. absurd (ground arith)) (λ _. high)
