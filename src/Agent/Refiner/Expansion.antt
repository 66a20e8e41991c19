-- ===== src/Agent/Refiner/Expansion.antt =====
-- The expansion of the retrieved context, and what the repair history says of it.
use Prim.Native.Nat.{◌*◌}
use nl2sql_agent.Common.{
  ◌≡◌, refl, ℕ, true, false, Option, none, some, [], ◌∷◌, ◌++◌, arith, is_some, String, Bool,
  if◌then◌else◌,
}
use nl2sql_agent.Common.Result.{ok, >>=-eq-ok, ok-injective, Result, raised}
use nl2sql_agent.Agent.State.{AgentState, error_of}
use nl2sql_agent.Agent.Refiner.{
  Feedback, Knowledge, strategy, refiner_node, expands, expand, repair, corrected,
}

strategy-none : (o : Option ℕ) → is_some o ≡ false → strategy o ≡ "feedback_only"
unfolding strategy
strategy-none none _ = refl
strategy-none (some k) h = ground (arith, h)

-- Code that returns has passed a guard that raises.
guarded-ok :
    {A : Type 0} {a : A} (guard : Bool) (e : String) (rest : Result A)
    → (if guard then raised e else rest) ≡ ok a
    → rest ≡ ok a
guarded-ok true e rest h = absurd (cc)
guarded-ok false e rest h = h

module _ (feedback : Feedback) (knowledge : Knowledge) where
  -- A refiner that returns has classified the error.
  pub refiner_node-ok :
      (s t : AgentState)
      → refiner_node feedback knowledge s ≡ ok t
      → (hint : String) × (knowledge.classify (error_of s.exec_result) ≡ ok hint)
        × (corrected feedback knowledge hint s ≡ t)
  unfolding refiner_node
  refiner_node-ok s t h =
      let (hint, e, same) =
        >>=-eq-ok (knowledge.classify (error_of s.exec_result)) _ (guarded-ok s.null_sql _ _ h) in
      (hint, e, ok-injective same)

  pub refiner_node-returns :
      (s : AgentState) (hint : String)
      → s.null_sql ≡ false
      → knowledge.classify (error_of s.exec_result) ≡ ok hint
      → refiner_node feedback knowledge s ≡ ok (corrected feedback knowledge hint s)
  unfolding refiner_node
  refiner_node-returns s hint there e = rw (there, e) refl

  pub not-expanded :
      (hint : String) (s : AgentState)
      → expands feedback knowledge hint s ≡ true
      → is_some s.rag_k_expanded ≡ false
  unfolding expands
  not-expanded hint s h = ground (arith, h)

  pub expanded-once :
      (hint : String) (s : AgentState)
      → is_some s.rag_k_expanded ≡ true
      → expands feedback knowledge hint s ≡ false
  unfolding expands
  expanded-once hint s h = ground (arith, h)

  pub corrected-twice :
      (hint : String) (s : AgentState)
      → expands feedback knowledge hint s ≡ true
      → (corrected feedback knowledge hint s).rag_k_expanded ≡ some (s.rag_k * 2)
  unfolding corrected expand
  corrected-twice hint s h = rw h refl

  pub corrected-stays :
      (hint : String) (s : AgentState) (k : ℕ)
      → s.rag_k_expanded ≡ some k
      → (corrected feedback knowledge hint s).rag_k_expanded ≡ some k
  unfolding corrected
  corrected-stays hint s k h = rw (expanded-once hint s (rw h refl)) h

  pub corrected-history :
      (hint : String) (s : AgentState)
      → (corrected feedback knowledge hint s).repair_history
        ≡ s.repair_history ++ repair feedback knowledge hint s ∷ []
  unfolding corrected
  corrected-history hint s = refl

  pub repair-strategy :
      (hint : String) (s : AgentState)
      → expands feedback knowledge hint s ≡ true
      → (repair feedback knowledge hint s).fix_strategy ≡ "feedback_only"
  unfolding repair
  repair-strategy hint s h = strategy-none s.rag_k_expanded (not-expanded hint s h)
