-- ===== src/Agent/Graph/Runs.antt =====
-- Two induction rules for the runs of a graph: a measure that falls along every edge bounds the
-- steps, and a potential bounds the weight of the nodes that a run enters.
use nl2sql_agent.Common.{
  ℕ, zero, suc, ◌+◌, ◌≤◌, ◌<◌, ◌≡◌, refl, Bool, true, false, Option, none, some, List, [], ◌∷◌,
  arith,
}
use nl2sql_agent.Common.Result.{Result, ok, raised}
use nl2sql_agent.Agent.Graph.{
  Outcome, finished, failed, recursion_error, entered, continue, follow, run,
}

-- The run did not use up its steps.
abbrev pub ends : {N S : Type 0} → Outcome N S → Bool
ends (finished ns s) = true
ends (failed ns e) = true
ends (recursion_error ns) = false

abbrev pub nodes : {N S : Type 0} → Outcome N S → List N
nodes (finished ns s) = ns
nodes (failed ns e) = ns
nodes (recursion_error ns) = ns

abbrev pub total_weight : {N : Type 0} → (N → ℕ) → List N → ℕ
total_weight w [] = 0
total_weight w (n ∷ ns) = w n + total_weight w ns

module _ {N S : Type 0} where
  ends-entered : (n : N) (o : Outcome N S) → ends o ≡ true → ends (entered n o) ≡ true
  ends-entered n (finished ns s) h = refl
  ends-entered n (failed ns e) h = refl
  ends-entered n (recursion_error ns) h = h

  weight-entered :
      (w : N → ℕ) (n : N) (o : Outcome N S)
      → total_weight w (nodes (entered n o)) ≡ w n + total_weight w (nodes o)
  weight-entered w n (finished ns s) = refl
  weight-entered w n (failed ns e) = refl
  weight-entered w n (recursion_error ns) = refl

module _ {N S : Type 0} (next_of : N → S → Option N) (node : N → S → Result S)
    (Inv : S → Type 0) where
  -- Along an edge the invariant is kept and the measure falls.
  abbrev pub Falls : (N → S → ℕ) → Type 0
  Falls measure =
      (n : N) (s t : S) (m : N)
      → Inv s
      → node n s ≡ ok t
      → next_of n t ≡ some m
      → Inv t × (measure m t < measure n s)

  -- A node's weight and the potential behind it fit into the potential before it.
  abbrev pub Pays : (N → ℕ) → (N → S → ℕ) → Type 0
  Pays w pot =
      (n : N) (s t : S) (m : N)
      → Inv s
      → node n s ≡ ok t
      → next_of n t ≡ some m
      → Inv t × (w n + pot m t ≤ pot n s)

  continue-ends :
      (go : N → S → Outcome N S) (n : N) (t : S) (o : Option N)
      → ((m : N) → o ≡ some m → ends (go m t) ≡ true)
      → ends (continue next_of node go n t o) ≡ true
  continue-ends go n t none h = refl
  continue-ends go n t (some m) h = ends-entered n (go m t) (h m refl)

  follow-ends :
      (go : N → S → Outcome N S) (n : N) (r : Result S)
      → ((t : S) (m : N) → r ≡ ok t → next_of n t ≡ some m → ends (go m t) ≡ true)
      → ends (follow next_of node go n r) ≡ true
  follow-ends go n (raised e) h = refl
  follow-ends go n (ok t) h = continue-ends go n t (next_of n t) (λ m. h t m refl)

  pub run-ends :
      (measure : N → S → ℕ)
      → Falls measure
      → (limit : ℕ) (n : N) (s : S) → Inv s
      → measure n s < limit
      → ends (run next_of node limit n s) ≡ true
  unfolding run
  run-ends measure falls zero n s i h = absurd (omega arith)
  run-ends measure falls (suc limit) n s i h =
      follow-ends (run next_of node limit) n (node n s) λ t m e k.
        let (j, less) = falls n s t m i e k in run-ends measure falls limit m t j (omega arith)

  module _ (w : N → ℕ) where
    continue-weight :
        (go : N → S → Outcome N S) (n : N) (t : S) (o : Option N) (p : ℕ)
        → w n ≤ p
        → ((m : N) → o ≡ some m → w n + total_weight w (nodes (go m t)) ≤ p)
        → total_weight w (nodes (continue next_of node go n t o)) ≤ p
    continue-weight go n t none p b h = omega arith
    continue-weight go n t (some m) p b h = rw (weight-entered w n (go m t)) (h m refl)

    follow-weight :
        (go : N → S → Outcome N S) (n : N) (r : Result S) (p : ℕ)
        → w n ≤ p
        → ((t : S) (m : N)
            → r ≡ ok t
            → next_of n t ≡ some m
            → w n + total_weight w (nodes (go m t)) ≤ p)
        → total_weight w (nodes (follow next_of node go n r)) ≤ p
    follow-weight go n (raised e) p b h = omega arith
    follow-weight go n (ok t) p b h = continue-weight go n t (next_of n t) p b (λ m. h t m refl)

    pub run-weight :
        (pot : N → S → ℕ)
        → Pays w pot
        → ((n : N) (s : S) → Inv s → w n ≤ pot n s)
        → (limit : ℕ) (n : N) (s : S) → Inv s
        → total_weight w (nodes (run next_of node limit n s)) ≤ pot n s
    unfolding run
    run-weight pot pays covers zero n s i = omega arith
    run-weight pot pays covers (suc limit) n s i =
        follow-weight (run next_of node limit) n (node n s) (pot n s) (covers n s i) λ t m e k.
          let (j, paid) = pays n s t m i e k in
          omega (arith, run-weight pot pays covers limit m t j)
