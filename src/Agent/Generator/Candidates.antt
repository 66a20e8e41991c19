-- ===== src/Agent/Generator/Candidates.antt =====
-- The candidates of a generation.
use mathlib.Core.Path.{subst}
use nl2sql_agent.Common.{
  ℕ, suc, ◌+◌, ◌≤◌, String, ◌≡◌, refl, true, false, not, ◌||◌, List, [], ◌∷◌, ◌++◌, ◌==◌, ◌⊎◌, inl,
  inr, All, any, length, truthy, arith, eqb, Bool-cases, if_cases, All-append, length-append,
}
use nl2sql_agent.Common.Result.{Result, ok, raised, ok-injective}
use nl2sql_agent.Agent.State.{AgentState, TokenUsage}
use nl2sql_agent.Agent.Generator.{
  Prompt, Reply, answer, failure, Gathered, normalize_sql, ask, is_duplicate, gather, stops_early,
  generate_from, temperatures, single, several, generator_node,
}

-- No two texts have the same normal form.
abbrev pub AreApart : List String → Type 0
AreApart [] = true ≡ true
AreApart (c ∷ cs) = All (λ d. (normalize_sql c == normalize_sql d) ≡ false) cs × AreApart cs

abbrev pub AreFilled : List String → Type 0
AreFilled cs = All (λ c. truthy c ≡ true) cs

AreApart-snoc :
    (cs : List String) (sql : String)
    → AreApart cs
    → any (λ c. normalize_sql c == normalize_sql sql) cs ≡ false
    → AreApart (cs ++ sql ∷ [])
AreApart-snoc [] sql a h = ground arith
AreApart-snoc (c ∷ cs) sql a h = (
  All-append (λ d. (normalize_sql c == normalize_sql d) ≡ false) cs (sql ∷ []) a.0
      (ground (arith, h), tt),
  AreApart-snoc cs sql a.1 (ground (arith, h)),
)

AreFilled-snoc :
    (cs : List String) (sql : String)
    → AreFilled cs
    → truthy sql ≡ true
    → AreFilled (cs ++ sql ∷ [])
AreFilled-snoc cs sql f h = All-append (λ c. truthy c ≡ true) cs (sql ∷ []) f (h, tt)

List-cases : {A : Type 0} (xs : List A) → (xs ≡ []) ⊎ ((y : A) × (ys : List A) × (xs ≡ y ∷ ys))
List-cases [] = inl refl
List-cases (x ∷ xs) = inr (x, xs, refl)

Reply-cases :
    (r : Reply)
    → ((e : String) × (r ≡ failure e))
      ⊎ ((raw : String) × (used : TokenUsage) × (r ≡ answer raw used))
Reply-cases (failure e) = inl (e, refl)
Reply-cases (answer raw used) = inr (raw, used, refl)

-- The candidates so far, of which there are at most `n`.
abbrev IsGood : ℕ → List String → Type 0
IsGood n cs = AreFilled cs × AreApart cs × (length cs ≤ n)

-- The candidates of a state, and its SQL the first of them.
abbrev pub HasCandidates : AgentState → Type 0
HasCandidates t =
    AreFilled t.candidate_sqls
    × AreApart t.candidate_sqls
    × (length t.candidate_sqls ≤ 3)
    × ((t.candidate_sqls ≡ []) ⊎ ((cs : List String) × (t.candidate_sqls ≡ t.sql ∷ cs)))

module _ (chat : Prompt → Reply) (extract_sql : String → String) (sql_dialect : String) where
  gather-IsGood :
      (raw : String) (used : TokenUsage) (g : Gathered) (n : ℕ)
      → IsGood n g.candidates
      → IsGood (suc n) (gather chat extract_sql sql_dialect raw used g).candidates
  unfolding gather
  gather-IsGood raw used g n (f, a, l) =
      let sql = extract_sql raw in
      let known = is_duplicate chat extract_sql sql_dialect sql g.candidates in
      if_cases (IsGood (suc n)) (not (truthy sql) || known) g.candidates (g.candidates ++ sql ∷ [])
        (λ _. (f, a, omega (arith, l)))
        (λ new. (
          AreFilled-snoc g.candidates sql f (ground (arith, new)),
          AreApart-snoc g.candidates sql a (ground (arith, new)),
          omega (arith, l, length-append g.candidates (sql ∷ [])),
        ))

  IsGood-widen : (m n : ℕ) (cs : List String) → m ≤ n → IsGood m cs → IsGood n cs
  IsGood-widen m n cs h (f, a, l) = (f, a, omega (arith, l))

  generate_from-IsGood :
      (s : AgentState) (i n : ℕ) (ts : List ℕ) (g t : Gathered)
      → IsGood n g.candidates
      → generate_from chat extract_sql sql_dialect s i ts g ≡ ok t
      → IsGood (length ts + n) t.candidates
  unfolding generate_from
  generate_from-IsGood s i n [] g t good h =
      IsGood-widen n (0 + n) t.candidates (omega arith)
        (subst (λ (u : Gathered). IsGood n u.candidates) (ok-injective h) good)
  generate_from-IsGood s i n (temp ∷ ts) g t good h =
      elim (Reply-cases (ask chat extract_sql sql_dialect s temp)) [
        | inl (e, fails) ↦
            let k = rw (generate_from, fails) at h in
            elim (Bool-cases (eqb i 0)) [
              | inl first ↦ absurd (let q = rw first at k in cc)
              | inr later ↦
                  IsGood-widen (length ts + n) (suc (length ts) + n) t.candidates (omega arith)
                    (generate_from-IsGood s (suc i) n ts g t good (rw later at k))
            ]
        | inr (raw, used, answers) ↦
            let k = rw (generate_from, answers) at h in
            let more = gather chat extract_sql sql_dialect raw used g in
            let better = gather-IsGood raw used g n good in
            elim (Bool-cases (stops_early chat extract_sql sql_dialect i raw g)) [
              | inl stop ↦ IsGood-widen (suc n) (suc (length ts) + n) t.candidates (omega arith) (
                  subst (λ (u : Gathered). IsGood (suc n) u.candidates)
                    (ok-injective (rw stop at k)) better)
              | inr on ↦
                  IsGood-widen (length ts + suc n) (suc (length ts) + n) t.candidates (omega arith)
                    (generate_from-IsGood s (suc i) (suc n) ts more t better (rw on at k))
            ]
      ]

  single-HasCandidates :
      (s t : AgentState) (r : Reply)
      → single chat extract_sql sql_dialect s r ≡ ok t
      → HasCandidates t
  unfolding single
  single-HasCandidates s t (failure e) h = absurd (cc)
  single-HasCandidates s t (answer raw used) h =
      subst HasCandidates (ok-injective h) (tt, refl, omega arith, inl refl)

  several-HasCandidates :
      (s t : AgentState) (g : Gathered)
      → IsGood 3 g.candidates
      → several chat extract_sql sql_dialect s (ok g) ≡ ok t
      → HasCandidates t
  unfolding several
  several-HasCandidates s t g good h = elim (List-cases g.candidates) [
    | inl no_sql ↦
        subst HasCandidates (ok-injective (rw (several, no_sql) at h))
          (tt, refl, omega arith, inl refl)
    | inr (c, cs, some_sql) ↦
        let (f, a, l) = rw some_sql at good in
        subst HasCandidates (ok-injective (rw (several, some_sql) at h)) (f, a, l, inr (cs, refl))
  ]

  outcome-HasCandidates :
      (s t : AgentState) (r : Result Gathered)
      → ((g : Gathered) → r ≡ ok g → IsGood 3 g.candidates)
      → several chat extract_sql sql_dialect s r ≡ ok t
      → HasCandidates t
  unfolding several
  outcome-HasCandidates s t (raised e) q k = absurd (cc)
  outcome-HasCandidates s t (ok g) q k = several-HasCandidates s t g (q g refl) k

  -- After a generation the candidates are not empty texts, no two of them have the same normal form
  -- (white space and case aside), there are at most three, and the SQL of the state is the first one
  -- if there are any.
  pub generator_node-HasCandidates :
      (s t : AgentState) → generator_node chat extract_sql sql_dialect s ≡ ok t → HasCandidates t
  unfolding generator_node
  generator_node-HasCandidates s t h = elim (Bool-cases (eqb s.retry_count 0)) [
    | inl first ↦ single-HasCandidates s t (ask chat extract_sql sql_dialect s 0) (rw first at h)
    | inr later ↦
        let temps = temperatures chat extract_sql sql_dialect in
        let start : Gathered = record { candidates = []; raws = []; usage = s.token_usage } in
        outcome-HasCandidates s t (generate_from chat extract_sql sql_dialect s 0 temps start)
          (λ g q. generate_from-IsGood s 0 0 temps start g (tt, refl, omega arith) q)
          (rw later at h)
  ]
