-- ===== src/Eval/Thread/Counts.antt =====
-- The counters that the thread writes.
use nl2sql_agent.Common.{
  ℕ, zero, suc, ◌+◌, ◌*◌, ◌≤◌, ◌≡◌, refl, ◌∙◌, String, Bool, Option, some, List, [], ◌∷◌, arith,
  All, length, Bool-cases, inl, inr, if_cases,
}
use nl2sql_agent.Common.Result.{Result, ok, raised}
use nl2sql_agent.Eval.Progress.{TaskProgress, ConfigEntry}
use nl2sql_agent.Eval.Store.{load_task, load-modify}
use nl2sql_agent.Eval.Thread.{
  is_set, Count, Env, SamplesEnd, finished, stopped, crashed, passed_before, set_entry, with_counts,
  counted, polled, update, run_samples,
}

-- No configuration has more passes than samples.
abbrev pub HasPasses : ℕ → List ConfigEntry → Type 0
HasPasses n cs = All (λ (c : ConfigEntry). c.passed ≤ n) cs

passed_before-le : (n i : ℕ) (cs : List ConfigEntry) → HasPasses n cs → passed_before i cs ≤ i * n
passed_before-le n zero cs h = omega arith
passed_before-le n (suc i) [] h = grind arith
passed_before-le n (suc i) (c ∷ cs) h =
    let rest = passed_before-le n i cs h.1 in let one = h.0 in grind arith

set_entry-HasPasses :
    (n i completed passed : ℕ) (cs : List ConfigEntry)
    → passed ≤ n
    → HasPasses n cs
    → HasPasses n (set_entry i completed passed cs)
unfolding set_entry
set_entry-HasPasses n i completed passed [] le h = tt
set_entry-HasPasses n zero completed passed (c ∷ cs) le h = (le, h.1)
set_entry-HasPasses n (suc i) completed passed (c ∷ cs) le h =
    (h.0, set_entry-HasPasses n i completed passed cs le h.1)

-- The counters of a document: passed at most completed, completed at most all.
pub record IsCounted (n : ℕ) (p : TaskProgress) : Type 0 where
  pub configs : HasPasses n p.configs
  pub passed : p.overall_passed ≤ p.overall_completed
  pub completed : p.overall_completed ≤ p.total_samples

-- The counters of the loop over the samples of a configuration, `before` being the passes of the
-- configurations before it.
pub record IsWithin (before : ℕ) (c : Count) (p : TaskProgress) : Type 0 where
  pub counts : IsCounted c.n_cases p
  pub passes : c.passed ≤ c.completed
  pub room : (suc c.index) * c.n_cases ≤ p.total_samples
  pub earlier : before ≤ c.index * c.n_cases
  pub seen : before + c.passed ≤ p.overall_completed

with_counts-IsWithin :
    (before : ℕ) (ex : Bool) (c : Count) (p : TaskProgress)
    → IsWithin before c p
    → suc c.completed ≤ c.n_cases
    → IsWithin before (counted ex c) (with_counts (counted ex c) p)
unfolding with_counts
with_counts-IsWithin before ex c p w le =
    let passes : (counted ex c).passed ≤ suc c.completed =
      let old = w.passes in
      if_cases (λ k. k ≤ suc c.completed) ex _ _ (λ _. omega arith) (λ _. omega arith) in
    let sums = passed_before-le c.n_cases c.index p.configs w.counts.configs in
    let room = w.room in
    let earlier = w.earlier in
    record {
      counts = record {
        configs =
            set_entry-HasPasses c.n_cases c.index (suc c.completed) (counted ex c).passed p.configs
              (omega arith) w.counts.configs;
        passed = omega arith;
        completed = grind arith;
      };
      passes = passes;
      room = room;
      earlier = earlier;
      seen = omega arith;
    }

module _ (id : String) (polls : Option ℕ) where
  -- The document of the task in the store.
  abbrev pub IsStored : Env → TaskProgress → Type 0
  IsStored e p = (load_task id e.store ≡ some p) × (p.task_id ≡ id)

  pub update-IsStored :
      (f : TaskProgress → TaskProgress) (e : Env) (p : TaskProgress)
      → ((q : TaskProgress) → (f q).task_id ≡ q.task_id)
      → IsStored e p
      → IsStored (update id polls f e) (f p)
  update-IsStored f e p keeps s =
      let named : (q : TaskProgress) → load_task id e.store ≡ some q → q.task_id ≡ id =
        λ q there. let same : q ≡ p = cc in rw same s.1 in
      (load-modify id f e.store (λ q named. keeps q ∙ named) named ∙ rw s.0 refl, keeps p ∙ s.1)

  -- What holds of the document at the end of the samples.
  unfoldable pub SamplesPost : ℕ → ℕ → ℕ → ℕ → SamplesEnd → TaskProgress → Type 0
  SamplesPost n total index before (finished c) p =
      IsWithin before c p
      × (c.n_cases ≡ n)
      × (c.index ≡ index)
      × (c.completed ≤ n)
      × (p.total_samples ≡ total)
  SamplesPost n total index before stopped p = IsCounted n p
  SamplesPost n total index before (crashed x) p = IsCounted n p

  pub run_samples-post :
      (before total : ℕ) (os : List (Result Bool)) (c : Count) (e : Env) (p : TaskProgress)
      → c.completed + length os ≤ c.n_cases
      → IsWithin before c p
      → p.total_samples ≡ total
      → IsStored e p
      → let r = run_samples id polls os c e in
        (q : TaskProgress) × IsStored r.1 q × SamplesPost c.n_cases total c.index before r.0 q
  unfolding run_samples SamplesPost with_counts
  run_samples-post before total [] c e p le w all s = (p, s, (w, refl, refl, omega arith, all))
  run_samples-post before total (raised x ∷ os) c e p le w all s =
      elim (Bool-cases (is_set polls e.clock)) [
        | inl set ↦ rw set (p, s, w.counts)
        | inr free ↦ rw free (p, s, w.counts)
      ]
  run_samples-post before total (ok ex ∷ os) c e p le w all s =
      elim (Bool-cases (is_set polls e.clock)) [
        | inl set ↦ rw set (p, s, w.counts)
        | inr free ↦ rw free (
            run_samples-post before total os (counted ex c)
              (update id polls (with_counts (counted ex c)) (polled e))
              (with_counts (counted ex c) p) (omega arith)
              (with_counts-IsWithin before ex c p w (omega arith)) all
              (update-IsStored (with_counts (counted ex c)) (polled e) p (λ q. refl) s))
      ]
