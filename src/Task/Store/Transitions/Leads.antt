-- ===== src/Task/Store/Transitions/Leads.antt =====
-- A task's status before and after some operations: a path in the table of `_valid_transition`.
use mathlib.Core.Path.{subst}
use nl2sql_agent.Common.{
  ℕ, ◌+◌, String, ◌≡◌, refl, sym, ap, ◌∙◌, true, Option, none, some, ◌⊎◌, inl, inr, ◌==◌, arith,
  eq_iff, Option-cases, Bool-cases,
}
use nl2sql_agent.Task.State.{Status, success, cancelled, TaskState}
use nl2sql_agent.Task.Redis.{Redis, state_key}
use nl2sql_agent.Task.Store.{World, task_get, task_update, task_transition, allowed, loads}
use nl2sql_agent.Task.Store.Lookup.{updated, task_get-task_update}
use nl2sql_agent.Task.Store.Transitions.{transition_is_allowed}

pub data Leads : Status → Status → Type 0 where
  stays : {s : Status} → Leads s s
  moves : {s t u : Status} → allowed s t ≡ true → Leads t u → Leads s u

Leads-of : {s t : Status} → s ≡ t → Leads s t
Leads-of {s} e = subst (Leads s) e stays

Leads-trans : {s t u : Status} → Leads s t → Leads t u → Leads s u
Leads-trans stays l = l
Leads-trans (moves e k) l = moves e (Leads-trans k l)

-- Nothing leads out of SUCCESS or CANCELLED.
pub Leads-final : (s t : Status) → (s ≡ success) ⊎ (s ≡ cancelled) → Leads s t → t ≡ s
unfolding allowed
Leads-final s t f stays = refl
Leads-final s t f (moves e l) = absurd (ground (arith, f))

module _ {redis : Redis} where
  -- A task that is in the store afterwards was there before, and its status led to that it has.
  abbrev pub Leading : String → World redis → World redis → Type 0
  Leading k w v =
      (u : TaskState)
      → task_get v k ≡ some u
      → (t : TaskState) × (task_get w k ≡ some t) × Leads t.status u.status

  pub record Follows (k : String) (w v : World redis) : Type 0 where
    pub leads : Leading k w v

  pub Follows-same : (k : String) (w v : World redis) → task_get v k ≡ task_get w k → Leading k w v
  Follows-same k w v e u h = (u, sym e ∙ h, stays)

  pub Follows-trans :
      (k : String) (w v x : World redis) → Leading k w v → Leading k v x → Leading k w x
  Follows-trans k w v x f g u h =
      let (t, there, l) = g u h in let (s, here, m) = f t there in (s, here, Leads-trans m l)

  pub Follows-task_update :
      (k id : String) (change : TaskState → TaskState) (w : World redis)
      → ((t : TaskState) → (change t).status ≡ t.status)
      → Leading k w (task_update w id change)
  Follows-task_update k id change w keeps u h = elim (Bool-cases (id == k)) [
    | inl same ↦
        let p : id ≡ k = (eq_iff id k).0 same in
        let (t, there, l) =
          written (task_get w id) (rw same at (sym (task_get-task_update w id k change) ∙ h)) in
        (t, ap (task_get w) (sym p) ∙ there, l)
    | inr other ↦ (u, rw other at (sym (task_get-task_update w id k change) ∙ h), stays)
  ]
    where
      written :
          (o : Option TaskState)
          → updated w.now change o ≡ some u
          → (t : TaskState) × (o ≡ some t) × Leads t.status u.status
      written none e = absurd (cc)
      written (some t) e = (t, refl, Leads-of (ground (arith, e, keeps t)))

  pub Follows-task_transition :
      (k id : String) (status : Status) (extra : TaskState → TaskState) (w : World redis)
      → Leading k w (task_transition w id status extra)
  Follows-task_transition k id status extra w = elim (transition_is_allowed w id status extra) [
    | inl e ↦ Follows-same k w _ (ap (λ v. task_get v k) e)
    | inr (t, there, fits, after) ↦ λ u h. elim (Bool-cases (id == k)) [
      | inl same ↦ (
        t,
        ap (task_get w) (sym ((eq_iff id k).0 same)) ∙ there,
        moves fits (Leads-of (ground (arith, rw same at (sym (after k) ∙ h)))),
      )
      | inr other ↦ (u, rw other at (sym (after k) ∙ h), stays)
    ]
  ]

  get-wait :
      (k : String) (n : ℕ) (w : World redis)
      → let v = record w { now = w.now + n } in
        (task_get v k ≡ task_get w k) ⊎ (task_get v k ≡ none)
  unfolding task_get
  get-wait k n w = elim (Option-cases w.db) [
    | inl down ↦ inr (rw down refl)
    | inr (db, up) ↦
        rw up (elim (redis.get-later db w.now (w.now + n) (state_key k) (omega arith)) [
          | inl e ↦ inl (ap loads e)
          | inr e ↦ inr (ap loads e)
        ])
  ]

  -- Time passes.
  pub Follows-wait :
      (k : String) (n : ℕ) (w : World redis) → Leading k w (record w { now = w.now + n })
  Follows-wait k n w u h = elim (get-wait k n w) [
    | inl e ↦ (u, sym e ∙ h, stays)
    | inr e ↦ absurd (ground (arith, e, h))
  ]
