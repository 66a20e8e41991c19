-- ===== src/Task/Store/Scan/Exact.antt =====
-- `scan_stale_tasks` against a description of the tasks that are lost.
use nl2sql_agent.Common.{
  ℕ, ◌-◌, ◌<◌, String, ◌≡◌, ◌↔◌, refl, ◌∙◌, true, false, Option, none, some, inl, inr, arith,
  is_some, Bool-cases, ◌⊎◌,
}
use nl2sql_agent.Task.State.{running, timeout, TaskState}
use nl2sql_agent.Task.Redis.{Redis, Value, document, time, text, seconds}
use nl2sql_agent.Task.Store.{
  World, task_get, task_get_heartbeat, stale_error, lost_of, lost, scan_stale_tasks, is_running,
}
use nl2sql_agent.Task.Store.Scan.{swept_of, holds, lost-of}
use nl2sql_agent.Task.Store.Scan.Seen.{scan_stale_tasks-swept}

-- The heartbeat that is there, if it is a time, is older than the limit.
abbrev IsStale : ℕ → ℕ → Option Value → Type 0
IsStale now stale_s beat = (b : ℕ) → beat ≡ some (time b) → seconds stale_s < now - b

-- A task that is RUNNING without a heartbeat that is a time within the limit.
abbrev pub IsLost : {redis : Redis} → World redis → ℕ → String → Type 0
IsLost w stale_s k =
    (t : TaskState) × (task_get w k ≡ some t)
    × (t.status ≡ running)
    × ((b : ℕ) → task_get_heartbeat w k ≡ some (time b) → seconds stale_s < w.now - b)

stale_error-IsStale :
    (now stale_s : ℕ) (beat : Option Value)
    → (is_some (stale_error now stale_s beat) ≡ true) ↔ IsStale now stale_s beat
unfolding stale_error
stale_error-IsStale now stale_s none = (λ _ b e. absurd (cc), λ _. refl)
stale_error-IsStale now stale_s (some (document t)) = (λ _ b e. absurd (cc), λ _. refl)
stale_error-IsStale now stale_s (some (text s)) = (λ _ b e. absurd (cc), λ _. refl)
stale_error-IsStale now stale_s (some (time beat)) =
    (λ h b e. ground (arith, h, e), λ f. ground (arith, f beat refl))

lost_of-IsLost :
    (now stale_s : ℕ) (o : Option TaskState) (beat : Option Value)
    → (is_some (lost_of now stale_s o beat) ≡ true)
      ↔ ((t : TaskState) × (o ≡ some t) × (t.status ≡ running) × IsStale now stale_s beat)
unfolding lost_of
lost_of-IsLost now stale_s none beat = (λ h. absurd (cc), λ (t, e, _, _). absurd (cc))
lost_of-IsLost now stale_s (some t) beat =
    let stale = stale_error-IsStale now stale_s beat in
    (
      λ h. elim (Bool-cases (is_running t.status)) [
        | inl on ↦ (t, refl, ground (arith, on), stale.0 (rw on at h))
        | inr off ↦ absurd (ground (arith, rw off at h))
      ],
      λ (u, e, on, f).
          let run : is_running t.status ≡ true = ground (arith, e, on) in rw run (stale.1 f),
    )

-- The task afterwards, by what a scan finds.
swept_of-some :
    (now : ℕ) (o : Option String) (t : TaskState)
    → is_some o ≡ true
    → (e : String) × (swept_of now o (some t)
        ≡ some (record t { status = timeout; error = some e; updated_at = now }))
swept_of-some now none t h = absurd (cc)
swept_of-some now (some e) t h = (e, refl)

swept_of-none :
    (now : ℕ) (o : Option String) (s : Option TaskState) → is_some o ≡ false → swept_of now o s ≡ s
swept_of-none now none s h = refl
swept_of-none now (some e) s h = absurd (cc)

module _ {redis : Redis} (stale_s : ℕ) (w : World redis) (k : String) where
  lost-IsLost : (is_some (lost w stale_s k) ≡ true) ↔ IsLost w stale_s k
  lost-IsLost =
      rw (lost-of stale_s w k)
        (lost_of-IsLost w.now stale_s (task_get w k) (task_get_heartbeat w k))

  -- After a scan, for every id: either its task is RUNNING without a heartbeat that is a time within
  -- the last `stale_s` seconds, and then the scan returns the id, and the task is TIMEOUT with an
  -- error and the time of the scan and otherwise as before; or it is not, and then the scan does not
  -- return the id and the task is as before.
  pub scan_stale_tasks-IsLost :
      let (v, found) = scan_stale_tasks stale_s w in
      (IsLost w stale_s k
        × (holds k found ≡ true)
        × ((t : TaskState) × (task_get w k ≡ some t)
            × ((e : String) × (task_get v k
                  ≡ some (record t { status = timeout; error = some e; updated_at = w.now })))))
      ⊎ ((IsLost w stale_s k → ⊥) × (holds k found ≡ false) × (task_get v k ≡ task_get w k))
  scan_stale_tasks-IsLost =
      let (after, listed) = scan_stale_tasks-swept stale_s w k in
      elim (Bool-cases (is_some (lost w stale_s k))) [
        | inl bad ↦
            let (t, there, on, stale) = lost-IsLost.0 bad in
            let (e, q) = swept_of-some w.now (lost w stale_s k) t bad in
            inl ((t, there, on, stale), listed ∙ bad, (t, there, (e, after ∙ rw there q)))
        | inr well ↦ inr (
          λ l. ground (arith, lost-IsLost.1 l, well),
          listed ∙ well,
          after ∙ swept_of-none w.now (lost w stale_s k) (task_get w k) well,
        )
      ]
