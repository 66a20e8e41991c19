-- ===== src/Task/Store/Scan/Seen.antt =====
-- What a whole scan of the ids that Redis gives does to each task.
use mathlib.Core.List.{Memᴰ}
use nl2sql_agent.Common.{
  ℕ, String, ◌≡◌, ◌≢◌, refl, sym, ap, ◌∙◌, true, none, some, List, [], ◌∷◌, inl, inr, arith,
  eq_refl, Option-cases, is_some,
}
use nl2sql_agent.Task.Redis.{Redis, state_key}
use nl2sql_agent.Task.Store.{World, task_get, lost, scan_ids, scan_stale_tasks, lost_of}
use nl2sql_agent.Task.Store.Scan.{swept, holds, if_same, lost-of, Sweeps, scan_ids-swept}

holds-mem : (k : String) (ids : List String) → Memᴰ k ids → holds k ids ≡ true
holds-mem k [] m = absurd (elim m [ ])
holds-mem k (id ∷ ids) (Memᴰ.head e) = rw (sym e) (rw (eq_refl k) refl)
holds-mem k (id ∷ ids) (Memᴰ.tail m) = ground (arith, holds-mem k ids m)

module _ {redis : Redis} (stale_s : ℕ) (w : World redis) (k : String) where
  absent-fine : task_get w k ≡ none → lost w stale_s k ≡ none
  unfolding lost_of
  absent-fine gone = lost-of stale_s w k ∙ rw gone refl

  -- The ids that a scan sees make no difference but for tasks that are there, and those it sees.
  seen-Sweeps :
      (ids : List String) (r : World redis × List String)
      → (task_get w k ≢ none → holds k ids ≡ true)
      → Sweeps stale_s w ids r k
      → (task_get r.0 k ≡ swept w stale_s k) × (holds k r.1 ≡ is_some (lost w stale_s k))
  seen-Sweeps ids r sees (p, q) = elim (Option-cases (task_get w k)) [
    | inl gone ↦
        let fine = absent-fine gone in
        rw fine
          ((rw fine at p) ∙ if_same (holds k ids) (task_get w k), (rw fine at q) ∙ ground arith)
    | inr (t, there) ↦
        let seen = sees (λ gone. ground (arith, gone, there)) in (rw seen at p, rw seen at q)
  ]

  found-there :
      (db : redis.Db)
      → w.db ≡ some db
      → task_get w k ≢ none
      → redis.get db w.now (state_key k) ≢ none
  unfolding task_get
  found-there db up there gone = there (ground (arith, up, gone))

  down-scan : w.db ≡ none → scan_stale_tasks stale_s w ≡ (w, [])
  unfolding scan_stale_tasks
  down-scan down =
      ap (λ o. elim o [ none ↦ (w, []) | some d ↦ scan_ids stale_s w (redis.scan d w.now) ]) down

  down-gone : w.db ≡ none → task_get w k ≡ none
  unfolding task_get
  down-gone down = ground (arith, down)

  up-scan :
      (db : redis.Db)
      → w.db ≡ some db
      → scan_stale_tasks stale_s w ≡ scan_ids stale_s w (redis.scan db w.now)
  unfolding scan_stale_tasks
  up-scan db up =
      ap (λ o. elim o [ none ↦ (w, []) | some d ↦ scan_ids stale_s w (redis.scan d w.now) ]) up

  -- A scan leaves each task as `swept` says and returns the ids of those that are lost.
  pub scan_stale_tasks-swept :
      let (v, found) = scan_stale_tasks stale_s w in
      (task_get v k ≡ swept w stale_s k) × (holds k found ≡ is_some (lost w stale_s k))
  scan_stale_tasks-swept = elim (Option-cases w.db) [
    | inl down ↦
        rw (down-scan down)
          (seen-Sweeps [] (w, []) (λ there. absurd (there (down-gone down))) (refl, refl))
    | inr (db, up) ↦
        let ids = redis.scan db w.now in
        rw (up-scan db up) (
          seen-Sweeps ids (scan_ids stale_s w ids)
            (λ there. holds-mem k ids (redis.scan-all db w.now k (found-there db up there)))
            (scan_ids-swept stale_s ids w k))
  ]
