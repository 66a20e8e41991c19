-- ===== src/Task/Store/Scan.antt =====
-- What `scan_stale_tasks` does to each task.
pub mod Seen
pub mod Exact
use mathlib.Core.List.{Memᴰ}
use nl2sql_agent.Common.{
  ℕ, String, ◌≡◌, ◌≢◌, refl, sym, ap, ◌∙◌, Bool, true, false, ◌&&◌, Option, none, some, List, [],
  ◌∷◌, inl, inr, ◌==◌, arith, if◌then◌else◌, eq_iff, eq_refl, Option-cases, Bool-cases, is_some,
  any,
}
use nl2sql_agent.Task.State.{timeout, running, TaskState}
use nl2sql_agent.Task.Redis.{Redis, state_key, Value}
use nl2sql_agent.Task.Store.{
  World, task_get, task_update, task_transition, lost, scan_ids, scan_stale_tasks, with_status,
  with_error, allowed, task_get_heartbeat, lost_of, valid_transition,
}
use nl2sql_agent.Task.Store.Lookup.{updated, task_get-task_update, beats-task_update}
use nl2sql_agent.Task.Store.Transitions.{transition-valid}

-- A task of which a scan finds the error given, and the state afterwards: TIMEOUT with the error.
abbrev pub swept_of : ℕ → Option String → Option TaskState → Option TaskState
swept_of now none o = o
swept_of now (some e) o = updated now (with_status timeout (with_error e)) o

abbrev pub swept : {redis : Redis} → World redis → ℕ → String → Option TaskState
swept w stale_s k = swept_of w.now (lost w stale_s k) (task_get w k)

abbrev pub holds : String → List String → Bool
holds k ids = any (λ j. j == k) ids

pub if_same {ℓ} : {A : Type ℓ} (t : Bool) (a : A) → (if t then a else a) ≡ a
if_same true a = refl
if_same false a = refl

lost_of-running :
    (now stale_s : ℕ) (o : Option TaskState) (beat : Option Value) (e : String)
    → lost_of now stale_s o beat ≡ some e
    → (t : TaskState) × (o ≡ some t) × (t.status ≡ running)
unfolding lost_of
lost_of-running now stale_s none beat e h = absurd (cc)
lost_of-running now stale_s (some t) beat e h = (t, refl, ground (arith, h))

lost_of-timeout :
    (now stale_s : ℕ) (t : TaskState) (beat : Option Value)
    → t.status ≡ timeout
    → lost_of now stale_s (some t) beat ≡ none
unfolding lost_of
lost_of-timeout now stale_s t beat h = rw h refl

module _ {redis : Redis} (stale_s : ℕ) where
  pub lost-of :
      (w : World redis) (id : String)
      → lost w stale_s id ≡ lost_of w.now stale_s (task_get w id) (task_get_heartbeat w id)
  unfolding lost
  lost-of w id = refl

  -- The transition that the scan makes for a task that it finds lost.
  abbrev time_out : World redis → String → String → World redis
  time_out w id e = task_transition w id timeout (with_error e)

  time_out-update :
      (w : World redis) (id e : String)
      → lost w stale_s id ≡ some e
      → time_out w id e ≡ task_update w id (with_status timeout (with_error e))
  unfolding valid_transition allowed
  time_out-update w id e h =
      let (t, there, on) =
        lost_of-running w.now stale_s (task_get w id) (task_get_heartbeat w id) e
          (sym (lost-of w id) ∙ h) in
      transition-valid w id timeout (with_error e) ∙ rw there (rw on refl)

  task_get-time_out :
      (w : World redis) (id e k : String)
      → lost w stale_s id ≡ some e
      → task_get (time_out w id e) k ≡ (
          if id == k
          then updated w.now (with_status timeout (with_error e)) (task_get w id)
          else task_get w k)
  task_get-time_out w id e k h =
      rw (time_out-update w id e h)
        (task_get-task_update w id k (with_status timeout (with_error e)))

  lost-time_out :
      (w : World redis) (id e k : String)
      → lost w stale_s id ≡ some e
      → (lost (time_out w id e) stale_s k ≡ (if id == k then none else lost w stale_s k))
        × ((time_out w id e).now ≡ w.now)
  lost-time_out w id e k h =
      let change = with_status timeout (with_error e) in
      let (clock, beat) = beats-task_update w id k change in
      let (t, there, on) =
        lost_of-running w.now stale_s (task_get w id) (task_get_heartbeat w id) e
          (sym (lost-of w id) ∙ h) in
      rw (time_out-update w id e h) (
        lost-of (task_update w id change) k
            ∙ rw beat (
                rw (task_get-task_update w id k change) (
                  rw clock (
                    rw there (elim (Bool-cases (id == k)) [
                      | inl same ↦ rw same (
                          lost_of-timeout w.now stale_s (record (change t) { updated_at = w.now })
                            (task_get_heartbeat w k) refl)
                      | inr other ↦ rw other (sym (lost-of w k))
                    ])))),
        clock,
      )

  -- One more id at the head of the list.
  scan_ids-none :
      (w : World redis) (id : String) (ids : List String)
      → lost w stale_s id ≡ none
      → scan_ids stale_s w (id ∷ ids) ≡ scan_ids stale_s w ids
  unfolding scan_ids
  scan_ids-none w id ids h = rw (scan_ids, h) refl

  scan_ids-some :
      (w : World redis) (id e : String) (ids : List String)
      → lost w stale_s id ≡ some e
      → scan_ids stale_s w (id ∷ ids) ≡ (
        (scan_ids stale_s (time_out w id e) ids).0,
        id ∷ (scan_ids stale_s (time_out w id e) ids).1,
      )
  unfolding scan_ids
  scan_ids-some w id e ids h = rw (scan_ids, h) refl

  -- What a scan that ends in `r` makes of the task of an id.
  abbrev pub Sweeps : World redis → List String → World redis × List String → String → Type 0
  Sweeps w ids r k =
      (task_get r.0 k ≡ (if holds k ids then swept w stale_s k else task_get w k))
      × (holds k r.1 ≡ (holds k ids && is_some (lost w stale_s k)))

  fine-Sweeps :
      (w : World redis) (id : String) (ids : List String) (r : World redis × List String)
      (k : String)
      → lost w stale_s id ≡ none
      → Sweeps w ids r k
      → Sweeps w (id ∷ ids) r k
  fine-Sweeps w id ids r k fine (p, q) = elim (Bool-cases (id == k)) [
    | inl same ↦
        let lk : lost w stale_s k ≡ none =
          ap (lost w stale_s) (sym ((eq_iff id k).0 same)) ∙ fine in
        rw (same, lk)
          ((rw lk at p) ∙ if_same (holds k ids) (task_get w k), (rw lk at q) ∙ ground arith)
    | inr other ↦ rw other (p, q)
  ]

  bad-Sweeps :
      (w : World redis) (id e : String) (ids : List String) (r : World redis × List String)
      (k : String)
      → lost w stale_s id ≡ some e
      → Sweeps (time_out w id e) ids r k
      → Sweeps w (id ∷ ids) (r.0, id ∷ r.1) k
  bad-Sweeps w id e ids r k bad (p, q) =
      let (lt, clock) = lost-time_out w id e k bad in
      let got = task_get-time_out w id e k bad in
      let change = updated w.now (with_status timeout (with_error e)) in
      elim (Bool-cases (id == k)) [
        | inl same ↦
            let i : id ≡ k = (eq_iff id k).0 same in
            let lk : lost w stale_s k ≡ some e = ap (lost w stale_s) (sym i) ∙ bad in
            rw (same, lk)
              (
                (rw (rw same at lt) at p)
                    ∙ if_same (holds k ids) (task_get (time_out w id e) k)
                    ∙ (rw same at got)
                    ∙ ap (λ j. change (task_get w j)) i,
                refl,
              )
        | inr other ↦
            rw other (rw (rw other at lt, rw other at got, clock) at p, rw (rw other at lt) at q)
      ]

  pub scan_ids-swept :
      (ids : List String) (w : World redis) (k : String) → Sweeps w ids (scan_ids stale_s w ids) k
  unfolding scan_ids
  scan_ids-swept [] w k = (refl, refl)
  scan_ids-swept (id ∷ ids) w k = elim (Option-cases (lost w stale_s id)) [
    | inl fine ↦
        rw (scan_ids-none w id ids fine)
          (fine-Sweeps w id ids (scan_ids stale_s w ids) k fine (scan_ids-swept ids w k))
    | inr (e, bad) ↦ rw (scan_ids-some w id e ids bad) (
        bad-Sweeps w id e ids (scan_ids stale_s (time_out w id e) ids) k bad
          (scan_ids-swept ids (time_out w id e) k))
  ]
