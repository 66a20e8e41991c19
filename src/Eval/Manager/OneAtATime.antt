-- ===== src/Eval/Manager/OneAtATime.antt =====
-- How many tasks are active: not cancelled, at most one; with the cancelled ones, more.
use nl2sql_agent.Common.{
  ℕ, suc, ◌+◌, ◌≤◌, ◌≡◌, refl, sym, ap, ◌∙◌, String, true, false, not, some, List, [], ◌∷◌, ◌++◌,
  arith, any, Bool-cases, inl, inr, eq_refl, if◌then◌else◌, ◌⊎◌,
}
use nl2sql_agent.Common.Result.{ok, >>=-eq-ok, ok-injective, raised}
use nl2sql_agent.Eval.Store.{Store, save_task}
use nl2sql_agent.Eval.Manager.{
  Active, World, Start, is_task_running, set_event, cancel_task, first_running, drop_active,
  begin_task, start_eval_task, new_progress,
}

-- The tasks whose event is not set.
abbrev pub running : List Active → ℕ
running [] = 0
running (a ∷ as_) = if a.is_set then running as_ else suc (running as_)

running-append : (xs ys : List Active) → running (xs ++ ys) ≡ running xs + running ys
running-append [] ys = omega arith
running-append (x ∷ xs) ys = ground (arith, running-append xs ys)

set_event-le : (id : String) (as_ : List Active) → running (set_event id as_) ≤ running as_
unfolding set_event
set_event-le id [] = omega arith
set_event-le id (a ∷ as_) = ground (arith, set_event-le id as_)

drop_active-le : (id : String) (as_ : List Active) → running (drop_active id as_) ≤ running as_
unfolding drop_active
drop_active-le id [] = omega arith
drop_active-le id (a ∷ as_) = ground (arith, drop_active-le id as_)

idle-none : (as_ : List Active) → any (λ (a : Active). not a.is_set) as_ ≡ false → running as_ ≡ 0
idle-none [] h = refl
idle-none (a ∷ as_) h = ground (arith, idle-none as_)

first_running-some :
    (as_ : List Active)
    → any (λ (a : Active). not a.is_set) as_ ≡ true
    → (id : String) × (first_running as_ ≡ some id)
unfolding first_running
first_running-some [] h = absurd (cc)
first_running-some (a ∷ as_) h = elim (Bool-cases a.is_set) [
  | inl set ↦ let (id, found) = first_running-some as_ (rw set at h) in (id, rw set found)
  | inr free ↦ (a.id, rw free refl)
]

begin_task-running :
    (a : Start) (w w' : World) (id : String)
    → begin_task a w ≡ ok (w', id)
    → running w'.active ≡ suc (running w.active)
unfolding begin_task
begin_task-running a w w' id h =
    let (n, _, e) = >>=-eq-ok a.gold _ h in
    ap (λ (p : World × String). running p.0.active) (sym (ok-injective e))
    ∙ running-append w.active _
    ∙ omega arith

-- The events, and how many starts have found no running task and have not registered their own.
pub record Process : Type 0 where
  pub world : World
  pub in_flight : ℕ

-- The operations on the events, by threads of which at most `most` are inside a start that goes on at
-- one time. Such a start looks for a running task in one step (`admit`) and, in a later one, registers
-- its task or raises, with whatever steps of others in between; `start` is one that nothing
-- interrupts, or that finds a running task. A thread that ends drops its own event.
pub data Step (most : ℕ) : Process → Process → Type 0 where
  admit :
      (w : World) (f : ℕ)
      → is_task_running w ≡ false
      → suc f ≤ most
      → Step most (record { world = w; in_flight = f }) (record { world = w; in_flight = suc f })
  register :
      (a : Start) (w w' : World) (id : String) (f : ℕ)
      → begin_task a w ≡ ok (w', id)
      → Step most (record { world = w; in_flight = suc f }) (record { world = w'; in_flight = f })
  abandon :
      (a : Start) (w : World) (e : String) (f : ℕ)
      → begin_task a w ≡ raised e
      → Step most (record { world = w; in_flight = suc f }) (record { world = w; in_flight = f })
  start :
      (a : Start) (w w' : World) (id : String) (f : ℕ)
      → start_eval_task a w ≡ ok (w', id)
      → suc f ≤ most
      → Step most (record { world = w; in_flight = f }) (record { world = w'; in_flight = f })
  cancel :
      (id : String) (p : Process) → Step most p (record p { world = (cancel_task id p.world).0 })
  finish :
      (id : String) (p : Process) (s : Store)
      → Step most p
          (record p { world = record { store = s; active = drop_active id p.world.active } })

-- The states that a number of operations lead to.
pub data Reach (most : ℕ) (origin : Process) : Process → Type 0 where
  at_once : Reach most origin origin
  after : (p q : Process) → Step most p q → Reach most origin p → Reach most origin q

start-running :
    (a : Start) (w w' : World) (id : String)
    → start_eval_task a w ≡ ok (w', id)
    → (running w'.active ≤ 1) ⊎ (w' ≡ w)
unfolding start_eval_task is_task_running
start-running a w w' id h = elim (Bool-cases (is_task_running w)) [
  | inl busy ↦
      let (one, found) = first_running-some w.active busy in
      let same = ok-injective (rw (busy, found) at h) in
      inr (ap (λ (p : World × String). p.0) (sym same))
  | inr idle ↦
      inl (omega (arith, begin_task-running a w w' id (rw idle at h), idle-none w.active idle))
]

-- The tasks that run and the starts in flight.
abbrev pub load : Process → ℕ
load p = running p.world.active + p.in_flight

Step-load : (most : ℕ) {p q : Process} → Step most p q → load p ≤ most → load q ≤ most
unfolding cancel_task is_task_running
Step-load most (admit w f idle room) le = omega (arith, idle-none w.active idle)
Step-load most (register a w w' id f h) le = omega (arith, begin_task-running a w w' id h)
Step-load most (abandon a w e f h) le = omega arith
Step-load most (start a w w' id f h room) le = elim (start-running a w w' id h) [
  | inl one ↦ omega (arith, one, room)
  | inr same ↦ rw same le
]
Step-load most (cancel id p) le = ground (arith, set_event-le id p.world.active)
Step-load most (finish id p s) le = omega (arith, drop_active-le id p.world.active)

-- From a process without tasks and starts on, whatever is started, cancelled and finished in whatever
-- order, the tasks that run uncancelled and the starts in flight are together at most as many as the
-- starts that may be in flight at one time: where no start overlaps another, at most one task runs.
pub running_bounded :
    {most : ℕ} {origin p : Process}
    → origin.world.active ≡ []
    → origin.in_flight ≡ 0
    → Reach most origin p
    → running p.world.active + p.in_flight ≤ most
running_bounded none_active none_started at_once = rw none_active (omega (arith, none_started))
running_bounded {most} none_active none_started (after p q step before) =
    Step-load most step (running_bounded none_active none_started before)

-- A task that is cancelled stays active until its thread sees the event, but it does not keep another
-- from starting: the process then has two threads.
pub restart_after_cancel :
    (s : Store) (id : String) (a : Start) (n : ℕ)
    → a.gold ≡ ok n
    → let w : World = record { store = s; active = record { id = id; is_set = false } ∷ [] } in
      (w' : World) × (start_eval_task a (cancel_task id w).0 ≡ ok (w', a.task_id))
      × (w'.active
          ≡ record { id = id; is_set = true } ∷ record { id = a.task_id; is_set = false } ∷ [])
unfolding start_eval_task cancel_task begin_task
restart_after_cancel s id a n gold = (
  record {
    store = save_task (new_progress a n) s;
    active = record { id = id; is_set = true } ∷ record { id = a.task_id; is_set = false } ∷ [];
  },
  rw (eq_refl id, gold) refl,
  refl,
)
