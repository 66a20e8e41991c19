-- ===== src/Task/Store/Lookup.antt =====
-- What the operations of infrastructure/task_store.py write, as the state of each task afterwards.
use nl2sql_agent.Common.{
  ℕ, ◌<◌, String, ◌≡◌, refl, true, Option, none, some, ◌==◌, arith, if◌then◌else◌, eq_iff, is_some,
  ap, inl, inr, Option-cases,
}
use nl2sql_agent.Task.State.{Status, TaskState}
use nl2sql_agent.Task.Redis.{
  Redis, Key, same_key, state_key, heartbeat_key, cancel_key, Value, document, time, text,
}
use nl2sql_agent.Task.Store.{
  World, get, setex, delete, loads, set_state, task_get, task_update, task_heartbeat,
  task_request_cancel, task_clear_cancel, ttl_for_status, ttl_cancel_flag, heartbeat_ttl_s,
  task_get_heartbeat,
}

ttl-positive : (s : Status) → 0 < ttl_for_status s
unfolding ttl_for_status
ttl-positive s = ground arith

-- The state of the task after an update of `before`.
abbrev pub updated : ℕ → (TaskState → TaskState) → Option TaskState → Option TaskState
updated now change none = none
updated now change (some t) = some (record (change t) { updated_at = now })

module _ {redis : Redis} where
  -- A key that was just written is there, if the database is.
  pub get-setex :
      (w : World redis) (key k : Key) (ttl : ℕ) (v : Value)
      → 0 < ttl
      → get (setex w key ttl v) k
        ≡ (if same_key key k then (if is_some w.db then some v else none) else get w k)
  get-setex w key k ttl v h = elim (Option-cases w.db) [
    | inl down ↦ rw down (ground arith)
    | inr (db, up) ↦
        rw up (rw (redis.get-setex db w.now w.now ttl key k v (omega arith)) (ground (arith, h)))
  ]

  pub task_get-set_state :
      (w : World redis) (id j : String) (t : TaskState)
      → task_get (set_state w id t) j
        ≡ (if id == j then (if is_some w.db then some t else none) else task_get w j)
  unfolding task_get set_state
  task_get-set_state w id j t =
      rw
        (get-setex w (state_key id) (state_key j) (ttl_for_status t.status) (document t)
          (ttl-positive t.status))
        (ground arith)

  -- A task is there only if the database is.
  pub is_up :
      (w : World redis) (id : String) (t : TaskState) → task_get w id ≡ some t → is_some w.db ≡ true
  unfolding task_get
  is_up w id t h = elim (Option-cases w.db) [
    | inl down ↦ absurd (cc)
    | inr (db, up) ↦ ground (arith, up)
  ]

  pub task_update-some :
      (w : World redis) (id : String) (change : TaskState → TaskState) (t : TaskState)
      → task_get w id ≡ some t
      → task_update w id change ≡ set_state w id (record (change t) { updated_at = w.now })
  unfolding task_update
  task_update-some w id change t h = rw (h, task_update) refl

  pub task_update-none :
      (w : World redis) (id : String) (change : TaskState → TaskState)
      → task_get w id ≡ none
      → task_update w id change ≡ w
  unfolding task_update
  task_update-none w id change h = rw (h, task_update) refl

  pub task_get-task_update :
      (w : World redis) (id j : String) (change : TaskState → TaskState)
      → task_get (task_update w id change) j
        ≡ (if id == j then updated w.now change (task_get w id) else task_get w j)
  task_get-task_update w id j change = elim (Option-cases (task_get w id)) [
    | inl gone ↦
        rw (task_update-none w id change gone) (rw gone (ground (arith, gone, eq_iff id j)))
    | inr (t, h) ↦ rw (task_update-some w id change t h) (
        rw (task_get-set_state w id j (record (change t) { updated_at = w.now }))
          (rw (is_up w id t h) (rw h refl)))
  ]

  pub task_get-task_heartbeat :
      (w : World redis) (id j : String) → task_get (task_heartbeat w id) j ≡ task_get w j
  unfolding task_get task_heartbeat
  task_get-task_heartbeat w id j =
      ap loads
        (get-setex w (heartbeat_key id) (state_key j) heartbeat_ttl_s (time w.now) (omega arith))

  pub task_get-task_request_cancel :
      (w : World redis) (id j : String) → task_get (task_request_cancel w id) j ≡ task_get w j
  unfolding task_get task_request_cancel
  task_get-task_request_cancel w id j =
      ap loads (get-setex w (cancel_key id) (state_key j) ttl_cancel_flag (text "1") (omega arith))

  pub get-delete :
      (w : World redis) (key k : Key)
      → get (delete w key) k ≡ (if same_key key k then none else get w k)
  get-delete w key k = elim (Option-cases w.db) [
    | inl down ↦ rw down (ground arith)
    | inr (db, up) ↦ rw up (redis.get-delete db w.now key k)
  ]

  pub task_get-task_clear_cancel :
      (w : World redis) (id j : String) → task_get (task_clear_cancel w id) j ≡ task_get w j
  unfolding task_get task_clear_cancel
  task_get-task_clear_cancel w id j = ap loads (get-delete w (cancel_key id) (state_key j))

  heartbeat-set_state :
      (w : World redis) (id j : String) (t : TaskState)
      → task_get_heartbeat (set_state w id t) j ≡ task_get_heartbeat w j
  unfolding set_state task_get_heartbeat
  heartbeat-set_state w id j t =
      get-setex w (state_key id) (heartbeat_key j) (ttl_for_status t.status) (document t)
        (ttl-positive t.status)

  now-set_state : (w : World redis) (id : String) (t : TaskState) → (set_state w id t).now ≡ w.now
  unfolding set_state
  now-set_state w id t = elim (Option-cases w.db) [
    | inl down ↦ rw down refl
    | inr (db, up) ↦ rw up refl
  ]

  -- An update of a task's state leaves the clock and the heartbeats alone.
  pub beats-task_update :
      (w : World redis) (id j : String) (change : TaskState → TaskState)
      → ((task_update w id change).now ≡ w.now)
        × (task_get_heartbeat (task_update w id change) j ≡ task_get_heartbeat w j)
  beats-task_update w id j change = elim (Option-cases (task_get w id)) [
    | inl gone ↦ rw (task_update-none w id change gone) (refl, refl)
    | inr (t, h) ↦
        rw (task_update-some w id change t h) (now-set_state w id _, heartbeat-set_state w id j _)
  ]
