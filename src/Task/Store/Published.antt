-- ===== src/Task/Store/Published.antt =====
-- The operations of infrastructure/task_store.py publish nothing.
use nl2sql_agent.Common.{
  ℕ, String, ◌≡◌, refl, inl, inr, Option-cases, if_cases, ap, ◌∙◌, List, [], ◌∷◌, ◌++◌, Bool-cases,
  if◌then◌else◌, sym,
}
use nl2sql_agent.Task.State.{Status, TaskState, TaskMessage, Topic}
use nl2sql_agent.Task.Redis.{Redis, Key, Value}
use nl2sql_agent.Task.Store.{
  World, setex, delete, task_get, set_state, task_update, task_transition, task_heartbeat,
  task_request_cancel, task_clear_cancel, valid_transition, with_status, Broker, send,
}
use nl2sql_agent.Task.Store.Lookup.{task_update-none, task_update-some}

-- The messages of a list that a broker takes.
abbrev pub handed : Broker → List (Topic × TaskMessage) → List (Topic × TaskMessage)
handed b [] = []
handed b (m ∷ ms) = let rest = handed b ms in if b.accepts m then m ∷ rest else rest

append-nil : {A : Type 0} (xs : List A) → xs ++ [] ≡ xs
append-nil [] = refl
append-nil (x ∷ xs) = ap (λ ys. x ∷ ys) (append-nil xs)

pub send-handed :
    (b : Broker) (m : Topic × TaskMessage) → (send b m).published ≡ b.published ++ handed b (m ∷ [])
unfolding send
send-handed b m = elim (Bool-cases (b.accepts m)) [
  | inl taken ↦ rw taken refl
  | inr lost ↦ rw lost (sym (append-nil b.published))
]

pub send-accepts : (b : Broker) (m : Topic × TaskMessage) → (send b m).accepts ≡ b.accepts
unfolding send
send-accepts b m = elim (Bool-cases (b.accepts m)) [
  | inl taken ↦ rw taken refl
  | inr lost ↦ rw lost refl
]

module _ {redis : Redis} where
  broker-setex :
      (w : World redis) (key : Key) (ttl : ℕ) (v : Value) → (setex w key ttl v).broker ≡ w.broker
  broker-setex w key ttl v = elim (Option-cases w.db) [
    | inl down ↦ rw down refl
    | inr (db, up) ↦ rw up refl
  ]

  broker-delete : (w : World redis) (key : Key) → (delete w key).broker ≡ w.broker
  broker-delete w key = elim (Option-cases w.db) [
    | inl down ↦ rw down refl
    | inr (db, up) ↦ rw up refl
  ]

  pub broker-set_state :
      (w : World redis) (id : String) (t : TaskState) → (set_state w id t).broker ≡ w.broker
  unfolding set_state
  broker-set_state w id t = broker-setex w _ _ _

  pub broker-task_update :
      (w : World redis) (id : String) (change : TaskState → TaskState)
      → (task_update w id change).broker ≡ w.broker
  broker-task_update w id change = elim (Option-cases (task_get w id)) [
    | inl gone ↦ ap (λ v. v.broker) (task_update-none w id change gone)
    | inr (t, h) ↦ ap (λ v. v.broker) (task_update-some w id change t h) ∙ broker-set_state w id _
  ]

  pub broker-task_transition :
      (w : World redis) (id : String) (status : Status) (extra : TaskState → TaskState)
      → (task_transition w id status extra).broker ≡ w.broker
  unfolding task_transition
  broker-task_transition w id status extra =
      if_cases (λ (v : World redis). v.broker ≡ w.broker) (valid_transition (task_get w id) status)
        _ _ (λ _. broker-task_update w id (with_status status extra)) (λ _. refl)

  pub broker-task_heartbeat :
      (w : World redis) (id : String) → (task_heartbeat w id).broker ≡ w.broker
  unfolding task_heartbeat
  broker-task_heartbeat w id = broker-setex w _ _ _

  pub broker-task_request_cancel :
      (w : World redis) (id : String) → (task_request_cancel w id).broker ≡ w.broker
  unfolding task_request_cancel
  broker-task_request_cancel w id = broker-setex w _ _ _

  pub broker-task_clear_cancel :
      (w : World redis) (id : String) → (task_clear_cancel w id).broker ≡ w.broker
  unfolding task_clear_cancel
  broker-task_clear_cancel w id = broker-delete w _
