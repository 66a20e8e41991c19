-- ===== src/Task/Api/Submit.antt =====
-- What a submission does, and what it does when it comes again.
use nl2sql_agent.Task.Store.Published.{broker-set_state, send-handed, handed}
use nl2sql_agent.Common.{
  ℕ, ◌+◌, ◌<◌, String, ◌≡◌, refl, ap, ◌∙◌, true, Option, none, some, [], ◌∷◌, ◌++◌, ◌⊎◌, inl, inr,
  arith, eq_refl, is_some, truthy, get_or_else, Option-cases,
}
use nl2sql_agent.Task.State.{pending, TaskState, request, request_topic, TaskMessage, Topic}
use nl2sql_agent.Task.Redis.{Redis, idempotent_key, state_key, seconds, text, Value, document}
use nl2sql_agent.Task.Store.{
  World, publish, task_get, task_create, idempotent_check, idempotent_set, set_state,
  ttl_idempotent, id_of, ttl_for_status, new_task, send,
}
use nl2sql_agent.Task.Store.Lookup.{task_get-set_state}
use nl2sql_agent.Task.Api.{
  Submission, task_submit, submit_new, idempotency_text, payload_of, task_status, response,
  submit_keyed,
}

status-there :
    {redis : Redis} (w : World redis) (id : String) (t : TaskState)
    → task_get w id ≡ some t
    → task_status w id ≡ response t
unfolding task_status
status-there w id t h = rw (task_status, h) refl

-- A state that is written behind an idempotency key leaves it.
key-stays :
    (redis : Redis) (db : redis.Db) (now d : ℕ) (hash id : String) (ttl : ℕ) (v : Value)
    → d < seconds ttl_idempotent
    → redis.get
        (redis.setex
          (redis.setex db now (idempotent_key hash) ttl_idempotent (text id))
          now
          (state_key id)
          ttl
          v)
        (now + d)
        (idempotent_key hash)
      ≡ some (text id)
key-stays redis db now d hash id ttl v early =
    redis.get-setex _ now (now + d) ttl (state_key id) (idempotent_key hash) v (omega arith)
    ∙ redis.get-setex db now (now + d) ttl_idempotent (idempotent_key hash) (idempotent_key hash)
        (text id) (omega arith)
    ∙ rw (eq_refl hash) (ground arith)

seen-submit :
    {redis : Redis} (sha256 : String → String) (w : World redis) (req : Submission)
    (new_id t id : String)
    → idempotency_text req ≡ some t
    → idempotent_check w (sha256 t) ≡ some id
    → truthy id ≡ true
    → task_submit sha256 w req new_id ≡ (w, id)
unfolding task_submit
seen-submit sha256 w req new_id t id key seen named =
    rw (task_submit, key, submit_keyed, seen) (rw named refl)

module _ {redis : Redis} (sha256 : String → String) (w : World redis) (req : Submission)
    (id : String) where
  -- The request has no key, or one that was not seen.
  abbrev pub IsNew : Type 0
  IsNew =
      (idempotency_text req ≡ none)
      ⊎ ((t : String) × (idempotency_text req ≡ some t) × (idempotent_check w (sha256 t) ≡ none))

  -- The world in which the task of a new request is made.
  abbrev keyed : Option String → World redis
  keyed none = w
  keyed (some t) = idempotent_set w (sha256 t) id

  submit-new :
      IsNew → task_submit sha256 w req id ≡ (submit_new (keyed (idempotency_text req)) req id, id)
  unfolding task_submit
  submit-new (inl no_key) = rw (task_submit, no_key) refl
  submit-new (inr (t, key, unseen)) = rw (task_submit, key, submit_keyed, unseen) refl

  -- The key changes neither the clock nor the messages, and the database stays where it is.
  keyed-same :
      (o : Option String)
      → ((keyed o).now ≡ w.now)
        × ((keyed o).broker ≡ w.broker)
        × (is_some (keyed o).db ≡ is_some w.db)
  unfolding idempotent_set
  keyed-same none = (refl, refl, refl)
  keyed-same (some t) = elim (Option-cases w.db) [
    | inl down ↦ rw down (refl, refl, refl)
    | inr (db, up) ↦ rw up (refl, refl, refl)
  ]

  abbrev task_at : ℕ → TaskState
  task_at now =
      new_task id req.question (get_or_else req.db_id "") (get_or_else req.database_url "") now

  abbrev task_of : World redis → TaskState
  task_of v = task_at v.now

  created-task :
      (v : World redis) → is_some v.db ≡ true → task_get (submit_new v req id) id ≡ some (task_of v)
  unfolding submit_new task_create publish task_get
  created-task v up = task_get-set_state v id id (task_of v) ∙ rw (eq_refl id) (rw up refl)

  abbrev submitted_message : Topic × TaskMessage
  submitted_message = (
    request_topic,
    record { task_id = id; event = "submitted"; payload = request (payload_of req) },
  )

  created-message :
      (v : World redis)
      → (submit_new v req id).broker.published
        ≡ v.broker.published ++ handed v.broker (submitted_message ∷ [])
  unfolding submit_new task_create publish
  created-message v =
      ap (λ b. (send b submitted_message).published) (broker-set_state v id (task_of v))
      ∙ send-handed v.broker submitted_message

  -- A new submission, where the database is up, answers with the new id, hands one request to the
  -- broker, which has it afterwards if it takes it, and leaves the task PENDING with the first 200
  -- characters of the question, also if the broker does not take the request.
  pub new_submission :
      IsNew
      → is_some w.db ≡ true
      → let (v, answer) = task_submit sha256 w req id in
        (answer ≡ id)
        × (v.broker.published ≡ w.broker.published ++ handed w.broker (submitted_message ∷ []))
        × (task_status v id ≡ response (task_of w))
  new_submission new up =
      let k = keyed (idempotency_text req) in
      let (clock, sent, there) = keyed-same (idempotency_text req) in
      rw (submit-new new) (
        refl,
        created-message k ∙ rw sent refl,
        status-there (submit_new k req id) id (task_of k) (created-task k (there ∙ up))
            ∙ ap (λ n. response (task_at n)) clock,
      )

  -- The key is there until it expires.
  key-lasts :
      (t : String) (db : redis.Db) (d : ℕ)
      → w.db ≡ some db
      → d < seconds ttl_idempotent
      → let v = submit_new (keyed (some t)) req id in
        idempotent_check (record v { now = v.now + d }) (sha256 t) ≡ some id
  unfolding submit_new task_create set_state publish idempotent_set idempotent_check
  key-lasts t db d up early = rw up (
      ap id_of (
        key-stays redis db w.now d (sha256 t) id (ttl_for_status pending) (document (task_at w.now))
          early))

  -- Where the database is up, a submission with a key that was not seen is made under an id that is
  -- not empty. If one with the same idempotency text comes within 300 seconds, with whatever other
  -- fields and with nothing between but the time, the answer is the id of the first one and nothing
  -- else happens: no second task, no second message.
  pub resubmission :
      (t : String) (db : redis.Db) (d : ℕ) (again : Submission) (new_id : String)
      → idempotency_text req ≡ some t
      → idempotent_check w (sha256 t) ≡ none
      → w.db ≡ some db
      → truthy id ≡ true
      → d < seconds ttl_idempotent
      → idempotency_text again ≡ some t
      → let v = (task_submit sha256 w req id).0 in
        let later = record v { now = v.now + d } in
        task_submit sha256 later again new_id ≡ (later, id)
  resubmission t db d again new_id key unseen up named early same =
      rw (submit-new (inr (t, key, unseen)))
        (rw key (seen-submit sha256 _ again new_id t id same (key-lasts t db d up early) named))
