-- ===== src/Task/Worker/Attempts/Bounded.antt =====
-- The requests and the dead letters of an attempt, and of a chain of attempts.
use nl2sql_agent.Common.{
  ℕ, zero, suc, ◌+◌, ◌≤◌, ◌<◌, String, ◌≡◌, refl, sym, ap, ◌∙◌, Bool, true, false, List, [], ◌∷◌,
  ◌++◌, inl, inr, Bool-cases, ltb, if◌then◌else◌, if_cases, arith, concat, str, Option, none, some,
}
use mathlib.Core.List.{Memᴰ}
use nl2sql_agent.Agent.State.{AgentState}
use nl2sql_agent.Task.State.{
  Request, success, failed, timeout, cancelled, TaskMessage, Topic, request_topic, dlq_topic,
  request, dead_letter, status_topic, retrying,
}
use nl2sql_agent.Task.Redis.{Redis}
use nl2sql_agent.Task.Store.{
  World, publish, task_update, task_is_cancelled, with_error, get_task_timeout, Broker,
}
use nl2sql_agent.Task.Store.Published.{handed}
use nl2sql_agent.Task.Worker.{
  Stream, Ran, run_graph, handle_task, after_graph, on_error, on_timeout, start, completed,
  was_cancelled, raised_error, timed_out, max_retries, message, unchanged, with_retry,
}
use nl2sql_agent.Task.Worker.Attempts.{
  Quiet, work, work-publish, Quiet-publish, Quiet-update, Quiet-transition, Quiet-clear,
  Quiet-start, Quiet-graph, append-nil, asks, requests_in,
}

abbrev pub again : String → Request → String → Topic × TaskMessage
again id req e = (
  request_topic,
  message id "retry" (request (record req { retry_count = req.retry_count + 1; last_error = e })),
)

abbrev pub dead : String → Request → String → Topic × TaskMessage
dead id req e = (dlq_topic, message id "dead_letter" (dead_letter req e))

-- What an attempt asks for, by how its job ended and whether it is cancelled by then.
abbrev pub asked : String → Request → Bool → Ran → List (Topic × TaskMessage)
asked id req stopped (raised_error e) =
    if stopped
    then []
    else if ltb req.retry_count max_retries
    then again id req e ∷ []
    else dead id req e ∷ []
asked id req stopped _ = []

asking-handed :
    (b : Broker) (topic : Topic) (msg : TaskMessage)
    → asks topic ≡ true
    → requests_in (handed b ((topic, msg) ∷ [])) ≡ handed b ((topic, msg) ∷ [])
asking-handed b topic msg h = elim (Bool-cases (b.accepts (topic, msg))) [
  | inl taken ↦ rw (taken, h) refl
  | inr lost ↦ rw lost refl
]

module _ {redis : Redis} where
  Quiet-work : {b w : World redis} → Quiet b w → work w ≡ work b ++ []
  Quiet-work {b} q = q.same ∙ sym (append-nil (work b))

  here : {w : World redis} → Quiet w w
  here = record { same = refl; takes = refl }

  asks-publish :
      {b w : World redis} (topic : Topic) (msg : TaskMessage)
      → asks topic ≡ true
      → Quiet b w
      → work (publish w topic msg) ≡ work b ++ handed b.broker ((topic, msg) ∷ [])
  asks-publish {b} {w} topic msg h q =
      work-publish w topic msg
      ∙ ap
          (λ f.
            work w ++ requests_in (handed (record w.broker { accepts = f }) ((topic, msg) ∷ [])))
          q.takes
      ∙ ap (λ ms. ms ++ requests_in (handed b.broker ((topic, msg) ∷ []))) q.same
      ∙ ap (λ ms. work b ++ ms) (asking-handed b.broker topic msg h)

  retry-asks :
      (id : String) (req : Request) (e : String) (b w : World redis)
      → Quiet b w
      → let asking = publish w (again id req e).0 (again id req e).1 in
        let counted =
          task_update asking id (λ t. with_error e (with_retry (req.retry_count + 1) t)) in
        work
          (publish counted status_topic (message id "retrying" (retrying (req.retry_count + 1) e)))
        ≡ work b ++ handed b.broker (again id req e ∷ [])
  retry-asks id req e b w q =
      let asking = publish w (again id req e).0 (again id req e).1 in
      let counted : Quiet asking _ =
        Quiet-update {w = asking} id (λ t. with_error e (with_retry (req.retry_count + 1) t))
          here in
      (Quiet-publish status_topic (message id "retrying" (retrying (req.retry_count + 1) e)) refl
        counted).same
      ∙ asks-publish (again id req e).0 (again id req e).1 refl q

  error-asks :
      (id : String) (req : Request) (e : String) (b w : World redis)
      → Quiet b w
      → work (on_error id req e w)
        ≡ work b ++ handed b.broker (asked id req (task_is_cancelled w id) (raised_error e))
  unfolding on_error
  error-asks id req e b w q = elim (Bool-cases (task_is_cancelled w id)) [
    | inl stopped ↦ rw stopped (
        Quiet-work (
          Quiet-clear id (
            Quiet-transition id cancelled (with_error (concat ("Cancelled after error: " ∷ e ∷ [])))
              q)))
    | inr on ↦ rw on (elim (Bool-cases (ltb req.retry_count max_retries)) [
      | inl more ↦ rw more (retry-asks id req e b w q)
      | inr last ↦ rw last (
          asks-publish _ _ refl
            (Quiet-publish _ _ refl (Quiet-transition id failed (with_error e) q)))
    ])
  ]

  Quiet-timeout :
      (id : String) (req : Request) (b w : World redis) → Quiet b w → Quiet b (on_timeout id req w)
  unfolding on_timeout
  Quiet-timeout id req b w q =
      let limit = get_task_timeout req.retry_count in
      if_cases (Quiet b) (task_is_cancelled w id) _ _
        (λ _.
          Quiet-clear id
            (Quiet-transition id cancelled (with_error "Cancelled during execution") q))
        (λ _. Quiet-publish _ _ refl (
          Quiet-transition id timeout
            (with_error (concat ("Task timed out after " ∷ str limit ∷ "s" ∷ []))) q))

  end-asks :
      (id : String) (req : Request) (b : World redis) (r : World redis × Ran)
      → Quiet b r.0
      → work (after_graph id req r)
        ≡ work b ++ handed b.broker (asked id req (task_is_cancelled r.0 id) r.1)
  end-asks id req b (w, completed) q = Quiet-work (Quiet-transition id success unchanged q)
  end-asks id req b (w, was_cancelled) q = Quiet-work q
  end-asks id req b (w, raised_error e) q = error-asks id req e b w q
  end-asks id req b (w, timed_out) q = Quiet-work (Quiet-timeout id req b w q)

-- How the job of an attempt ends, and the world that it leaves to the handler.
abbrev pub ran :
    {redis : Redis} → (AgentState → Stream) → String → Request → World redis → World redis × Ran
ran graph id req w = run_graph graph id req (start id req w)

-- The new work after an attempt: nothing if the task is cancelled before it, otherwise what `asked`
-- says of the end of the job.
abbrev pub new_work :
    {redis : Redis}
    → (AgentState → Stream)
    → String
    → Request
    → World redis
    → List (Topic × TaskMessage)
new_work graph id req w =
    if task_is_cancelled w id
    then []
    else asked id req (task_is_cancelled (ran graph id req w).0 id) (ran graph id req w).1

module _ {redis : Redis} (graph : AgentState → Stream) (id : String) (req : Request)
    (w : World redis) where
  -- Of requests and dead letters an attempt hands to the broker, which has those that it takes: the
  -- request of the next attempt, with the count of the retries one higher, only if its job raises, the
  -- task is not cancelled by then and the count is below 3; a dead letter instead if the count is 3 or
  -- more. An attempt that succeeds, that is cancelled or that times out hands over neither.
  pub handle_task-asks :
      work (handle_task graph id req w) ≡ work w ++ handed w.broker (new_work graph id req w)
  unfolding handle_task
  handle_task-asks = elim (Bool-cases (task_is_cancelled w id)) [
    | inl stopped ↦
        rw stopped
          (Quiet-work {b = w} (Quiet-transition {b = w} {w = w} id cancelled unchanged here))
    | inr on ↦ rw on (
        end-asks id req w (ran graph id req w) (Quiet-graph graph id req (Quiet-start id req here)))
  ]

-- The attempts that one submission leads to: each but the first is for a request that the handler of
-- the one before published, on top of the requests and dead letters that were there.
pub data Attempt (redis : Redis) (id : String) : ℕ → Request → Type 0 where
  submitted : (req : Request) → req.retry_count ≡ 0 → Attempt redis id 0 req
  retried :
      (n : ℕ) (req next : Request) (graph : AgentState → Stream) (w : World redis) (event : String)
      (new : List (Topic × TaskMessage))
      → Attempt redis id n req
      → work (handle_task graph id req w) ≡ work w ++ new
      → Memᴰ (request_topic, message id event (request next)) new
      → Attempt redis id (suc n) next

append-cancel : {A : Type 0} (xs : List A) {ys zs : List A} → xs ++ ys ≡ xs ++ zs → ys ≡ zs
append-cancel [] h = h
append-cancel (x ∷ xs) h = append-cancel xs (cc (h))

-- The count of retries in a request; other messages have none.
abbrev count_of : Topic × TaskMessage → Option ℕ
count_of (request_topic, msg) = elim msg.payload [ request r ↦ some r.retry_count | _ ↦ none ]
count_of (_, msg) = none

mem-handed :
    {m : Topic × TaskMessage} (b : Broker) (ms : List (Topic × TaskMessage))
    → Memᴰ m (handed b ms)
    → Memᴰ m ms
mem-handed b [] there = there
mem-handed b (n ∷ ms) there = elim (Bool-cases (b.accepts n)) [
  | inl taken ↦ elim (rw taken at there) [
    | Memᴰ.head e ↦ Memᴰ.head e
    | Memᴰ.tail later ↦ Memᴰ.tail (mem-handed b ms later)
  ]
  | inr lost ↦ Memᴰ.tail (mem-handed b ms (rw lost at there))
]

mem_single : {A : Type 0} {x y : A} → Memᴰ x (y ∷ []) → x ≡ y
mem_single (Memᴰ.head e) = e
mem_single (Memᴰ.tail m) = absurd (elim m [ ])

asked-retry :
    (id event : String) (req next : Request) (stopped : Bool) (r : Ran)
    → Memᴰ (request_topic, message id event (request next)) (asked id req stopped r)
    → (next.retry_count ≡ req.retry_count + 1) × (req.retry_count < max_retries)
asked-retry id event req next stopped completed m = elim m [ ]
asked-retry id event req next stopped was_cancelled m = elim m [ ]
asked-retry id event req next stopped timed_out m = elim m [ ]
asked-retry id event req next true (raised_error e) m = elim m [ ]
asked-retry id event req next false (raised_error e) m =
    elim (Bool-cases (ltb req.retry_count max_retries)) [
      | inl more ↦ (ground (arith, ap count_of (mem_single (rw more at m))), ground arith)
      | inr last ↦ absurd (ground (arith, ap count_of (mem_single (rw last at m))))
    ]

-- An attempt of a chain has the number of the attempts before it as its count of retries, and that is
-- at most 3: whatever the jobs do, a submission is tried four times at most.
pub attempts_bounded :
    (redis : Redis) (id : String) (n : ℕ) (req : Request)
    → Attempt redis id n req
    → (req.retry_count ≡ n) × (n ≤ max_retries)
attempts_bounded redis id zero req (submitted _ h) = (h, omega arith)
attempts_bounded redis id (suc n) next (retried _ req _ graph w event new before handled there) =
    let (e, _) = attempts_bounded redis id n req before in
    let same : new ≡ handed w.broker (new_work graph id req w) =
      append-cancel (work w) (sym handled ∙ handle_task-asks graph id req w) in
    let m : Memᴰ (request_topic, message id event (request next)) (new_work graph id req w) =
      mem-handed w.broker _ (rw same at there) in
    elim (Bool-cases (task_is_cancelled w id)) [
      | inl stopped ↦ absurd (elim (rw stopped at m) [ ])
      | inr on ↦
          let (f, less) = asked-retry id event req next _ _ (rw on at m) in
          (omega (arith, e, f), omega (arith, e, less))
    ]
