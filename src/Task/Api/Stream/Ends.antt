-- ===== src/Task/Api/Stream/Ends.antt =====
-- How a listener's stream ends.
use nl2sql_agent.Common.{
  ℕ, String, ◌≡◌, refl, ap, ◌∙◌, Bool, true, false, Option, none, some, List, [], ◌∷◌, ◌++◌, inl,
  inr, All, All-append, arith, Option-cases, Bool-cases, if◌then◌else◌, append_assoc,
}
use nl2sql_agent.Task.State.{TaskState}
use nl2sql_agent.Task.Redis.{Redis}
use nl2sql_agent.Task.Store.{task_get}
use nl2sql_agent.Task.Api.{has_ended}
use nl2sql_agent.Task.Api.Stream.{
  Event, token, complete, error, timed_out, Turn, heard, polled, events, task_stream, completed,
  status_events, node_events, seen_node,
}

-- The events after which the listener is left alone.
abbrev pub is_last : Event → Bool
is_last (complete s q r u e) = true
is_last (error e) = true
is_last timed_out = true
is_last _ = false

-- The tokens among some events.
abbrev pub tokens_of : List Event → List String
tokens_of [] = []
tokens_of (e ∷ es) = elim e [ token t ↦ t ∷ tokens_of es | _ ↦ tokens_of es ]

module _ {redis : Redis} (id : String) where
  -- What the first poll decides that does not find the task, or finds it ended; the deadline
  -- decides if no poll does.
  abbrev pub verdict : List (Turn redis) → Event
  verdict [] = timed_out
  verdict (heard t ∷ turns) = verdict turns
  verdict (polled w ∷ turns) =
      let rest = verdict turns in
      elim (task_get w id) [
        | none ↦ error "Task not found"
        | some t ↦ if has_ended t.status then completed t else rest
      ]

  -- The tokens of the turns before that.
  abbrev pub heard_before : List (Turn redis) → List String
  heard_before [] = []
  heard_before (heard t ∷ turns) = t ∷ heard_before turns
  heard_before (polled w ∷ turns) =
      let rest = heard_before turns in
      elim (task_get w id) [ none ↦ [] | some t ↦ if has_ended t.status then [] else rest ]

-- Some events that do not end the stream, with the given tokens, and then a last one.
abbrev pub EndsWith : List Event → List String → Event → Type 0
EndsWith es tokens last =
    (front : List Event) × (es ≡ front ++ last ∷ [])
    × All (λ e. is_last e ≡ false) front
    × (tokens_of front ≡ tokens)

-- Events without a token.
abbrev Between : List Event → Type 0
Between xs = All (λ e. is_last e ≡ false) xs × (tokens_of xs ≡ [])

tokens_of-append : (xs ys : List Event) → tokens_of xs ≡ [] → tokens_of (xs ++ ys) ≡ tokens_of ys
tokens_of-append [] ys h = refl
tokens_of-append (e ∷ xs) ys h = ground (arith, h, tokens_of-append xs ys)

EndsWith-append :
    (xs es : List Event) (tokens : List String) (last : Event)
    → Between xs
    → EndsWith es tokens last
    → EndsWith (xs ++ es) tokens last
EndsWith-append xs es tokens last (q, none_told) (front, e, p, told) = (
  xs ++ front,
  ap (λ ys. xs ++ ys) e ∙ append_assoc xs front (last ∷ []),
  All-append (λ e. is_last e ≡ false) xs front q p,
  tokens_of-append xs front none_told ∙ told,
)

status_events-Between : (last : Option ℕ) (t : TaskState) → Between (status_events last t)
status_events-Between last t = ground arith

node_events-Between : (last : String) (t : TaskState) → Between (node_events last t)
node_events-Between last t = ground arith

module _ {redis : Redis} (id : String) where
  events-EndsWith :
      (updated : Option ℕ) (node : String) (turns : List (Turn redis))
      → EndsWith (events id updated node turns) (heard_before id turns) (verdict id turns)
  unfolding events
  events-EndsWith updated node [] = ([], refl, tt, refl)
  events-EndsWith updated node (heard t ∷ turns) =
      let (front, e, p, told) = events-EndsWith updated node turns in
      (token t ∷ front, ap (λ es. token t ∷ es) e, (refl, p), ap (λ ts. t ∷ ts) told)
  events-EndsWith updated node (polled w ∷ turns) = elim (Option-cases (task_get w id)) [
    | inl gone ↦ rw (events, verdict, heard_before, gone) ([], refl, tt, refl)
    | inr (t, there) ↦
        rw (events, verdict, heard_before, there)
          (EndsWith-append (status_events updated t) _ _ _ (status_events-Between updated t) (
            EndsWith-append (node_events node t) _ _ _ (node_events-Between node t)
              (elim (Bool-cases (has_ended t.status)) [
                | inl over ↦ rw over ([], refl, tt, refl)
                | inr on ↦ rw on (events-EndsWith (some t.updated_at) (seen_node node t) turns)
              ])))
  ]

  -- A listener's stream is a number of events that do not end it and then exactly one that does:
  -- that of the first poll that does not find the task (an error) or finds it ended (its status and
  -- result), and the timeout if there is no such poll before the deadline. Every token that is heard
  -- before that is passed on once, in order, and no other.
  pub task_stream-EndsWith :
      (turns : List (Turn redis))
      → EndsWith (task_stream id turns) (heard_before id turns) (verdict id turns)
  unfolding task_stream
  task_stream-EndsWith turns = events-EndsWith none "" turns
