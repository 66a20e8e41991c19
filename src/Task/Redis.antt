-- ===== src/Task/Redis.antt =====
-- What the task store uses of Redis, as an interface: `get`, `setex`, `delete`, `scan`, keys that
-- expire, and the behaviour that Redis documents for them.
use Prim.Native.Nat.{◌*◌}
use nl2sql_agent.Common.{
  ℕ, ◌+◌, ◌≤◌, String, ◌≡◌, ◌≢◌, Bool, false, Option, none, some, List, ◌==◌, ltb, if◌then◌else◌,
  ◌⊎◌,
}
use mathlib.Core.List.{Memᴰ}
use nl2sql_agent.Task.State.{TaskState}

-- The keys `task:{id}`, `task:{id}:heartbeat`, `task:{id}:cancel` and `idempotent:{hash}`. An id is
-- of hexadecimal digits, so that keys of two kinds or of two ids are two texts.
pub data Key : Type 0 where
  state_key heartbeat_key cancel_key idempotent_key : String → Key

abbrev pub same_key : Key → Key → Bool
same_key (state_key a) (state_key b) = a == b
same_key (heartbeat_key a) (heartbeat_key b) = a == b
same_key (cancel_key a) (cancel_key b) = a == b
same_key (idempotent_key a) (idempotent_key b) = a == b
same_key a b = false

-- A text that Redis holds: a JSON document, an ISO time, or another one.
pub data Value : Type 0 where
  document : TaskState → Value
  time : ℕ → Value
  text : String → Value

-- Microseconds in a number of seconds.
abbrev pub seconds : ℕ → ℕ
seconds n = n * 1000000

-- `get db now key` sees the key unless it is expired; `scan` gives the ids of the keys `task:{id}`,
-- each one at least once.
pub record Redis : Type 1 where
  pub Db : Type 0
  pub get : Db → ℕ → Key → Option Value
  pub setex : Db → ℕ → Key → ℕ → Value → Db
  pub delete : Db → Key → Db
  pub scan : Db → ℕ → List String
  pub get-setex :
      (db : Db) (now later ttl : ℕ) (key k : Key) (v : Value)
      → now ≤ later
      → get (setex db now key ttl v) later k ≡ (
          if same_key key k
          then (if ltb later (now + seconds ttl) then some v else none)
          else get db later k)
  pub get-delete :
      (db : Db) (later : ℕ) (key k : Key)
      → get (delete db key) later k ≡ (if same_key key k then none else get db later k)
  pub get-later :
      (db : Db) (now later : ℕ) (k : Key)
      → now ≤ later
      → (get db later k ≡ get db now k) ⊎ (get db later k ≡ none)
  pub scan-all :
      (db : Db) (now : ℕ) (id : String) → get db now (state_key id) ≢ none → Memᴰ id (scan db now)
