-- ===== src/Task/Tests/Memory.antt =====
-- A Redis that is a list of entries, each with the time at which it expires, the newest first. A
-- deleted key has an entry that expired at once.
use nl2sql_agent.Common.{
  ℕ, ◌+◌, ◌≤◌, String, ◌≡◌, ◌≢◌, refl, Option, none, some, List, [], ◌∷◌, ◌⊎◌, inl, inr, ◌==◌,
  arith, ltb, if◌then◌else◌, Bool-cases, eq_iff, sym,
}
use mathlib.Core.List.{Memᴰ}
use nl2sql_agent.Task.Redis.{
  Redis, Key, same_key, state_key, heartbeat_key, cancel_key, idempotent_key, Value, text, seconds,
}

abbrev pub Entries : Type 0
Entries = List (Key × ℕ × Value)

abbrev pub read : Entries → ℕ → Key → Option Value
read [] later k = none
read ((key, ends, v) ∷ es) later k =
    let rest = read es later k in
    if same_key key k then (if ltb later ends then some v else none) else rest

abbrev pub ids : Entries → List String
ids [] = []
ids ((state_key id, ends, v) ∷ es) = id ∷ ids es
ids ((key, ends, v) ∷ es) = ids es

pub read-later :
    (es : Entries) (now later : ℕ) (k : Key)
    → now ≤ later
    → (read es later k ≡ read es now k) ⊎ (read es later k ≡ none)
read-later [] now later k h = inl refl
read-later ((key, ends, v) ∷ es) now later k h = elim (Bool-cases (same_key key k)) [
  | inl same ↦ rw same (elim (Bool-cases (ltb later ends)) [
    | inl live ↦ inl (ground (arith, live))
    | inr over ↦ inr (rw over refl)
  ])
  | inr other ↦ rw other (read-later es now later k h)
]

pub ids-all :
    (es : Entries) (now : ℕ) (id : String) → read es now (state_key id) ≢ none → Memᴰ id (ids es)
ids-all [] now id h = absurd (h refl)
ids-all ((state_key j, ends, v) ∷ es) now id h = elim (Bool-cases (j == id)) [
  | inl same ↦ Memᴰ.head (sym ((eq_iff j id).0 same))
  | inr other ↦ Memᴰ.tail (ids-all es now id (rw other at h))
]
ids-all ((heartbeat_key j, ends, v) ∷ es) now id h = ids-all es now id h
ids-all ((cancel_key j, ends, v) ∷ es) now id h = ids-all es now id h
ids-all ((idempotent_key j, ends, v) ∷ es) now id h = ids-all es now id h

pub read-delete :
    (es : Entries) (later : ℕ) (key k : Key)
    → read ((key, 0, text "") ∷ es) later k ≡ (if same_key key k then none else read es later k)
read-delete es later key k = ground arith

abbrev pub memory : Redis
memory = record {
  Db = Entries;
  get = read;
  setex = λ es now key ttl v. (key, now + seconds ttl, v) ∷ es;
  delete = λ es key. (key, 0, text "") ∷ es;
  scan = λ es now. ids es;
  get-setex = λ es now later ttl key k v h. refl;
  get-delete = read-delete;
  get-later = read-later;
  scan-all = ids-all;
}
