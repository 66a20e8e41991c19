-- ===== src/Retrieval/Hybrid/Merge.antt =====
-- The merge of two ranked lists keeps the first item of each key, once.
use mathlib.Core.List.{append-nil}
use nl2sql_agent.Common.{
  ℕ, suc, ◌≡◌, refl, sym, ap, ◌∙◌, String, false, ◌||◌, Option, none, some, List, [], ◌∷◌, ◌++◌,
  ◌==◌, arith, All, eq_iff, if_cases, if◌then◌else◌, append_assoc, eq_refl,
}
use nl2sql_agent.Common.Strings.{mem_text}
use nl2sql_agent.Common.Members.{mem-nothing, mem-cons, mem-append}
use nl2sql_agent.Agent.State.{Chunk}
use nl2sql_agent.Retrieval.Hybrid.{Scores, Entry, chunk_key, chunk_keys, keys_of, upsert, rank_from}

-- No text stands twice in the list.
abbrev pub IsUnique : List String → Type 0
IsUnique [] = Unit
IsUnique (x ∷ xs) = (mem_text x xs ≡ false) × IsUnique xs

-- The first chunk with a key.
unfoldable pub first_with : String → List Chunk → Option Chunk
first_with k [] = none
first_with k (c ∷ cs) = if k == chunk_key c then some c else first_with k cs

first_with-none :
    (k : String) (cs : List Chunk) → mem_text k (chunk_keys cs) ≡ false → first_with k cs ≡ none
unfolding first_with
first_with-none k [] h = refl
first_with-none k (c ∷ cs) h =
    ground (arith, mem-cons k (chunk_key c) (chunk_keys cs), first_with-none k cs)

first_with-append :
    (k : String) (cs ds : List Chunk) (c : Chunk)
    → first_with k cs ≡ some c
    → first_with k (cs ++ ds) ≡ some c
unfolding first_with
first_with-append k [] ds c h = absurd (cc)
first_with-append k (b ∷ cs) ds c h = ground (arith, first_with-append k cs ds c)

first_with-new :
    (cs : List Chunk) (c : Chunk)
    → first_with (chunk_key c) cs ≡ none
    → first_with (chunk_key c) (cs ++ c ∷ []) ≡ some c
unfolding first_with
first_with-new [] c h = rw (eq_refl (chunk_key c)) refl
first_with-new (b ∷ cs) c h = ground (arith, first_with-new cs c)

chunk_keys-append : (cs ds : List Chunk) → chunk_keys (cs ++ ds) ≡ chunk_keys cs ++ chunk_keys ds
chunk_keys-append [] ds = refl
chunk_keys-append (c ∷ cs) ds = ap (λ ks. chunk_key c ∷ ks) (chunk_keys-append cs ds)

module _ (numbers : Scores) where
  upsert-keys :
      (k : String) (c : Chunk) (rank : ℕ) (es : List (Entry numbers))
      → mem_text k (keys_of numbers (upsert numbers c rank es))
        ≡ ((k == chunk_key c) || mem_text k (keys_of numbers es))
  unfolding upsert mem_text
  upsert-keys k c rank [] = refl
  upsert-keys k c rank (e ∷ es) = ground (
    arith,
    eq_iff (chunk_key c) e.key,
    eq_iff k e.key,
    eq_iff k (chunk_key c),
    upsert-keys k c rank es,
  )

  -- The entries stand for the chunks that were read: the keys are theirs, each once, with the first
  -- chunk that has it.
  pub record Stands (cs : List Chunk) (es : List (Entry numbers)) : Type 0 where
    pub unique : IsUnique (keys_of numbers es)
    pub keys : (k : String) → mem_text k (keys_of numbers es) ≡ mem_text k (chunk_keys cs)
    pub firsts : All (λ (e : Entry numbers). first_with e.key cs ≡ some e.item) es

  firsts-append :
      (cs ds : List Chunk) (es : List (Entry numbers))
      → All (λ (e : Entry numbers). first_with e.key cs ≡ some e.item) es
      → All (λ (e : Entry numbers). first_with e.key (cs ++ ds) ≡ some e.item) es
  firsts-append cs ds [] all = tt
  firsts-append cs ds (e ∷ es) all =
      (first_with-append e.key cs ds e.item all.0, firsts-append cs ds es all.1)

  upsert-IsUnique :
      (c : Chunk) (rank : ℕ) (es : List (Entry numbers))
      → IsUnique (keys_of numbers es)
      → IsUnique (keys_of numbers (upsert numbers c rank es))
  unfolding upsert
  upsert-IsUnique c rank [] u = (mem-nothing (chunk_key c), tt)
  upsert-IsUnique c rank (e ∷ es) u =
      if_cases (λ xs. IsUnique (keys_of numbers xs)) (chunk_key c == e.key) _ _ (λ _. u)
        (λ other. (
          ground (
            arith,
            eq_iff (chunk_key c) e.key,
            eq_iff e.key (chunk_key c),
            upsert-keys e.key c rank es,
            u.0,
          ),
          upsert-IsUnique c rank es u.1,
        ))

  -- An item that is read: the entries with a key keep their item, and a new key has it as its first.
  upsert-firsts :
      (cs : List Chunk) (c : Chunk) (rank : ℕ) (es : List (Entry numbers))
      → (mem_text (chunk_key c) (keys_of numbers es) ≡ false → first_with (chunk_key c) cs ≡ none)
      → All (λ (e : Entry numbers). first_with e.key cs ≡ some e.item) es
      → All
          (λ (e : Entry numbers). first_with e.key (cs ++ c ∷ []) ≡ some e.item)
          (upsert numbers c rank es)
  unfolding upsert
  upsert-firsts cs c rank [] new all = (first_with-new cs c (new (mem-nothing (chunk_key c))), tt)
  upsert-firsts cs c rank (e ∷ es) new all =
      if_cases (All (λ (d : Entry numbers). first_with d.key (cs ++ c ∷ []) ≡ some d.item))
        (chunk_key c == e.key) _ _ (λ _. firsts-append cs (c ∷ []) (e ∷ es) all)
        (λ other. (
          first_with-append e.key cs (c ∷ []) e.item all.0,
          upsert-firsts cs c rank es
              (λ absent. new (rw (mem-cons (chunk_key c) e.key (keys_of numbers es), other) absent))
              all.1,
        ))

  upsert-Stands :
      (cs : List Chunk) (c : Chunk) (rank : ℕ) (es : List (Entry numbers))
      → Stands cs es
      → Stands (cs ++ c ∷ []) (upsert numbers c rank es)
  upsert-Stands cs c rank es s = record {
    unique = upsert-IsUnique c rank es s.unique;
    keys = λ k.
        upsert-keys k c rank es
        ∙ rw
            (
              s.keys k,
              chunk_keys-append cs (c ∷ []),
              mem-append k (chunk_keys cs) (chunk_key c ∷ []),
              mem-cons k (chunk_key c) [],
              mem-nothing k,
            )
            (ground arith);
    firsts =
        upsert-firsts cs c rank es
          (λ absent. first_with-none (chunk_key c) cs (sym (s.keys (chunk_key c)) ∙ absent))
          s.firsts;
  }

  pub rank_from-Stands :
      (cs : List Chunk) (rank : ℕ) (ds : List Chunk) (es : List (Entry numbers))
      → Stands cs es
      → Stands (cs ++ ds) (rank_from numbers rank ds es)
  unfolding rank_from
  rank_from-Stands cs rank [] es s = rw (append-nil cs) s
  rank_from-Stands cs rank (d ∷ ds) es s = rw (append_assoc cs (d ∷ []) ds) (
      rank_from-Stands (cs ++ d ∷ []) (suc rank) ds (upsert numbers d rank es)
        (upsert-Stands cs d rank es s))
