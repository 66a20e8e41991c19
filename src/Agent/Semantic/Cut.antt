-- ===== src/Agent/Semantic/Cut.antt =====
-- What is left of a text that is cut for the prompt of the semantic check.

use Prim.Native.Char.{Char}
use nl2sql_agent.Common.{
  ℕ, zero, suc, ◌+◌, ◌≤◌, ◌≡◌, refl, ap, String, Option, none, some, [], ◌∷◌, ◌==◌, ◌⊎◌, inl, inr,
  arith, leb, ltb, eq_iff, if_cases, if◌then◌else◌, Bool-cases, Option-cases, concat, prefix, ◌≢◌,
  ◌<◌, sym, ◌∙◌,
}
use nl2sql_agent.Common.Regex.{Unicode, size}
use nl2sql_agent.Agent.Semantic.Prompt.{
  rfind, drop_chars, half, plain_note, boundary_note, cut_at, truncate_at_ddl_boundary,
}

size-prefix : (n : ℕ) (s : String) → size (prefix n s) ≤ n
unfolding size
size-prefix zero s = omega arith
size-prefix (suc n) String.[] = omega arith
size-prefix (suc n) (String.◌∷◌ c s) = omega (arith, size-prefix n s)

size-prefix-le : (n : ℕ) (s : String) → size (prefix n s) ≤ size s
unfolding size
size-prefix-le zero s = omega arith
size-prefix-le (suc n) String.[] = omega arith
size-prefix-le (suc n) (String.◌∷◌ c s) = omega (arith, size-prefix-le n s)

prefix-prefix : (k n : ℕ) (s : String) → k ≤ n → prefix k (prefix n s) ≡ prefix k s
prefix-prefix zero n s h = refl
prefix-prefix (suc k) zero s h = absurd (omega arith)
prefix-prefix (suc k) (suc n) String.[] h = refl
prefix-prefix (suc k) (suc n) (String.◌∷◌ c s) h =
    ap (λ t. String.◌∷◌ c t) (prefix-prefix k n s (omega arith))

-- The token stands at the place that a step of the search gives.
abbrev Within : ℕ → ℕ → String → String → Type 0
Within n i token s = i + size token ≤ n + size s

here-Within :
    (n i : ℕ) (token s : String)
    → (if prefix (size token) s == token then some n else none) ≡ some i
    → Within n i token s
here-Within n i token s h = elim (Bool-cases (prefix (size token) s == token)) [
  | inl same ↦
      let le = size-prefix-le (size token) s in
      let whole = ap size ((eq_iff (prefix (size token) s) token).0 same) in
      let found = rw same at h in let at : n ≡ i = cc in omega (arith, le, whole, at)
  | inr other ↦ let never = rw other at h in absurd (cc)
]

rfind-Within : (n i : ℕ) (token s : String) → rfind n token s ≡ some i → Within n i token s
unfolding rfind size
rfind-Within n i token String.[] h = absurd (cc)
rfind-Within n i token (String.◌∷◌ c s) h = elim (Option-cases (rfind (suc n) token s)) [
  | inl nothing ↦ here-Within n i token (String.◌∷◌ c s) (rw nothing at h)
  | inr (j, later) ↦
      let le = rfind-Within (suc n) j token s later in
      let found = rw later at h in let same : j ≡ i = cc in omega (arith, le, same)
]

-- The token stands at a place of a text.
abbrev pub At : String → String → ℕ → Type 0
At token s j = prefix (size token) (drop_chars j s) ≡ token

prefix-empty : (n : ℕ) → prefix n "" ≡ ""
prefix-empty zero = refl
prefix-empty (suc n) = refl

drop-empty : (n : ℕ) → drop_chars n "" ≡ ""
unfolding drop_chars
drop-empty zero = refl
drop-empty (suc n) = refl

drop-prefix :
    (j k n : ℕ) (s : String)
    → j + k ≤ n
    → prefix k (drop_chars j (prefix n s)) ≡ prefix k (drop_chars j s)
unfolding drop_chars
drop-prefix zero k n s h = prefix-prefix k n s (omega arith)
drop-prefix (suc j) k zero s h = absurd (omega arith)
drop-prefix (suc j) k (suc n) String.[] h = refl
drop-prefix (suc j) k (suc n) (String.◌∷◌ c s) h = drop-prefix j k n s (omega arith)

-- A search that finds nothing finds nothing further on, and nothing here.
none-here :
    (n : ℕ) (c : Char) (token s : String)
    → rfind n token (String.◌∷◌ c s) ≡ none
    → (rfind (suc n) token s ≡ none) × (At token (String.◌∷◌ c s) 0 → ⊥)
unfolding rfind drop_chars
none-here n c token s h = elim (Option-cases (rfind (suc n) token s)) [
  | inl nothing ↦ elim (Bool-cases (prefix (size token) (String.◌∷◌ c s) == token)) [
    | inl here ↦ let found = rw (nothing, here) at h in absurd (cc)
    | inr other ↦ (
      nothing,
      λ at. let same = (eq_iff (prefix (size token) (String.◌∷◌ c s)) token).1 at in absurd (cc),
    )
  ]
  | inr (i, later) ↦ let found = rw later at h in absurd (cc)
]

rfind-none :
    (n : ℕ) (token s : String) → token ≢ "" → rfind n token s ≡ none → (j : ℕ) → At token s j → ⊥
unfolding drop_chars
rfind-none n token String.[] some_token h j at =
    some_token
      (sym (sym (ap (prefix (size token)) (drop-empty j) ∙ prefix-empty (size token)) ∙ at))
rfind-none n token (String.◌∷◌ c s) some_token h zero at = (none-here n c token s h).1 at
rfind-none n token (String.◌∷◌ c s) some_token h (suc j) at =
    rfind-none (suc n) token s some_token (none-here n c token s h).0 j at

-- The place that the search gives, counted from where it began, and none after it.
abbrev IsLast : ℕ → ℕ → String → String → Type 0
IsLast n i token s = (k : ℕ) × (i ≡ n + k) × At token s k × ((j : ℕ) → k < j → At token s j → ⊥)

rfind-IsLast :
    (n i : ℕ) (token s : String) → token ≢ "" → rfind n token s ≡ some i → IsLast n i token s
unfolding rfind drop_chars
rfind-IsLast n i token String.[] some_token h = absurd (cc)
rfind-IsLast n i token (String.◌∷◌ c s) some_token h = elim (Option-cases (rfind (suc n) token s)) [
  | inl nothing ↦ elim (Bool-cases (prefix (size token) (String.◌∷◌ c s) == token)) [
    | inl here ↦
        let found = rw (nothing, here) at h in
        let same : n ≡ i = cc in
        (0, omega (arith, same), (eq_iff _ token).0 here, none_after nothing)
    | inr other ↦ let never = rw (nothing, other) at h in absurd (cc)
  ]
  | inr (j, later) ↦
      let found = rw later at h in
      let same : j ≡ i = cc in
      let (k, place, at, last) = rfind-IsLast (suc n) j token s some_token later in
      (suc k, omega (arith, place, same), at, later_none k last)
]
  where
    none_after : rfind (suc n) token s ≡ none → (j : ℕ) → 0 < j → At token (String.◌∷◌ c s) j → ⊥
    none_after nothing zero less at = absurd (omega arith)
    none_after nothing (suc j) less at = rfind-none (suc n) token s some_token nothing j at

    later_none :
        (k : ℕ)
        → ((j : ℕ) → k < j → At token s j → ⊥)
        → (j : ℕ) → suc k < j
        → At token (String.◌∷◌ c s) j
        → ⊥
    later_none k last zero less at = absurd (omega arith)
    later_none k last (suc j) less at = last j (omega arith) at

-- A place of ");" within the first characters of a text.
abbrev pub Ends : ℕ → String → ℕ → Type 0
Ends max_chars text i = (i + 2 ≤ max_chars) × At ");" text i

-- What is shown of a text: all of it if it is short; its first characters up to the last ");" among
-- them, if that lies in the second half, with the note on it; and otherwise all of the first
-- characters, with the plain note.
abbrev pub IsCut : Unicode → ℕ → String → String → Type 0
IsCut u max_chars text r =
    ((size text ≤ max_chars) × (r ≡ text))
    ⊎ ((max_chars < size text)
        × (((i : ℕ) × (half max_chars < i)
              × Ends max_chars text i
              × ((j : ℕ) → i < j → Ends max_chars text j → ⊥)
              × (r
                  ≡ concat (
                      prefix (i + 2) text
                      ∷ boundary_note u max_chars (drop_chars (i + 2) text)
                      ∷ [])))
            ⊎ (((j : ℕ) → half max_chars < j → Ends max_chars text j → ⊥)
                × (r ≡ concat (prefix max_chars text ∷ plain_note ∷ [])))))

module _ (u : Unicode) (max_chars : ℕ) (text : String) where
  in_window : (j : ℕ) → Ends max_chars text j → At ");" (prefix max_chars text) j
  unfolding size
  in_window j (room, at) = drop-prefix j 2 max_chars text room ∙ at

  cut_at-IsCut :
      (o : Option ℕ)
      → rfind 0 ");" (prefix max_chars text) ≡ o
      → max_chars < size text
      → IsCut u max_chars text (cut_at u max_chars text o)
  unfolding cut_at size
  cut_at-IsCut none found long = inr (
    long,
    inr (
      λ j late ends. rfind-none 0 ");" (prefix max_chars text) (λ h. cc) found j (in_window j ends),
      refl,
    ),
  )
  cut_at-IsCut (some i) found long =
      let (k, place, at, last) = rfind-IsLast 0 i ");" (prefix max_chars text) (λ h. cc) found in
      let within = rfind-Within 0 i ");" (prefix max_chars text) found in
      let few = size-prefix max_chars text in
      let room : i + 2 ≤ max_chars = omega (arith, within, few) in
      let same : k ≡ i = omega (arith, place) in
      let here : At ");" (prefix max_chars text) i = rw (← same) at in
      if_cases (IsCut u max_chars text) (ltb (half max_chars) i) _ _
        (λ late. inr (
          long,
          inl (
            i,
            ground arith,
            (room, sym (drop-prefix i 2 max_chars text room) ∙ here),
            λ j less ends. last j (omega (arith, same, less)) (in_window j ends),
            ap (λ t. concat (t ∷ boundary_note u max_chars (drop_chars (i + 2) text) ∷ []))
                (prefix-prefix (i + 2) max_chars text room),
          ),
        ))
        (λ early. inr (
          long,
          inr (
            λ j late ends.
                last j (let e : i ≤ half max_chars = ground arith in omega (arith, same, late, e))
                  (in_window j ends),
            refl,
          ),
        ))

  -- A schema text of at most `max_chars` characters is shown as it is. Of a longer one, the first
  -- `max_chars` characters are looked at: if the last ");" among them begins after half of
  -- `max_chars`, what is shown is the text up to that ");" and with it, followed by the note that
  -- counts the tables of the rest; if no ");" begins there, it is all of these characters, followed
  -- by the plain note.
  pub truncate-IsCut : IsCut u max_chars text (truncate_at_ddl_boundary u text max_chars)
  unfolding truncate_at_ddl_boundary size
  truncate-IsCut =
      if_cases (IsCut u max_chars text) (leb (size text) max_chars) _ _
        (λ short. inl (ground arith, refl))
        (λ long. cut_at-IsCut (rfind 0 ");" (prefix max_chars text)) refl (ground arith))
