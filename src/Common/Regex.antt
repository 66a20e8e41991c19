-- ===== src/Common/Regex.antt =====
-- Python's `re`, as far as the program uses it: a search by backtracking, with greedy and lazy
-- repetition of one class of characters, word boundaries, beginnings of lines, the end of the text
-- and one group. What a letter and a digit
-- are outside ASCII is an argument.
use Prim.Native.Nat.{ℕ, zero, suc, ◌-◌}
use Prim.Native.Char.{Char, code}
use Prim.Native.String.{String}
use mathlib.Core.Path.{◌≡◌, refl}
use mathlib.Core.Bool.{Bool, true, false, not, ◌&&◌, ◌||◌}
use mathlib.Core.Option
use mathlib.Core.Option.{Option, none, some}
use text.Mathlib.Text.{◌==◌}
use mathlib.Core.List.{List, [], ◌∷◌}
use nl2sql_agent.Common.Tests.{leb, ltb, eqb, if◌then◌else◌}
use nl2sql_agent.Common.Lists.{length}
use nl2sql_agent.Common.Text.{prefix}
use nl2sql_agent.Common.Strings.{is_space}

pub data Regex : Type 0 where
  empty : Regex
  one : (Char → Bool) → Regex
  many : (Char → Bool) → Regex
  lazy : (Char → Bool) → Regex
  optional : (Char → Bool) → Regex
  boundary : Regex
  line_start : Regex
  ending : Regex
  seq : Regex → Regex → Regex
  alt : Regex → Regex → Regex
  group : Regex → Regex

-- The character before the position, the text from there on, and what the group took.
pub record Cursor : Type 0 where
  pub before : Option Char
  pub rest : String
  pub taken : Option String

unfoldable pub size : String → ℕ
size String.[] = 0
size (String.◌∷◌ c s) = suc (size s)

-- The characters outside ASCII that are letters or digits.
pub record Unicode : Type 0 where
  pub letter : Char → Bool
  pub digit : Char → Bool

abbrev ascii_digit : ℕ → Bool
ascii_digit c = leb 48 c && leb c 57

abbrev ascii_word : ℕ → Bool
ascii_word c = ascii_digit c || (leb 65 c && leb c 90) || (leb 97 c && leb c 122) || eqb c 95

-- `or` on two searches, the second one only if the first finds nothing.
abbrev pub or_else {ℓ} : {A : Type ℓ} → Option A → Option A → Option A
or_else none b = b
or_else (some a) b = some a

module _ (u : Unicode) where
  -- `\w`, `\d` and `.`
  unfoldable pub is_word : Char → Bool
  is_word c = if ltb (code c) 128 then ascii_word (code c) else u.letter c || u.digit c

  unfoldable pub is_digit : Char → Bool
  is_digit c = if ltb (code c) 128 then ascii_digit (code c) else u.digit c

  unfoldable pub any_char : Char → Bool
  any_char c = not (eqb (code c) 10)

  abbrev word_at : Option Char → Bool
  word_at none = false
  word_at (some c) = is_word c

  abbrev first : String → Option Char
  first String.[] = none
  first (String.◌∷◌ c s) = some c

  abbrev differ : Bool → Bool → Bool
  differ true b = not b
  differ false b = b

  -- `^` under `re.MULTILINE`
  abbrev starts_line : Option Char → Bool
  starts_line none = true
  starts_line (some c) = eqb (code c) 10

  step :
      (Char → Bool)
      → (Cursor → Option Cursor)
      → Option String
      → Option Char
      → String
      → Option Cursor
  step p k t b String.[] = none
  step p k t b (String.◌∷◌ c s) =
      if p c then k (record { before = some c; rest = s; taken = t }) else none

  -- As many characters as the rest of the search allows, and as few.
  repeat :
      (Char → Bool)
      → (Cursor → Option Cursor)
      → Option String
      → Option Char
      → String
      → Option Cursor
  repeat p k t b String.[] = k (record { before = b; rest = ""; taken = t })
  repeat p k t b (String.◌∷◌ c s) =
      let more =
        or_else (repeat p k t (some c) s)
          (k (record { before = b; rest = String.◌∷◌ c s; taken = t })) in
      let stop = k (record { before = b; rest = String.◌∷◌ c s; taken = t }) in
      if p c then more else stop

  hold :
      (Char → Bool)
      → (Cursor → Option Cursor)
      → Option String
      → Option Char
      → String
      → Option Cursor
  hold p k t b String.[] = k (record { before = b; rest = ""; taken = t })
  hold p k t b (String.◌∷◌ c s) =
      let more = hold p k t (some c) s in
      or_else (k (record { before = b; rest = String.◌∷◌ c s; taken = t }))
        (if p c then more else none)

  run : Regex → (Cursor → Option Cursor) → Cursor → Option Cursor
  unfolding step repeat hold size
  run empty k s = k s
  run (one p) k s = step p k s.taken s.before s.rest
  run (many p) k s = repeat p k s.taken s.before s.rest
  run (lazy p) k s = hold p k s.taken s.before s.rest
  run (optional p) k s = or_else (step p k s.taken s.before s.rest) (k s)
  run boundary k s = if differ (word_at s.before) (word_at (first s.rest)) then k s else none
  run line_start k s = if starts_line s.before then k s else none
  run ending k s = if s.rest == "" || s.rest == "\n" then k s else none
  run (seq a b) k s = run a (run b k) s
  run (alt a b) k s = or_else (run a k s) (run b k s)
  run (group a) k s =
      run a (λ e. k (record e { taken = some (prefix (size s.rest - size e.rest) s.rest) })) s

  -- `re.search`, after a character.
  search_from : Regex → Option Char → String → Option Cursor
  unfolding run
  search_from r b String.[] = run r (λ e. some e) (record { before = b; rest = ""; taken = none })
  search_from r b (String.◌∷◌ c s) =
      let later = search_from r (some c) s in
      or_else (run r (λ e. some e) (record { before = b; rest = String.◌∷◌ c s; taken = none }))
        later

  unfoldable pub search_for : Regex → String → Option Cursor
  unfolding search_from
  search_for r s = search_from r none s

  -- `re.match`, after a character.
  unfoldable pub match_at : Regex → Option Char → String → Option Cursor
  unfolding run
  match_at r b s = run r (λ e. some e) (record { before = b; rest = s; taken = none })

  -- `re.findall`, the ends of the matches of an expression that takes at least one character, so
  -- that there are at most as many as characters.
  find_from : ℕ → Regex → Option Char → String → List Cursor
  unfolding search_from
  find_from zero r b s = []
  find_from (suc n) r b s = elim (search_from r b s) [
    | none ↦ []
    | some e ↦ e ∷ find_from n r e.before e.rest
  ]

  unfoldable pub find_all : Regex → String → List Cursor
  unfolding find_from
  find_all r s = find_from (size s) r none s

abbrev pub char_is : ℕ → Char → Bool
char_is n c = eqb (code c) n

abbrev pub literal : String → Regex
literal String.[] = empty
literal (String.◌∷◌ c s) = seq (one (char_is (code c))) (literal s)

abbrev pub some_of : (Char → Bool) → Regex
some_of p = seq (one p) (many p)

abbrev pub one_of : List String → Regex
one_of [] = one (λ _. false)
one_of (w ∷ []) = literal w
one_of (w ∷ v ∷ ws) = alt (literal w) (one_of (v ∷ ws))

abbrev pub ascii_only : Unicode
ascii_only = record { letter = λ _. false; digit = λ _. false }

-- `top\s+(\d+)` in a text, and the matches of `"([^"]+)"`.
tests :
    (Option.map
        (λ (e : Cursor). e.taken)
        (search_for ascii_only
          (seq boundary
            (seq (literal "top") (seq (some_of is_space) (group (some_of (is_digit ascii_only))))))
          "stop 3 top 12b")
      ≡ some (some "12"))
    × (length (
          find_all ascii_only
            (seq (literal "\"") (seq (group (some_of (λ c. not (char_is 34 c)))) (literal "\"")))
            "a \"b\" \"c\" \"")
        ≡ 2)
unfolding search_for find_all is_digit is_space is_word
tests = (refl, refl)

-- A letter in either case, for `re.IGNORECASE`; the expression is written in lower case.
abbrev same_letter : ℕ → Char → Bool
same_letter c d = eqb (code d) c || (leb 97 c && leb c 122 && eqb (code d) (c - 32))

abbrev pub no_case : String → Regex
no_case String.[] = empty
no_case (String.◌∷◌ c s) = seq (one (same_letter (code c))) (no_case s)

-- `.` under `re.DOTALL`
abbrev pub anything : Char → Bool
anything c = true
