-- ===== src/Common/Strings.antt =====
-- What the program uses of Python's `str`, on the native `String`. Only the letters of ASCII have
-- case here; the white space is that of `str.isspace`.
use Prim.Native.Nat.{ℕ, zero, suc, ◌-◌}
use Prim.Native.Char.{Char, code}
use Prim.Native.String
use Prim.Native.String.{String}
use mathlib.Core.Path.{◌≡◌, refl}
use mathlib.Core.Bool.{Bool, ◌&&◌, ◌||◌}
use mathlib.Core.Option.{Option, none, some}
use mathlib.Core.List.{List, [], ◌∷◌}
use text.Mathlib.Text.{◌==◌, starts_with}
use nl2sql_agent.Common.Tests.{leb, eqb, if◌then◌else◌}
use nl2sql_agent.Common.Lists.{any}

abbrev one : Char → String
one c = String.◌∷◌ c ""

-- `c.isspace()`
unfoldable pub is_space : Char → Bool
is_space ch =
    let c = code ch in
    (leb 9 c && leb c 13)
    || (leb 28 c && leb c 32)
    || eqb c 0x85
    || eqb c 0xA0
    || eqb c 0x1680
    || (leb 0x2000 c && leb c 0x200A)
    || eqb c 0x2028
    || eqb c 0x2029
    || eqb c 0x202F
    || eqb c 0x205F
    || eqb c 0x3000

-- The letter at an index of an alphabet, or `c` past its end.
letter_at : Char → String → ℕ → Char
letter_at c String.[] n = c
letter_at c (String.◌∷◌ l ls) zero = l
letter_at c (String.◌∷◌ l ls) (suc n) = letter_at c ls n

upper_char : Char → Char
unfolding letter_at
upper_char c =
    if leb 97 (code c) && leb (code c) 122
    then letter_at c "ABCDEFGHIJKLMNOPQRSTUVWXYZ" (code c - 97)
    else c

lower_char : Char → Char
unfolding letter_at
lower_char c =
    if leb 65 (code c) && leb (code c) 90
    then letter_at c "abcdefghijklmnopqrstuvwxyz" (code c - 65)
    else c

-- `s.upper()` and `s.lower()`
unfoldable pub upper : String → String
unfolding upper_char
upper String.[] = ""
upper (String.◌∷◌ c s) = String.◌∷◌ (upper_char c) (upper s)

unfoldable pub lower : String → String
unfolding lower_char
lower String.[] = ""
lower (String.◌∷◌ c s) = String.◌∷◌ (lower_char c) (lower s)

-- `t in s`
unfoldable pub contains : String → String → Bool
contains String.[] t = t == ""
contains (String.◌∷◌ c s) t = starts_with (String.◌∷◌ c s) t || contains s t

-- `s.lstrip()`, `s.rstrip()` and `s.strip()`
unfoldable pub lstrip : String → String
unfolding is_space
lstrip String.[] = ""
lstrip (String.◌∷◌ c s) = let rest = lstrip s in if is_space c then rest else String.◌∷◌ c s

unfoldable pub rstrip : String → String
unfolding is_space
rstrip String.[] = ""
rstrip (String.◌∷◌ c s) =
    let rest = rstrip s in if is_space c && rest == "" then "" else String.◌∷◌ c rest

unfoldable pub strip : String → String
unfolding lstrip rstrip
strip s = rstrip (lstrip s)

-- `s.split(sep)` at one code point, after the piece that was read so far.
split_from : ℕ → String → String → List String
split_from sep piece String.[] = piece ∷ []
split_from sep piece (String.◌∷◌ c s) =
    let closed = split_from sep "" s in
    let longer = split_from sep (String.◌++◌ piece (one c)) s in
    if eqb (code c) sep then piece ∷ closed else longer

unfoldable pub split : ℕ → String → List String
unfolding split_from
split sep s = split_from sep "" s

-- `s.split()`: the words between white space.
words_from : String → String → List String
unfolding is_space
words_from word String.[] = if word == "" then [] else word ∷ []
words_from word (String.◌∷◌ c s) =
    let closed = words_from "" s in
    let longer = words_from (String.◌++◌ word (one c)) s in
    if is_space c then (if word == "" then closed else word ∷ closed) else longer

unfoldable pub words : String → List String
unfolding words_from
words s = words_from "" s

-- `s in collection`
unfoldable pub mem_text : String → List String → Bool
mem_text s ts = any (λ t. s == t) ts

tests :
    (upper "Select 1é" ≡ "SELECT 1é")
    × (contains "abc" "bc" ≡ Bool.true)
    × (strip "  a b " ≡ "a b")
    × (split b';' "a;;b" ≡ "a" ∷ "" ∷ "b" ∷ [])
    × (words " a  bc " ≡ "a" ∷ "bc" ∷ [])
unfolding upper contains strip split words
tests = (refl, refl, refl, refl, refl)

abbrev pub is_in : Char → String → Bool
is_in c String.[] = Bool.false
is_in c (String.◌∷◌ d s) = eqb (code c) (code d) || is_in c s

-- `s.rstrip(chars)` and `s.lstrip(chars)`
unfoldable pub rstrip_of : String → String → String
rstrip_of chars String.[] = ""
rstrip_of chars (String.◌∷◌ c s) =
    let rest = rstrip_of chars s in if is_in c chars && rest == "" then "" else String.◌∷◌ c rest

unfoldable pub lstrip_of : String → String → String
lstrip_of chars String.[] = ""
lstrip_of chars (String.◌∷◌ c s) =
    let rest = lstrip_of chars s in if is_in c chars then rest else String.◌∷◌ c s

-- The text without a prefix.
abbrev cut : String → String → Option String
cut String.[] s = some s
cut (String.◌∷◌ c p) String.[] = none
cut (String.◌∷◌ c p) (String.◌∷◌ d s) = if eqb (code c) (code d) then cut p s else none

-- `s.split(sep)[-1]`, for a separator that does not overlap with itself.
after_from : String → String → String → String
after_from sep best String.[] = best
after_from sep best (String.◌∷◌ c s) =
    after_from sep (elim (cut sep (String.◌∷◌ c s)) [ none ↦ best | some r ↦ r ]) s

unfoldable pub after_last : String → String → String
unfolding after_from
after_last sep s = after_from sep s s

strip_tests :
    (rstrip_of ".;" "a.b;." ≡ "a.b")
    × (lstrip_of " '" "' a'" ≡ "a'")
    × (after_last "x:" "ax:bx: c" ≡ " c")
    × (after_last "x:" "abc" ≡ "abc")
unfolding rstrip_of lstrip_of after_last
strip_tests = (refl, refl, refl, refl)
