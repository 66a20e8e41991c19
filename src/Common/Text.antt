-- ===== src/Common/Text.antt =====
-- Texts: Python's `str` is the native `String`, a list of code points.
use mathlib.Core.Logic.{inl, inr}
use nl2sql_agent.Common.Tests.{Bool-cases}
use text.Mathlib.TextEquality.{eq_iff}
use text.Mathlib.TextLemmas.{cons-append}
use Prim.Native.Nat.{ℕ, zero, suc, ◌/◌, ◌%◌}
use mathlib.Core.Path.{◌≡◌, refl, ap}
use Prim.Native.Char.{code}
use Prim.Native.String
use Prim.Native.String.{String}
use mathlib.Core.Bool.{Bool, not, true, false}
use mathlib.Core.List.{List, [], ◌∷◌}
use text.Mathlib.Text.{◌==◌}

-- `bool(s)`
abbrev pub truthy : String → Bool
truthy s = not (s == "")

-- `s[:n]`
abbrev pub prefix : ℕ → String → String
prefix zero s = ""
prefix (suc n) String.[] = ""
prefix (suc n) (String.◌∷◌ c s) = String.◌∷◌ c (prefix n s)

-- The code points of a text.
abbrev pub codes : String → List ℕ
codes String.[] = []
codes (String.◌∷◌ c s) = code c ∷ codes s

-- `sep.join(parts)`
abbrev pub join : String → List String → String
join sep [] = ""
join sep (p ∷ []) = p
join sep (p ∷ q ∷ ps) = String.◌++◌ p (String.◌++◌ sep (join sep (q ∷ ps)))

-- An f-string, as the list of its pieces.
abbrev pub concat : List String → String
concat [] = ""
concat (p ∷ ps) = String.◌++◌ p (concat ps)

digit_text : ℕ → String
digit_text zero = "0"
digit_text (suc zero) = "1"
digit_text (suc (suc zero)) = "2"
digit_text (suc (suc (suc zero))) = "3"
digit_text (suc (suc (suc (suc zero)))) = "4"
digit_text (suc (suc (suc (suc (suc zero))))) = "5"
digit_text (suc (suc (suc (suc (suc (suc zero)))))) = "6"
digit_text (suc (suc (suc (suc (suc (suc (suc zero))))))) = "7"
digit_text (suc (suc (suc (suc (suc (suc (suc (suc zero)))))))) = "8"
digit_text _ = "9"

-- `str(n)`: the decimal digits; a number has at most as many digits as its value plus one.
decimal_from : ℕ → ℕ → String → String
decimal_from zero n rest = rest
decimal_from (suc fuel) n rest =
    let more = decimal_from fuel (n / 10) (String.◌++◌ (digit_text (n % 10)) rest) in
    elim (n / 10) [ zero ↦ String.◌++◌ (digit_text (n % 10)) rest | suc _ ↦ more ]

unfoldable pub str : ℕ → String
unfolding decimal_from digit_text
str n = decimal_from (suc n) n ""

str_example : (str 0 ≡ "0") × (str 907 ≡ "907")
unfolding str
str_example = (refl, refl)

newline_example : codes "a\nb" ≡ 97 ∷ 10 ∷ 98 ∷ []
newline_example = refl

abbrev has_char : String → Bool
has_char String.[] = false
has_char (String.◌∷◌ c s) = true

truthy-cons : (s : String) → has_char s ≡ true → truthy s ≡ true
truthy-cons s h = elim (Bool-cases (s == "")) [
  | inl empty ↦ absurd (cc (h, ap has_char ((eq_iff s "").0 empty)))
  | inr filled ↦ rw filled
]

pub truthy-append : (s t : String) → truthy s ≡ true → truthy (String.◌++◌ s t) ≡ true
truthy-append String.[] t h = absurd (cc)
truthy-append (String.◌∷◌ c s) t h =
    rw cons-append (truthy-cons (String.◌∷◌ c (String.◌++◌ s t)) refl)
