-- ===== src/Common/Result.antt =====
-- The outcome of code that may raise; the exception is kept as its text.
use mathlib.Core.Path.{◌≡◌, refl}
use Prim.Native.String.{String}

pub data Result {ℓ} (A : Type ℓ) : Type ℓ where
  ok : A → Result A
  raised : String → Result A

pub ok-injective {ℓ} : {A : Type ℓ} {a b : A} → ok a ≡ ok b → a ≡ b
ok-injective h = cc

-- What a step gives goes to the rest of the code, which an exception skips.
infixl 5 ◌>>=◌
abbrev pub ◌>>=◌ {ℓ₁ ℓ₂} : {A : Type ℓ₁} {B : Type ℓ₂} → Result A → (A → Result B) → Result B
raised text >>= rest = raised text
ok value >>= rest = rest value

-- Code that ends well went well in its first step and in the rest.
pub >>=-eq-ok {ℓ₁ ℓ₂} :
    {A : Type ℓ₁} (first : Result A) {B : Type ℓ₂} (rest : A → Result B) {out : B}
    → (first >>= rest) ≡ ok out
    → (value : A) × (first ≡ ok value) × (rest value ≡ ok out)
>>=-eq-ok (raised text) rest h = cc
>>=-eq-ok (ok value) rest h = (value, refl, h)
