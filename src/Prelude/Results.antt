-- ===== src/Prelude/Results.antt =====
-- Outcomes of calls that may throw, with the error as a parameter.
use mathlib.Core.Bool.{Bool, true, false}
use mathlib.Core.Option.{Option, none, some}
use mathlib.Core.Path.{◌≡◌, refl}

pub data Result (E : Type 0) (A : Type 0) : Type 0 where
  ok : A → Result E A
  err : E → Result E A

-- `if (test) throw e`
abbrev pub throw_if : {E : Type 0} → Bool → E → Result E (Unit {0})
throw_if true e = err e
throw_if false e = ok tt

-- `if (!row) throw e`
abbrev pub or_throw : {E A : Type 0} → Option A → E → Result E A
or_throw none e = err e
or_throw (some a) e = ok a

infixl 5 ◌>>=◌
-- the rest of a body, which a throw skips
abbrev pub ◌>>=◌ : {E A B : Type 0} → Result E A → (A → Result E B) → Result E B
err thrown >>= rest = err thrown
ok value >>= rest = rest value

infixl 5 ◌>>◌
abbrev pub ◌>>◌ : {E B : Type 0} → Result E (Unit {0}) → Result E B → Result E B
check >> rest = check >>= λ _. rest

-- A chain that returns has a first part that returns.
pub >>=-returned :
    {E A B : Type 0} {result : B} (part : Result E A) (rest : A → Result E B)
    → part >>= rest ≡ ok result
    → (value : A) × (part ≡ ok value) × (rest value ≡ ok result)
>>=-returned (err thrown) rest returned = cc
>>=-returned (ok value) rest returned = (value, refl, returned)
