-- ===== src/Base/Result.antt =====
-- A Go result `(value, error)`: the value is used only where the error is nil.
use arcticworks_codepeer.Base.{◌≡◌, refl}

pub data Result {ℓ} (E : Type ℓ) (A : Type ℓ) : Type ℓ where
  err : E → Result E A
  ok : A → Result E A

infixl 5 ◌>>=◌
-- `if err != nil { return err }`, and then the rest
abbrev pub ◌>>=◌ {ℓ} : {E A B : Type ℓ} → Result E A → (A → Result E B) → Result E B
err failure >>= rest = err failure
ok value >>= rest = rest value

-- A step that succeeded has a value, and so has the rest.
pub >>=-eq-ok {ℓ} :
    {E A B : Type ℓ} (step : Result E A) (rest : A → Result E B) {b : B}
    → (step >>= rest) ≡ ok b
    → (a : A) × (step ≡ ok a) × (rest a ≡ ok b)
>>=-eq-ok (err failure) rest h = cc
>>=-eq-ok (ok value) rest h = (value, refl, h)
