-- ===== src/Base/Action.antt =====
-- A Go method that changes a state and may return an error: what was changed before an error stays.
use arcticworks_codepeer.Base.Result.{Result, ok, err}

abbrev pub Action : Type 0 → Type 0 → Type 0 → Type 0
Action S E A = S → Result E A × S

module _ {S E : Type 0} where
  abbrev pub pure : {A : Type 0} → A → Action S E A
  pure a s = (ok a, s)

  abbrev pub fail : {A : Type 0} → E → Action S E A
  fail e s = (err e, s)

  -- What follows a call: nothing after an error.
  abbrev pub resume : {A B : Type 0} → (A → Action S E B) → Result E A × S → Result E B × S
  resume rest (err e, s) = (err e, s)
  resume rest (ok a, s) = rest a s

  infixl 5 ◌>>=◌ ◌>>◌
  abbrev pub ◌>>=◌ : {A B : Type 0} → Action S E A → (A → Action S E B) → Action S E B
  ◌>>=◌ call rest s = resume rest (call s)

  abbrev pub ◌>>◌ : {A B : Type 0} → Action S E A → Action S E B → Action S E B
  call >> next = call >>= λ _. next

  -- A call that cannot fail.
  abbrev pub modify : (S → S) → Action S E (Unit {0})
  modify f s = (ok tt, f s)

  -- A call whose error is logged and forgotten.
  abbrev pub attempt : {A : Type 0} → Action S E A → Action S E (Result E A)
  attempt call s = let (r, s') = call s in (ok r, s')
