-- ===== src/Base/Lists.antt =====
-- Lists measured and indexed by native numbers, under the library's names, and predicates on lists.
use Prim.Native.Nat.{ℕ, zero, suc, ◌+◌, ◌≤◌, min}
use mathlib.Core.Path.{◌≡◌, refl, subst, sym}
use mathlib.Core.Logic.{inl, inr}
use mathlib.Core.Bool.{Bool, true, false, ◌||◌}
use mathlib.Core.List.{List, [], ◌∷◌, ◌++◌, map, Memᴰ}
use mathlib.Core.Option.{Option, none, some}
use native.Mathlib.Omega.{arith}
use arcticworks_codepeer.Base.Tests.{if◌then◌else◌, Bool-cases}

module _ {ℓ} {A : Type ℓ} where
  abbrev pub length : List A → ℕ
  length [] = 0
  length (x ∷ xs) = suc (length xs)

  abbrev pub get_elem? : List A → ℕ → Option A
  get_elem? [] i = none
  get_elem? (x ∷ xs) zero = some x
  get_elem? (x ∷ xs) (suc i) = get_elem? xs i

  -- A write out of bounds changes nothing.
  abbrev pub set : List A → ℕ → A → List A
  set [] i v = []
  set (x ∷ xs) zero v = v ∷ xs
  set (x ∷ xs) (suc i) v = x ∷ set xs i v

  abbrev pub take : ℕ → List A → List A
  take zero xs = []
  take (suc n) [] = []
  take (suc n) (x ∷ xs) = x ∷ take n xs

  abbrev pub drop : ℕ → List A → List A
  drop zero xs = xs
  drop (suc n) [] = []
  drop (suc n) (x ∷ xs) = drop n xs

  -- The elements that a Boolean test keeps, in their order.
  abbrev pub filter : (A → Bool) → List A → List A
  filter p [] = []
  filter p (x ∷ xs) = let rest = filter p xs in if p x then x ∷ rest else rest

  abbrev pub is_nil : List A → Bool
  is_nil [] = true
  is_nil (x ∷ xs) = false

  abbrev pub any : (A → Bool) → List A → Bool
  any p [] = false
  any p (x ∷ xs) = p x || any p xs

  -- A predicate of every element, by recursion.
  abbrev pub All {κ} : (A → Type κ) → List A → Type κ
  All P [] = Unit
  All P (x ∷ xs) = P x × All P xs

  -- A relation of every element to every later one.
  abbrev pub Pairs {κ} : (A → A → Type κ) → List A → Type κ
  Pairs R [] = Unit
  Pairs R (x ∷ xs) = All (R x) xs × Pairs R xs

module _ {ℓ} {A : Type ℓ} where
  pub length-append : (xs ys : List A) → length (xs ++ ys) ≡ length xs + length ys
  length-append [] ys = omega arith
  length-append (x ∷ xs) ys = omega (arith, length-append xs ys)

  pub length-take : (n : ℕ) (xs : List A) → length (take n xs) ≡ min n (length xs)
  length-take zero xs = omega arith
  length-take (suc n) [] = omega arith
  length-take (suc n) (x ∷ xs) = omega (arith, length-take n xs)

  pub drop-eq-nil : (n : ℕ) (xs : List A) → length xs ≤ n → drop n xs ≡ []
  drop-eq-nil zero [] h = refl
  drop-eq-nil zero (x ∷ xs) h = absurd (omega arith)
  drop-eq-nil (suc n) [] h = refl
  drop-eq-nil (suc n) (x ∷ xs) h = drop-eq-nil n xs (omega arith)

  pub length-filter-le : (p : A → Bool) (xs : List A) → length (filter p xs) ≤ length xs
  length-filter-le p [] = omega arith
  length-filter-le p (x ∷ xs) = ground (arith, length-filter-le p xs)

module _ {ℓ κ} {A : Type ℓ} (P : A → Type κ) where
  pub All-append : (xs ys : List A) → All P xs → All P ys → All P (xs ++ ys)
  All-append [] ys hx hy = hy
  All-append (x ∷ xs) ys hx hy = (hx.0, All-append xs ys hx.1 hy)

  -- The element in the middle, the others, and another element in its place.
  pub All-here : (xs : List A) (y : A) (ys : List A) → All P (xs ++ y ∷ ys) → P y
  All-here [] y ys h = h.0
  All-here (x ∷ xs) y ys h = All-here xs y ys h.1

  pub All-around : (xs : List A) (y : A) (ys : List A) → All P (xs ++ y ∷ ys) → All P (xs ++ ys)
  All-around [] y ys h = h.1
  All-around (x ∷ xs) y ys h = (h.0, All-around xs y ys h.1)

  pub All-replace :
      (xs : List A) (y z : A) (ys : List A)
      → (P y → P z)
      → All P (xs ++ y ∷ ys)
      → All P (xs ++ z ∷ ys)
  All-replace [] y z ys k h = (k h.0, h.1)
  All-replace (x ∷ xs) y z ys k h = (h.0, All-replace xs y z ys k h.1)

  pub All-filter : (p : A → Bool) (xs : List A) → All P xs → All P (filter p xs)
  All-filter p [] h = h
  All-filter p (x ∷ xs) h = elim (Bool-cases (p x)) [
    | inl e ↦ rw e (h.0, All-filter p xs h.1)
    | inr e ↦ rw e (All-filter p xs h.1)
  ]

  pub All-take : (n : ℕ) (xs : List A) → All P xs → All P (take n xs)
  All-take zero xs h = tt
  All-take (suc n) [] h = tt
  All-take (suc n) (x ∷ xs) h = (h.0, All-take n xs h.1)

  pub All-drop : (n : ℕ) (xs : List A) → All P xs → All P (drop n xs)
  All-drop zero xs h = h
  All-drop (suc n) [] h = tt
  All-drop (suc n) (x ∷ xs) h = All-drop n xs h.1

  -- What holds of each element of the empty rest holds for nothing.
  pub All-trivial : (xs : List A) → ((a : A) → P a) → All P xs
  All-trivial [] f = tt
  All-trivial (x ∷ xs) f = (f x, All-trivial xs f)

  pub All-mem : {a : A} (xs : List A) → All P xs → Memᴰ a xs → P a
  All-mem [] h m = elim m [ ]
  All-mem (x ∷ xs) h (Memᴰ.head e) = subst P (sym e) h.0
  All-mem (x ∷ xs) h (Memᴰ.tail m) = All-mem xs h.1 m

module _ {ℓ κ} {A : Type ℓ} (R : A → A → Type κ) where
  pub Pairs-filter : (p : A → Bool) (xs : List A) → Pairs R xs → Pairs R (filter p xs)
  Pairs-filter p [] h = h
  Pairs-filter p (x ∷ xs) h = elim (Bool-cases (p x)) [
    | inl e ↦ rw e (All-filter (R x) p xs h.0, Pairs-filter p xs h.1)
    | inr e ↦ rw e (Pairs-filter p xs h.1)
  ]

  pub Pairs-around :
      (xs : List A) (y : A) (ys : List A) → Pairs R (xs ++ y ∷ ys) → Pairs R (xs ++ ys)
  Pairs-around [] y ys h = h.1
  Pairs-around (x ∷ xs) y ys h = (All-around (R x) xs y ys h.0, Pairs-around xs y ys h.1)

  pub Pairs-others :
      (xs : List A) (y : A) (ys : List A)
      → ((a b : A) → R a b → R b a)
      → Pairs R (xs ++ y ∷ ys)
      → All (R y) (xs ++ ys)
  Pairs-others [] y ys sym h = h.0
  Pairs-others (x ∷ xs) y ys sym h =
      (sym x y (All-here (R x) xs y ys h.0), Pairs-others xs y ys sym h.1)

  pub Pairs-replace :
      (xs : List A) (y z : A) (ys : List A)
      → ((a : A) → R a y → R a z)
      → ((a : A) → R y a → R z a)
      → Pairs R (xs ++ y ∷ ys)
      → Pairs R (xs ++ z ∷ ys)
  Pairs-replace [] y z ys k l h = (later ys h.0, h.1)
    where
      later : (bs : List A) → All (R y) bs → All (R z) bs
      later [] r = tt
      later (b ∷ bs) r = (l b r.0, later bs r.1)
  Pairs-replace (x ∷ xs) y z ys k l h =
      (All-replace (R x) xs y z ys (k x) h.0, Pairs-replace xs y z ys k l h.1)

  pub Pairs-take : (n : ℕ) (xs : List A) → Pairs R xs → Pairs R (take n xs)
  Pairs-take zero xs h = tt
  Pairs-take (suc n) [] h = tt
  Pairs-take (suc n) (x ∷ xs) h = (All-take (R x) n xs h.0, Pairs-take n xs h.1)

-- A value that is there goes in front.
abbrev pub cons_some {ℓ} : {A : Type ℓ} → Option A → List A → List A
cons_some none xs = xs
cons_some (some a) xs = a ∷ xs

pub All-cons_some {ℓ κ} :
    {A : Type ℓ} (P : A → Type κ) (o : Option A) (xs : List A)
    → ((a : A) → o ≡ some a → P a)
    → All P xs
    → All P (cons_some o xs)
All-cons_some P none xs f h = h
All-cons_some P (some a) xs f h = (f a refl, h)

-- Every element of a list is one of it.
module _ {ℓ} {A : Type ℓ} where
  pub All-weaken {κ μ} :
      (P : A → Type κ) (Q : A → Type μ)
      → ((a : A) → P a → Q a)
      → (xs : List A) → All P xs
      → All Q xs
  All-weaken P Q f [] h = tt
  All-weaken P Q f (x ∷ xs) h = (f x h.0, All-weaken P Q f xs h.1)

  pub All-members : (xs : List A) → All (λ a. Memᴰ a xs) xs
  All-members [] = tt
  All-members (x ∷ xs) = (
    Memᴰ.head refl,
    All-weaken (λ a. Memᴰ a xs) (λ a. Memᴰ a (x ∷ xs)) (λ a m. Memᴰ.tail m) xs (All-members xs),
  )

-- The first element that passes the test.
abbrev pub find {ℓ} : {A : Type ℓ} → (A → Bool) → List A → Option A
find p [] = none
find p (x ∷ xs) = let rest = find p xs in if p x then some x else rest

pub length-map {ℓ κ} :
    {A : Type ℓ} {B : Type κ} (f : A → B) (xs : List A) → length (map f xs) ≡ length xs
length-map f [] = refl
length-map f (x ∷ xs) = omega (arith, length-map f xs)
