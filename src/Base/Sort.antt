-- ===== src/Base/Sort.antt =====
-- `sort.SliceStable`: of all sorts that keep equal elements in their order there is one result, so
-- stable insertion stands for the library's merge of blocks.
use mathlib.Core.List.{Perm}
use mathlib.Core.List.Perm
use arcticworks_codepeer.Base.{
  ◌≡◌, refl, ◌∙◌, Bool, true, false, inl, inr, List, [], ◌∷◌, arith, if◌then◌else◌, Bool-cases, All,
  Pairs, filter,
}

module _ {ℓ} {A : Type ℓ} (less : A → A → Bool) where
  -- `x` goes before the first element that is not below it.
  unfoldable pub insert : A → List A → List A
  insert x [] = x ∷ []
  insert x (y ∷ ys) = let rest = insert x ys in if less y x then y ∷ rest else x ∷ y ∷ ys

  unfoldable pub sort_stable : List A → List A
  unfolding insert
  sort_stable [] = []
  sort_stable (x ∷ xs) = insert x (sort_stable xs)

  -- No later element is below an earlier one.
  abbrev pub IsSorted : List A → Type 0
  IsSorted = Pairs (λ a b. less b a ≡ false)

  insert-perm : (x : A) (ys : List A) → Perm (insert x ys) (x ∷ ys)
  unfolding insert
  insert-perm x [] = Perm.refl (x ∷ [])
  insert-perm x (y ∷ ys) = elim (Bool-cases (less y x)) [
    | inl e ↦ rw e (Perm.trans (Perm.cons y (insert-perm x ys)) (Perm.swap x y ys))
    | inr e ↦ rw e (Perm.refl (x ∷ y ∷ ys))
  ]

  pub sort_stable-perm : (xs : List A) → Perm (sort_stable xs) xs
  unfolding sort_stable
  sort_stable-perm [] = Perm.refl []
  sort_stable-perm (x ∷ xs) =
      Perm.trans (insert-perm x (sort_stable xs)) (Perm.cons x (sort_stable-perm xs))

  module _ {κ} (P : A → Type κ) where
    insert-All : (x : A) (ys : List A) → P x → All P ys → All P (insert x ys)
    unfolding insert
    insert-All x [] p h = (p, tt)
    insert-All x (y ∷ ys) p h = elim (Bool-cases (less y x)) [
      | inl e ↦ rw e (h.0, insert-All x ys p h.1)
      | inr e ↦ rw e (p, h)
    ]

    pub sort_stable-All : (xs : List A) → All P xs → All P (sort_stable xs)
    unfolding sort_stable
    sort_stable-All [] h = h
    sort_stable-All (x ∷ xs) h = insert-All x (sort_stable xs) h.0 (sort_stable-All xs h.1)

  -- Elements that the order does not tell apart keep their order.
  module _ (p : A → Bool) (same : (a b : A) → p a ≡ true → p b ≡ true → less a b ≡ false) where
    filter-insert : (x : A) (ys : List A) → filter p (insert x ys) ≡ filter p (x ∷ ys)
    unfolding insert
    filter-insert x [] = refl
    filter-insert x (y ∷ ys) = ground (arith, filter-insert x ys, same y x)

    pub filter-sort_stable : (xs : List A) → filter p (sort_stable xs) ≡ filter p xs
    unfolding sort_stable
    filter-sort_stable [] = refl
    filter-sort_stable (x ∷ xs) =
        filter-insert x (sort_stable xs) ∙ ground (arith, filter-sort_stable xs)

  -- What the standard library asks of `less`: a strict weak order.
  module _ (asymm : (a b : A) → less a b ≡ true → less b a ≡ false)
      (negtrans : (a b c : A) → less b a ≡ false → less c b ≡ false → less c a ≡ false) where
    above-All :
        (x y : A) (ys : List A)
        → less y x ≡ false
        → All (λ b. less b y ≡ false) ys
        → All (λ b. less b x ≡ false) ys
    above-All x y [] e h = tt
    above-All x y (z ∷ ys) e h = (negtrans x y z e h.0, above-All x y ys e h.1)

    insert-IsSorted : (x : A) (ys : List A) → IsSorted ys → IsSorted (insert x ys)
    unfolding insert
    insert-IsSorted x [] h = (tt, tt)
    insert-IsSorted x (y ∷ ys) h = elim (Bool-cases (less y x)) [
      | inl e ↦
          rw e (insert-All (λ b. less b y ≡ false) x ys (asymm y x e) h.0, insert-IsSorted x ys h.1)
      | inr e ↦ rw e ((e, above-All x y ys e h.0), h)
    ]

    pub sort_stable-IsSorted : (xs : List A) → IsSorted (sort_stable xs)
    unfolding sort_stable
    sort_stable-IsSorted [] = tt
    sort_stable-IsSorted (x ∷ xs) = insert-IsSorted x (sort_stable xs) (sort_stable-IsSorted xs)
