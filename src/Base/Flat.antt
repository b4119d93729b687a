-- ===== src/Base/Flat.antt =====
-- Lists and numbers put together over the elements of a list; neither depends on their order, up to
-- the order of what is put together.
use mathlib.Core.Logic.{∥∥₁_elim}
use mathlib.Core.List.{Perm, Permᴰ, Perm-prop, perm_append_comm}
use mathlib.Core.List.Perm
use native.Mathlib.Nat.{ℕ_set}
use arcticworks_codepeer.Base.{
  ℕ, ◌+◌, ◌≡◌, refl, ap, ◌∙◌, subst, List, [], ◌∷◌, ◌++◌, append_assoc, arith,
}

module _ {ℓ κ} {A : Type ℓ} {B : Type κ} (f : A → List B) where
  abbrev pub flat : List A → List B
  flat [] = []
  flat (x ∷ xs) = f x ++ flat xs

  swap_front : (x y : A) (l : List A) → Perm (f x ++ (f y ++ flat l)) (f y ++ (f x ++ flat l))
  swap_front x y l =
      subst (λ k. Perm k (f y ++ (f x ++ flat l))) (append_assoc (f x) (f y) (flat l))
        (subst (λ k. Perm ((f x ++ f y) ++ flat l) k) (append_assoc (f y) (f x) (flat l))
          (Perm.append_right (flat l) (perm_append_comm (f x) (f y))))

  flat-permᴰ : {xs ys : List A} → Permᴰ xs ys → Perm (flat xs) (flat ys)
  flat-permᴰ Permᴰ.nil = Perm.refl []
  flat-permᴰ (Permᴰ.cons {a = a} {b = b} {l₁ = l₁} {l₂ = l₂} e p) =
      subst (λ c. Perm (f a ++ flat l₁) (f c ++ flat l₂)) e (Perm.append_left (f a) (flat-permᴰ p))
  flat-permᴰ (Permᴰ.swap {a = a} {b = b} {b' = b'} {l = l} e d) =
      subst (λ c. Perm (f a ++ (f b ++ flat l)) (f c ++ (f b' ++ flat l))) d
        (subst (λ c. Perm (f a ++ (f b ++ flat l)) (f b ++ (f c ++ flat l))) e (swap_front a b l))
  flat-permᴰ (Permᴰ.trans p q) = Perm.trans (flat-permᴰ p) (flat-permᴰ q)

  pub flat-perm : {xs ys : List A} → Perm xs ys → Perm (flat xs) (flat ys)
  flat-perm p = ∥∥₁_elim p Perm-prop flat-permᴰ

module _ {ℓ} {A : Type ℓ} (f : A → ℕ) where
  abbrev pub sum_of : List A → ℕ
  sum_of [] = 0
  sum_of (x ∷ xs) = f x + sum_of xs

  sum_of-permᴰ : {xs ys : List A} → Permᴰ xs ys → sum_of xs ≡ sum_of ys
  sum_of-permᴰ Permᴰ.nil = refl
  sum_of-permᴰ (Permᴰ.cons e p) = omega (arith, ap f e, sum_of-permᴰ p)
  sum_of-permᴰ (Permᴰ.swap e d) = omega (arith, ap f e, ap f d)
  sum_of-permᴰ (Permᴰ.trans p q) = sum_of-permᴰ p ∙ sum_of-permᴰ q

  pub sum_of-perm : {xs ys : List A} → Perm xs ys → sum_of xs ≡ sum_of ys
  sum_of-perm p = ∥∥₁_elim p (ℕ_set _ _) sum_of-permᴰ
