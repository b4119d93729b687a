-- ===== src/Store/Weights.antt =====
-- The weight of a learning adds up.
use arcticworks_codepeer.Base.{
  ℕ, ◌≡◌, ◌≢◌, refl, String, Bool, true, false, Option, none, some, inl, inr, List, [], ◌∷◌, ◌++◌,
  arith, Bool-cases, str_eq_iff, any, find, ◌==◌, ℤ, pos, negsuc, ◌+ℤ◌,
}
use arcticworks_codepeer.Base.Result.{ok}
use arcticworks_codepeer.Domain.{Repo}
use arcticworks_codepeer.Store.{Store, Learning, update_rows}
use arcticworks_codepeer.Store.Learnings.{is_learning, upsert_learning}

abbrev weight_or_zero : Option Learning → ℤ
weight_or_zero none = pos 0
weight_or_zero (some l) = l.weight

-- The weight of a key under a signal, zero where there is no row.
abbrev weight_in : ℕ → String → String → List Learning → ℤ
weight_in repo_id key signal ls = weight_or_zero (find (is_learning repo_id key signal) ls)

abbrev pub weight_of : ℕ → String → String → Store → ℤ
weight_of repo_id key signal s = weight_in repo_id key signal s.learnings

zero_plus : (z : ℤ) → pos 0 +ℤ z ≡ z
unfolding ◌+ℤ◌
zero_plus (pos n) = ground arith
zero_plus (negsuc n) = ground arith

abbrev add_weight : ℤ → Learning → Learning
add_weight delta l = record l { weight = l.weight +ℤ delta }

module _ (repo_id : ℕ) (key signal : String) (delta : ℤ) where
  abbrev here : Learning → Bool
  here = is_learning repo_id key signal

  weight-update :
      (ls : List Learning)
      → any here ls ≡ true
      → weight_in repo_id key signal (update_rows here (add_weight delta) ls)
        ≡ weight_in repo_id key signal ls +ℤ delta
  unfolding update_rows
  weight-update [] h = cc
  weight-update (l ∷ ls) h = elim (Bool-cases (here l)) [
    | inl e ↦ ground arith
    | inr e ↦ ground (arith, weight-update ls)
  ]

  weight-insert :
      (ls : List Learning)
      → any here ls ≡ false
      → weight_in repo_id key signal
          (ls ++ record { repo_id = repo_id; key = key; signal = signal; weight = delta } ∷ [])
        ≡ weight_in repo_id key signal ls +ℤ delta
  weight-insert [] h = ground (arith, zero_plus delta, str_eq_iff key key, str_eq_iff signal signal)
  weight-insert (l ∷ ls) h = ground (arith, weight-insert ls)

  module _ (other : String) (n : key ≢ other) where
    other-update :
        (ls : List Learning)
        → weight_in repo_id other signal (update_rows here (add_weight delta) ls)
          ≡ weight_in repo_id other signal ls
    unfolding update_rows
    other-update [] = refl
    other-update (l ∷ ls) =
        ground (arith, other-update ls, str_eq_iff l.key key, str_eq_iff l.key other)

    other-insert :
        (ls : List Learning)
        → weight_in repo_id other signal
            (ls ++ record { repo_id = repo_id; key = key; signal = signal; weight = delta } ∷ [])
          ≡ weight_in repo_id other signal ls
    other-insert [] = ground (arith, str_eq_iff key other)
    other-insert (l ∷ ls) = ground (arith, other-insert ls)

  inserted_row :
      (s s' : Store)
      → upsert_learning repo_id key signal delta s ≡ ok s'
      → any here s.learnings ≡ false
      → s'.learnings
        ≡ s.learnings
          ++ record { repo_id = repo_id; key = key; signal = signal; weight = delta } ∷ []
  unfolding upsert_learning
  inserted_row s s' h e = elim (Bool-cases (any (λ (x : Repo). x.id == repo_id) s.repos)) [
    | inl f ↦ ground arith
    | inr f ↦ absurd (ground arith)
  ]

  -- If a learning is recorded, the weight of its key under its signal grows by the delta, from zero where
  -- there was no row, and the weight of no other key of the repository under the signal changes.
  upsert_learning_adds :
      (s s' : Store)
      → upsert_learning repo_id key signal delta s ≡ ok s'
      → (weight_of repo_id key signal s' ≡ weight_of repo_id key signal s +ℤ delta)
        × ((other : String)
            → key ≢ other
            → weight_of repo_id other signal s' ≡ weight_of repo_id other signal s)
  upsert_learning_adds s s' h = elim (Bool-cases (any here s.learnings)) [
    | inl e ↦
        let rows : s'.learnings ≡ update_rows here (add_weight delta) s.learnings =
          unfold upsert_learning in ground arith in
        (
          rw rows (weight-update s.learnings e),
          λ other n. rw rows (other-update other n s.learnings),
        )
    | inr e ↦
        let rows : s'.learnings
            ≡ s.learnings
              ++ record { repo_id = repo_id; key = key; signal = signal; weight = delta } ∷ [] =
          inserted_row s s' h e in
        (
          rw rows (weight-insert s.learnings e),
          λ other n. rw rows (other-insert other n s.learnings),
        )
  ]
