-- ===== src/Commands/Score.antt =====
-- cmd/eval/main.go: how a review is scored against the seeded defects of a case. The ratios that are printed
-- are given by their two numbers; the difference of two lines is taken not to wrap around.
use arcticworks_codepeer.Base.{
  ℕ, ◌+◌, ◌-◌, ◌≤◌, ◌≡◌, Bool, not, ◌&&◌, List, [], ◌∷◌, any, filter, length, ℤ, pos, ◌+ℤ◌, leb_ℤ,
  arith,
}
use arcticworks_codepeer.Base.Text.{Text, text_eq}
use arcticworks_codepeer.Domain.{Finding}

pub record Defect : Type 0 where
  pub file : Text
  pub line : ℤ
  pub description : Text
  pub severity : Text

-- In the same file, three lines away at most.
unfoldable pub hits : Defect → Finding → Bool
hits d f = text_eq f.file d.file && leb_ℤ f.line (d.line +ℤ pos 3) && leb_ℤ d.line (f.line +ℤ pos 3)

pub record Score : Type 0 where
  pub defects : ℕ
  pub found : ℕ
  pub extra : ℕ
  pub missed : List Defect

is_found : List Finding → Defect → Bool
is_found findings d = any (hits d) findings

unfoldable pub score : List Defect → List Finding → Score
unfolding is_found
score defects findings =
    let found = length (filter (is_found findings) defects) in
    record {
      defects = length defects;
      found = found;
      extra = length findings - found;
      missed = filter (λ d. not (is_found findings d)) defects;
    }

record Totals : Type 0 where
  defects : ℕ
  found : ℕ
  extra : ℕ

add_score : Score → Totals → Totals
add_score s t = record {
  defects = t.defects + s.defects;
  found = t.found + s.found;
  extra = t.extra + s.extra;
}

split-length :
    (p : Defect → Bool) (ds : List Defect)
    → length (filter p ds) + length (filter (λ d. not (p d)) ds) ≡ length ds
split-length p [] = omega arith
split-length p (d ∷ ds) = ground (arith, split-length p ds)

-- For every case: each defect is either found or reported as missed; and the findings that are counted,
-- found and extra, are at least those of the review.
score_counts :
    (defects : List Defect) (findings : List Finding)
    → let s = score defects findings in
      (s.found + length s.missed ≡ s.defects) × (length findings ≤ s.found + s.extra)
unfolding score
score_counts defects findings = (split-length (is_found findings) defects, omega arith)
