-- ===== src/Tests/Diffs.antt =====
-- Lines and hunks.
use arcticworks_codepeer.Base.{◌≡◌, ◌↔◌, true, List, [], ◌∷◌, Memᴰ, pos, ◌+ℤ◌, All, arith}
use arcticworks_codepeer.Analysis.Diff.{Hunk, new_line_in_diff}
use arcticworks_codepeer.Analysis.Diff.Lines.{Covers, EndFits, new_line_in_diff_iff}

abbrev sample_hunks : List Hunk
sample_hunks =
    record {
      new_start = pos 3;
      new_count = pos 4;
      old_start = pos 3;
      old_count = pos 1;
      header = [];
    }
    ∷ []

ends_fit : All EndFits sample_hunks
unfolding ◌+ℤ◌
ends_fit = ((omega arith, omega arith), tt)

new_line_in_diff_iff_example :
    (new_line_in_diff sample_hunks (pos 6) ≡ true)
    ↔ ((h : Hunk) × Memᴰ h sample_hunks × Covers h (pos 6))
new_line_in_diff_iff_example = new_line_in_diff_iff sample_hunks (pos 6) ends_fit
