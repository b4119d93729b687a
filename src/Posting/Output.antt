-- ===== src/Posting/Output.antt =====
-- internal/posting/output.go: what the poster is given, a pass as it is posted. `skipped` is empty for a
-- change that was reviewed, and `pr_number` is 0 for a push.
use arcticworks_codepeer.Base.{ℕ, String, List}
use arcticworks_codepeer.Base.Text.{Text}
use arcticworks_codepeer.Domain.{FindingRecord, ReviewResult}

pub record ReviewOutput : Type 0 where
  pub repo_owner : String
  pub repo_name : String
  pub repo_id : ℕ
  pub pr_number : ℕ
  pub head_sha : String
  pub result : ReviewResult
  pub findings : List FindingRecord
  pub skipped : String
  pub partial_files : List Text
