-- ===== src/Tests/Finish.antt =====
-- The end of a run on the sample findings; the digest of the tests is constant.
use arcticworks_codepeer.Base.{◌≡◌, ◌↔◌, String, some, none, List, [], ◌∷◌, All, refl}
use arcticworks_codepeer.Base.Text.{Text, codes}
use arcticworks_codepeer.Domain.{status_no_findings}
use arcticworks_codepeer.Analysis.Gates.{new_pipeline}
use arcticworks_codepeer.Analysis.Finish.{
  ChunkOutcome, all_findings, merge_results, finish_findings,
}
use arcticworks_codepeer.Analysis.Finish.Publishable.{
  IsPublishable, NotSuppressed, finish_findings-IsPublishable,
}
use arcticworks_codepeer.Analysis.Finish.Verdict.{AllClean, merged_status_iff}
use arcticworks_codepeer.Tests.Data.{sample_findings, sample_diff}

abbrev constant_hash : Text → String
constant_hash t = "0"

finish_findings-IsPublishable_example :
    All
      (IsPublishable sample_diff [])
      (finish_findings constant_hash new_pipeline sample_diff [] (some ("1" ∷ [])) sample_findings)
    × All (NotSuppressed constant_hash (some ("1" ∷ []))) (
        finish_findings constant_hash new_pipeline sample_diff [] (some ("1" ∷ [])) sample_findings)
finish_findings-IsPublishable_example =
    finish_findings-IsPublishable constant_hash new_pipeline sample_diff [] (some ("1" ∷ []))
      sample_findings

abbrev sample_strings : List Text
sample_strings = codes "a" ∷ codes "b" ∷ codes "a" ∷ []

abbrev sample_outcome : ChunkOutcome
sample_outcome = record {
  results = record { summary = codes "ok"; status = status_no_findings; findings = [] } ∷ [];
  failed = 1;
  failed_files = codes "a.go" ∷ [];
  compiled = none;
}

merged_status_iff_example : ((merge_results sample_outcome).status ≡ status_no_findings) ↔ (
    (all_findings sample_outcome.results ≡ [])
    × AllClean sample_outcome.results
    × (sample_outcome.failed ≡ 0))
merged_status_iff_example = merged_status_iff sample_outcome refl
