-- ===== src/Tests/Findings.antt =====
-- `dedupeFindings` and `applyCaps` on the sample findings.
use arcticworks_codepeer.Base.{Pairs, ◌≡◌, ◌≤◌, pos, true, length, drop, All, Memᴰ, []}
use arcticworks_codepeer.Base.Text.{Text}
use arcticworks_codepeer.Domain.{Finding}
use arcticworks_codepeer.Analysis.Findings.{dedupe_findings}
use arcticworks_codepeer.Analysis.Findings.Reference.{merge_all, dedupe_findings-eq-merge_all}
use arcticworks_codepeer.Analysis.Findings.Dedupe.{
  HasDistinctKeys, Represents, dedupe_findings_contract,
}
use arcticworks_codepeer.Analysis.Caps.{apply_caps}
use arcticworks_codepeer.Analysis.Caps.Limits.{apply_caps_limits, of_file}
use arcticworks_codepeer.Analysis.Caps.Best.{IsAhead, capped, apply_caps_best}
use arcticworks_codepeer.Tests.Data.{sample_findings}

dedupe_findings_contract_example :
    HasDistinctKeys (dedupe_findings sample_findings)
    × ((f : Finding) → Memᴰ f sample_findings → Represents (dedupe_findings sample_findings) f)
    × All (λ g. Memᴰ g sample_findings) (dedupe_findings sample_findings)
dedupe_findings_contract_example = dedupe_findings_contract sample_findings

dedupe_findings-eq-merge_all_example :
    dedupe_findings sample_findings ≡ merge_all [] sample_findings
dedupe_findings-eq-merge_all_example = dedupe_findings-eq-merge_all sample_findings

apply_caps_limits_example :
    (length (apply_caps sample_findings (pos 1) (pos 2) true) ≤ 2)
    × ((path : Text) → length (of_file path (apply_caps sample_findings (pos 1) (pos 2) true)) ≤ 1)
apply_caps_limits_example = apply_caps_limits sample_findings 0 1 true

apply_caps_best_example :
    Pairs (λ a c. ¬ (IsAhead c a)) (apply_caps sample_findings (pos 1) (pos 2) true)
    × All
        (λ a. All (λ c. ¬ (IsAhead c a)) (drop 2 (capped sample_findings (pos 1) true)))
        (apply_caps sample_findings (pos 1) (pos 2) true)
apply_caps_best_example = apply_caps_best sample_findings (pos 1) 1 true
