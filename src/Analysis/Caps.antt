-- ===== src/Analysis/Caps.antt =====
-- internal/analysis/pipeline.go: `applyCaps`. The source filters its slice in place; each pass reads
-- an element before it writes over it, so the passes are list functions.
pub mod Order
pub mod Limits
pub mod Best
use arcticworks_codepeer.Base.{
  ℕ, zero, ◌+◌, Bool, not, ◌&&◌, Option, none, some, List, [], ◌∷◌, ltb, ◌==◌, if◌then◌else◌,
  str_eq, length, filter, take, ℤ, pos, pos_part, ltb_ℤ, leb_ℤ,
}
use arcticworks_codepeer.Base.Text.{Text, text_eq, text_lt}
use arcticworks_codepeer.Base.Assoc.{Assoc, lookup, insert}
use arcticworks_codepeer.Base.Sort.{sort_stable}
use arcticworks_codepeer.Domain.{Finding}
use arcticworks_codepeer.Analysis.Findings.{severity_rank}

-- The order of `sort.SliceStable`: severe first, then by file and line.
unfoldable pub finding_less : Finding → Finding → Bool
finding_less a b =
    if not (severity_rank a.severity == severity_rank b.severity)
    then ltb (severity_rank b.severity) (severity_rank a.severity)
    else if not (text_eq a.file b.file)
    then text_lt a.file b.file
    else ltb_ℤ a.line b.line

unfoldable pub drop_nits : Bool → List Finding → List Finding
drop_nits include_nits fs =
    if include_nits then fs else filter (λ f. not (str_eq f.severity "nit")) fs

-- counts[f.File], zero for a file that is not there
unfoldable pub count_of : Text → Assoc ℕ → ℕ
count_of path counts = elim (lookup path counts) [ none ↦ 0 | some n ↦ n ]

unfoldable pub cap_loop : ℤ → Assoc ℕ → List Finding → List Finding
cap_loop cap counts [] = []
cap_loop cap counts (f ∷ fs) =
    let n = count_of f.file counts in
    let skipped = cap_loop cap counts fs in
    let kept = f ∷ cap_loop cap (insert f.file (n + 1) counts) fs in
    if leb_ℤ cap (pos n) then skipped else kept

unfoldable pub cap_per_file : ℤ → List Finding → List Finding
cap_per_file cap fs = if ltb_ℤ (pos 0) cap then cap_loop cap [] fs else fs

unfoldable pub cap_total : ℤ → List Finding → List Finding
cap_total max_findings fs =
    if ltb_ℤ (pos 0) max_findings && ltb_ℤ max_findings (pos (length fs))
    then take (pos_part max_findings) fs
    else fs

unfoldable pub apply_caps : List Finding → ℤ → ℤ → Bool → List Finding
apply_caps fs per_file_cap max_findings include_nits =
    cap_total max_findings
      (cap_per_file per_file_cap (drop_nits include_nits (sort_stable finding_less fs)))
