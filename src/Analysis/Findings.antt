-- ===== src/Analysis/Findings.antt =====
-- internal/analysis/pipeline.go: severities, categories, the identity of a finding, and
-- `dedupeFindings`.
pub mod Dedupe
pub mod Reference
use arcticworks_codepeer.Base.{
  ℕ, String, Bool, true, false, not, ◌&&◌, ◌||◌, Option, none, some, List, [], ◌∷◌, ◌++◌, ltb, leb,
  if◌then◌else◌, str_eq, length, get_elem?, set,
}
use arcticworks_codepeer.Base.Text.{Text, to_lower, trim_space}
use arcticworks_codepeer.Base.Text.Decimal.{itoa}
use arcticworks_codepeer.Base.Assoc.{Assoc, lookup}
use arcticworks_codepeer.Domain.{Finding}

unfoldable pub severity_rank : String → ℕ
severity_rank s =
    if str_eq s "critical"
    then 5
    else if str_eq s "high"
    then 4
    else if str_eq s "medium"
    then 3
    else if str_eq s "low"
    then 2
    else if str_eq s "nit"
    then 1
    else 0

unfoldable pub valid_severity : String → Bool
valid_severity s =
    str_eq s "critical" || str_eq s "high" || str_eq s "medium" || str_eq s "low" || str_eq s "nit"

unfoldable pub valid_category : String → Bool
valid_category c =
    str_eq c "bug"
    || str_eq c "security"
    || str_eq c "performance"
    || str_eq c "correctness"
    || str_eq c "test"
    || str_eq c "maintainability"
    || str_eq c "style"
    || str_eq c "other"

abbrev pub is_alnum : ℕ → Bool
is_alnum c = leb b'a' c && leb c b'z' || leb b'0' c && leb c b'9'

-- The loop of `normalizeTitle`: `last_space` is true after a blank, and at the start.
unfoldable pub normalize_from : Bool → Text → Text
normalize_from last_space [] = []
normalize_from last_space (c ∷ s) =
    let rest = normalize_from (not (is_alnum c)) s in
    if is_alnum c then c ∷ rest else if last_space then rest else b' ' ∷ rest

unfoldable pub normalize_title : Text → Text
unfolding normalize_from
normalize_title s = trim_space (normalize_from true (to_lower s))

-- fmt.Sprintf("%s|%d|%s", f.File, f.Line, normalizeTitle(f.Title)): what `DedupeHash` hashes, too
unfoldable pub dedupe_key : Finding → Text
dedupe_key f = f.file ++ (b'|' ∷ (itoa f.line ++ (b'|' ∷ normalize_title f.title)))

-- An index out of range is a panic in Go; `seen` holds indices of `out` alone.
replace_if_higher : List Finding → ℕ → Finding → List Finding
replace_if_higher out idx f = elim (get_elem? out idx) [
  | none ↦ out
  | some g ↦
      if ltb (severity_rank g.severity) (severity_rank f.severity) then set out idx f else out
]

-- The body of the loop, on the map `seen` and the slice `out`.
record DedupeState : Type 0 where
  seen : Assoc ℕ
  out : List Finding

dedupe_step : DedupeState → Finding → DedupeState
unfolding replace_if_higher
dedupe_step s f = elim (lookup (dedupe_key f) s.seen) [
  | some idx ↦ record s { out = replace_if_higher s.out idx f }
  | none ↦ record { seen = (dedupe_key f, length s.out) ∷ s.seen; out = s.out ++ f ∷ [] }
]

dedupe_loop : DedupeState → List Finding → DedupeState
dedupe_loop s [] = s
dedupe_loop s (f ∷ fs) = dedupe_loop (dedupe_step s f) fs

unfoldable pub dedupe_findings : List Finding → List Finding
unfolding dedupe_loop dedupe_step
dedupe_findings fs = (dedupe_loop (record { seen = []; out = [] }) fs).out
