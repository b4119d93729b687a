-- ===== src/Llm/Validate.antt =====
-- internal/llm/schema.go: `validateResult`, which only lets through what the pipeline relies on.
use arcticworks_codepeer.Base.{
  ◌≡◌, refl, ap, sym, subst, ◌∙◌, String, Bool, true, false, not, ◌&&◌, ◌||◌, Option, none, some,
  inl, inr, List, [], ◌∷◌, arith, Bool-cases, ℤ, pos, negsuc, ltb, ◌≤ℤ◌, is_nil, str_eq, str_eq_iff,
  if◌then◌else◌, All,
}
use arcticworks_codepeer.Base.Text.{Text}
use arcticworks_codepeer.Base.Result.{Result, ok, err}
use arcticworks_codepeer.Domain.{
  Finding, Suggestion, ReviewResult, status_approved, status_changes_requested, status_no_findings,
}

-- The errors of a review.
pub data ReviewError : Type 0 where
  api_error : Text → ReviewError
  cancelled empty_response empty_twice truncated_twice undecodable invalid_status : ReviewError

abbrev pub infer_status : String → List Finding → String
infer_status status findings =
    if str_eq status ""
    then if is_nil findings then status_no_findings else status_changes_requested
    else status

abbrev pub valid_status : String → Bool
valid_status s =
    str_eq s status_approved || str_eq s status_changes_requested || str_eq s status_no_findings

abbrev pub valid_severity : String → Bool
valid_severity s =
    str_eq s "critical" || str_eq s "high" || str_eq s "medium" || str_eq s "low" || str_eq s "nit"

abbrev pub valid_category : String → Bool
valid_category c =
    str_eq c "bug"
    || str_eq c "security"
    || str_eq c "performance"
    || str_eq c "correctness"
    || str_eq c "test"
    || str_eq c "maintainability"
    || str_eq c "style"
    || str_eq c "other"

abbrev pub clamp_confidence : ℤ → ℤ
clamp_confidence (negsuc n) = pos 0
clamp_confidence (pos n) = if ltb 1_000_000 n then pos 1_000_000 else pos n

abbrev pub clean_suggestion : Option Suggestion → Option Suggestion
clean_suggestion none = none
clean_suggestion (some s) = if is_nil s.old || is_nil s.new then none else some s

-- The findings that the loop does not drop.
abbrev pub keepable : Finding → Bool
keepable f =
    f.actionable
    && not (is_nil f.file)
    && not (is_nil f.title || is_nil f.body)
    && valid_severity f.severity
    && valid_category f.category

abbrev pub cleaned : Finding → Finding
cleaned f = record f {
  confidence = clamp_confidence f.confidence;
  suggestion = clean_suggestion f.suggestion;
}

unfoldable pub kept_findings : List Finding → List Finding
kept_findings [] = []
kept_findings (f ∷ fs) =
    let rest = kept_findings fs in if keepable f then cleaned f ∷ rest else rest

unfoldable pub validate_result : ReviewResult → Result ReviewError ReviewResult
unfolding kept_findings
validate_result r =
    let status = infer_status r.status r.findings in
    if valid_status status
    then ok (record r { status = status; findings = kept_findings r.findings })
    else err invalid_status

abbrev HasSnippets : Option Suggestion → Type 0
HasSnippets none = Unit
HasSnippets (some s) = (is_nil s.old ≡ false) × (is_nil s.new ≡ false)

-- What the pipeline and the poster rely on.
abbrev pub IsReportable : Finding → Type 0
IsReportable f =
    (keepable f ≡ true)
    × (pos 0 ≤ℤ f.confidence)
    × (f.confidence ≤ℤ pos 1_000_000)
    × HasSnippets f.suggestion

abbrev pub IsValid : ReviewResult → Type 0
IsValid r = (valid_status r.status ≡ true) × All IsReportable r.findings

clean_suggestion-HasSnippets : (o : Option Suggestion) → HasSnippets (clean_suggestion o)
clean_suggestion-HasSnippets none = tt
clean_suggestion-HasSnippets (some s) = elim (Bool-cases (is_nil s.old)) [
  | inl e ↦ rw e tt
  | inr e ↦ elim (Bool-cases (is_nil s.new)) [ inl f ↦ rw (e, f) tt | inr f ↦ rw (e, f) (e, f) ]
]

clamp_confidence-bounds :
    (n : ℤ) → (pos 0 ≤ℤ clamp_confidence n) × (clamp_confidence n ≤ℤ pos 1_000_000)
clamp_confidence-bounds (negsuc n) = (ground arith, ground arith)
clamp_confidence-bounds (pos n) = (ground arith, ground arith)

kept_findings-IsReportable : (fs : List Finding) → All IsReportable (kept_findings fs)
unfolding kept_findings
kept_findings-IsReportable [] = tt
kept_findings-IsReportable (f ∷ fs) = elim (Bool-cases (keepable f)) [
  | inl e ↦ rw e (
    (
      e,
      (clamp_confidence-bounds f.confidence).0,
      (clamp_confidence-bounds f.confidence).1,
      clean_suggestion-HasSnippets f.suggestion,
    ),
    kept_findings-IsReportable fs,
  )
  | inr e ↦ rw e (kept_findings-IsReportable fs)
]

clamp_confidence-eq : (n : ℤ) → pos 0 ≤ℤ n → n ≤ℤ pos 1_000_000 → clamp_confidence n ≡ n
clamp_confidence-eq (negsuc n) h k = absurd (ground arith)
clamp_confidence-eq (pos n) h k = ground arith

clean_suggestion-eq : (o : Option Suggestion) → HasSnippets o → clean_suggestion o ≡ o
clean_suggestion-eq none h = refl
clean_suggestion-eq (some s) h = rw (h.0, h.1) refl

kept_findings-eq : (fs : List Finding) → All IsReportable fs → kept_findings fs ≡ fs
unfolding kept_findings
kept_findings-eq [] h = refl
kept_findings-eq (f ∷ fs) ((keep, low, high, snippets), h) =
    rw
      (
        keep,
        clamp_confidence-eq f.confidence low high,
        clean_suggestion-eq f.suggestion snippets,
        kept_findings-eq fs h,
      )
      refl

empty_status-invalid : ¬ (valid_status "" ≡ true)
empty_status-invalid h = absurd cc

-- A status that is valid is not empty, so none is inferred.
infer_status-eq : (s : String) (fs : List Finding) → valid_status s ≡ true → infer_status s fs ≡ s
infer_status-eq s fs h = elim (Bool-cases (str_eq s "")) [
  | inl e ↦ absurd (empty_status-invalid (sym (ap valid_status ((str_eq_iff s "").0 e)) ∙ h))
  | inr e ↦ rw e refl
]

validated :
    (r r' : ReviewResult)
    → valid_status (infer_status r.status r.findings) ≡ true
    → validate_result r ≡ ok r'
    → record r { status = infer_status r.status r.findings; findings = kept_findings r.findings }
      ≡ r'
unfolding validate_result
validated r r' e h = ground arith

-- A result that is let through is valid: its status is one of three, and every finding is actionable,
-- has a file, a title and a body, a known severity and category, a confidence between 0 and 1, and a
-- fix, if any, with both snippets. A result that is valid is let through unchanged.
pub validate_result_contract :
    (r : ReviewResult)
    → ((r' : ReviewResult) → validate_result r ≡ ok r' → IsValid r')
      × (IsValid r → validate_result r ≡ ok r)
unfolding validate_result
validate_result_contract r = (
  λ r' h. elim (Bool-cases (valid_status (infer_status r.status r.findings))) [
    | inl e ↦ subst IsValid (validated r r' e h) (e, kept_findings-IsReportable r.findings)
    | inr e ↦ absurd (ground arith)
  ],
  λ v. rw (infer_status-eq r.status r.findings v.0, v.0, kept_findings-eq r.findings v.1) refl,
)
