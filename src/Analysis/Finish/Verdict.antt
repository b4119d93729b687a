-- ===== src/Analysis/Finish/Verdict.antt =====
-- The status and the summary that `finish` gives the result, and `dedupeStrings`.
use arcticworks_codepeer.Base.{
  String, ◌≡◌, ◌≢◌, ◌↔◌, refl, sym, ◌∙◌, Bool, true, false, not, ◌&&◌, none, List, [], ◌∷◌, arith,
  str_eq_iff, any, All, Pairs, Bool-cases, inl, inr, ltb, length, ◌==◌,
}
use arcticworks_codepeer.Base.Text.{Text, text_eq}
use arcticworks_codepeer.Base.Text.Order.{text_eq_iff, eq→text_eq}
use arcticworks_codepeer.Domain.{
  ReviewResult, status_no_findings, status_changes_requested, status_approved,
}
use arcticworks_codepeer.Analysis.Finish.{
  ChunkOutcome, all_findings, all_no_findings, merged_status, merge_results, mem_text,
  dedupe_strings_from, dedupe_strings,
}

-- Whether a text is one of a list.
abbrev pub is_in : Text → List Text → Bool
is_in s xs = any (λ x. text_eq x s) xs

mem-dedupe_strings_from :
    (s : Text) (seen ss : List Text)
    → is_in s (dedupe_strings_from seen ss) ≡ (is_in s ss && not (is_in s seen))
unfolding dedupe_strings_from mem_text
mem-dedupe_strings_from s seen [] = refl
mem-dedupe_strings_from s seen (x ∷ ss) = ground (
  arith,
  mem-dedupe_strings_from s seen ss,
  mem-dedupe_strings_from s (x ∷ seen) ss,
  text_eq_iff x s,
)

absent : (s : Text) (xs : List Text) → is_in s xs ≡ false → All (λ x. s ≢ x) xs
absent s [] h = tt
absent s (x ∷ xs) h = (λ e. ground (arith, text_eq_iff x s), absent s xs (ground arith))

dedupe_strings_from-Pairs :
    (seen ss : List Text) → Pairs (λ a b. a ≢ b) (dedupe_strings_from seen ss)
unfolding dedupe_strings_from mem_text
dedupe_strings_from-Pairs seen [] = tt
dedupe_strings_from-Pairs seen (x ∷ ss) = elim (Bool-cases (is_in x seen)) [
  | inl e ↦ rw e (dedupe_strings_from-Pairs seen ss)
  | inr e ↦ rw e (
    absent x (dedupe_strings_from (x ∷ seen) ss)
        (ground (arith, mem-dedupe_strings_from x (x ∷ seen) ss, eq→text_eq x x refl)),
    dedupe_strings_from-Pairs (x ∷ seen) ss,
  )
]

-- For every list of texts: no two texts of the result are equal, and a text is in the result exactly
-- when it is in the list.
dedupe_strings_contract :
    (ss : List Text)
    → Pairs (λ a b. a ≢ b) (dedupe_strings ss)
      × ((s : Text) → is_in s (dedupe_strings ss) ≡ is_in s ss)
unfolding dedupe_strings
dedupe_strings_contract ss =
    (dedupe_strings_from-Pairs [] ss, λ s. ground (arith, mem-dedupe_strings_from s [] ss))

-- Every result of the list says that there is nothing to report.
abbrev pub AllClean : List ReviewResult → Type 0
AllClean = All (λ r. r.status ≡ status_no_findings)

all_no_findings_iff : (rs : List ReviewResult) → (all_no_findings rs ≡ true) ↔ AllClean rs
unfolding all_no_findings
all_no_findings_iff [] = (λ h. tt, λ h. refl)
all_no_findings_iff (r ∷ rs) = (
  λ h. ground (arith, str_eq_iff r.status status_no_findings, all_no_findings_iff rs),
  λ h. ground (arith, str_eq_iff r.status status_no_findings, all_no_findings_iff rs),
)

statuses_differ : ◌≢◌ {A = String} status_changes_requested status_no_findings
statuses_differ = ground (arith, str_eq_iff status_changes_requested status_no_findings)

approved_differs : ◌≢◌ {A = String} status_approved status_no_findings
approved_differs = ground (arith, str_eq_iff status_approved status_no_findings)

length-zero : {A : Type 0} (xs : List A) → (ltb 0 (length xs) ≡ false) ↔ (xs ≡ [])
length-zero [] = (λ h. refl, λ h. refl)
length-zero (x ∷ xs) = (λ h. ground arith, λ h. cc)

status_clean :
    (out : ChunkOutcome)
    → merged_status out ≡ status_no_findings
    → (all_findings out.results ≡ []) × AllClean out.results × (out.failed ≡ 0)
unfolding merged_status
status_clean out h = elim (Bool-cases (ltb 0 (length (all_findings out.results)))) [
  | inl e ↦ absurd (statuses_differ (ground arith))
  | inr e ↦ elim (Bool-cases (all_no_findings out.results && (out.failed == 0))) [
    | inl g ↦ (
      (length-zero (all_findings out.results)).0 e,
      (all_no_findings_iff out.results).0 (ground arith),
      ground arith,
    )
    | inr g ↦ absurd (approved_differs (ground arith))
  ]
]

clean_status :
    (out : ChunkOutcome)
    → (all_findings out.results ≡ []) × AllClean out.results × (out.failed ≡ 0)
    → merged_status out ≡ status_no_findings
unfolding merged_status
clean_status out (none_found, clean, none_failed) = rw (
  (length-zero (all_findings out.results)).1 none_found,
  (all_no_findings_iff out.results).1 clean,
  none_failed,
)

-- Without a compiled result, the status is "no_findings" exactly when no chunk has a finding, every
-- chunk says so itself, and no chunk failed.
pub merged_status_iff :
    (out : ChunkOutcome)
    → out.compiled ≡ none
    → ((merge_results out).status ≡ status_no_findings)
      ↔ ((all_findings out.results ≡ []) × AllClean out.results × (out.failed ≡ 0))
merged_status_iff out c =
    (λ h. status_clean out (sym (merged c) ∙ h), λ h. merged c ∙ clean_status out h)
  where
    merged : out.compiled ≡ none → (merge_results out).status ≡ merged_status out
    merged e = unfold merge_results in ground arith
