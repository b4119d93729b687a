-- ===== src/Analysis/Finish.antt =====
-- internal/analysis/pipeline.go: the pure part of `finish`, from the outcomes of the chunks to the
-- result that is stored. `hash` is the digest of `DedupeHash`, SHA-256 cut to eight bytes in hex.
pub mod Publishable
pub mod Verdict
use arcticworks_codepeer.Base.{
  ℕ, zero, String, Bool, true, false, not, ◌&&◌, ◌||◌, Option, none, some, List, [], ◌∷◌, ◌++◌,
  if◌then◌else◌, is_nil, cons_some, str_eq, ltb, ◌==◌, length, filter, any, ℤ, pos, ltb_ℤ,
}
use arcticworks_codepeer.Base.Text.{Text, codes, text_eq, contains, trim_space, join}
use arcticworks_codepeer.Base.Text.Decimal.{print_ℕ}
use arcticworks_codepeer.Base.Assoc.{Assoc, lookup, has_key}
use arcticworks_codepeer.Domain.{
  Finding, Suggestion, ReviewResult, status_approved, status_changes_requested, status_no_findings,
}
use arcticworks_codepeer.Analysis.Findings.{
  valid_severity, valid_category, dedupe_key, dedupe_findings,
}
use arcticworks_codepeer.Analysis.Caps.{apply_caps}
use arcticworks_codepeer.Analysis.Diff.{Hunk, parse_hunks, hunks_of, new_line_in_diff}
use arcticworks_codepeer.Analysis.Gates.{Settings}

-- chunkOutcome, without the records that `finish` reads back at the end.
pub record ChunkOutcome : Type 0 where
  pub results : List ReviewResult
  pub failed : ℕ
  pub failed_files : List Text
  pub compiled : Option ReviewResult

-- strings.Join(parts, sep) at any separator
unfoldable pub join_text : List Text → Text → Text
join_text [] sep = []
join_text (l ∷ []) sep = l
join_text (l ∷ m ∷ ls) sep = l ++ (sep ++ join_text (m ∷ ls) sep)

unfoldable pub summaries : List ReviewResult → List Text
summaries [] = []
summaries (r ∷ rs) = let rest = summaries rs in if is_nil r.summary then rest else r.summary ∷ rest

unfoldable pub all_findings : List ReviewResult → List Finding
all_findings [] = []
all_findings (r ∷ rs) = r.findings ++ all_findings rs

unfoldable pub all_no_findings : List ReviewResult → Bool
all_no_findings rs = not (any (λ r. not (str_eq r.status status_no_findings)) rs)

unfoldable pub merged_status : ChunkOutcome → String
merged_status out =
    if ltb 0 (length (all_findings out.results))
    then status_changes_requested
    else if all_no_findings out.results && (out.failed == 0)
    then status_no_findings
    else status_approved

-- The lead agent's result, or the results of the chunks put together.
unfoldable pub merge_results : ChunkOutcome → ReviewResult
merge_results out = elim out.compiled [
  | some r ↦ r
  | none ↦ record {
    summary = join_text (summaries out.results) (codes " ");
    status = merged_status out;
    findings = all_findings out.results;
  }
]

mem_text : Text → List Text → Bool
mem_text s xs = any (λ x. text_eq x s) xs

-- The loop of `dedupeStrings`; `seen` holds what is in the result.
dedupe_strings_from : List Text → List Text → List Text
unfolding mem_text
dedupe_strings_from seen [] = []
dedupe_strings_from seen (s ∷ ss) =
    let again = dedupe_strings_from seen ss in
    let first = s ∷ dedupe_strings_from (s ∷ seen) ss in if mem_text s seen then again else first

unfoldable pub dedupe_strings : List Text → List Text
unfolding dedupe_strings_from
dedupe_strings ss = dedupe_strings_from [] ss

unfoldable pub partial_warning : List Text → Text
partial_warning files =
    codes "Partial review warning: "
    ++ (print_ℕ (length files)
        ++ (codes " changed file(s) could not be analyzed (analysis errors): "
            ++ (join_text files (codes ", ") ++ codes ".")))

unfoldable pub add_warning : Text → List Text → Text
add_warning summary files =
    if is_nil files
    then summary
    else if is_nil summary
    then partial_warning files
    else summary ++ (codes "\n\n" ++ partial_warning files)

-- m[k] on a map of texts, empty for a key that is not there
abbrev pub text_at : Text → Assoc Text → Text
text_at k m = elim (lookup k m) [ none ↦ [] | some t ↦ t ]

-- Whether a positive line lies outside the hunks that the patch has for the file.
unfoldable pub outside_hunks : Assoc Text → Finding → Bool
outside_hunks diff_by_file f =
    let hunks = hunks_of f.file (parse_hunks (text_at f.file diff_by_file)) in
    ltb_ℤ (pos 0) f.line && (not (is_nil hunks) && not (new_line_in_diff hunks f.line))

-- Whether the snippet to replace is in the diff or in the context of the file.
unfoldable pub anchored : Assoc Text → Assoc Text → Text → Suggestion → Bool
anchored diff_by_file ctx_files file s =
    not (is_nil (trim_space s.old))
    && (contains (text_at file diff_by_file) (trim_space s.old)
        || contains (text_at file ctx_files) (trim_space s.old))

unfoldable pub keep_suggestion :
    Assoc Text → Assoc Text → Text → Option Suggestion → Option Suggestion
keep_suggestion diff_by_file ctx_files file none = none
keep_suggestion diff_by_file ctx_files file (some s) =
    if anchored diff_by_file ctx_files file s then some s else none

-- An unknown severity or category is replaced, a suggestion that is not anchored is dropped.
unfoldable pub repair : Assoc Text → Assoc Text → Finding → Finding
unfolding keep_suggestion
repair diff_by_file ctx_files f = record f {
  severity = if valid_severity f.severity then f.severity else "medium";
  category = if valid_category f.category then f.category else "other";
  suggestion = keep_suggestion diff_by_file ctx_files f.file f.suggestion;
}

-- The body of the validation loop: `none` where it drops the finding. The repairs change no field that
-- the tests read.
unfoldable pub validate_finding : Assoc Text → Assoc Text → Finding → Option Finding
validate_finding diff_by_file ctx_files f =
    if is_nil f.title || is_nil f.body
    then none
    else if not (has_key f.file diff_by_file)
    then none
    else if outside_hunks diff_by_file f
    then none
    else some (repair diff_by_file ctx_files f)

unfoldable pub validate_findings : Assoc Text → Assoc Text → List Finding → List Finding
validate_findings diff_by_file ctx_files [] = []
validate_findings diff_by_file ctx_files (f ∷ fs) =
    cons_some (validate_finding diff_by_file ctx_files f)
      (validate_findings diff_by_file ctx_files fs)

module _ (hash : Text → String) where
  -- DedupeHash
  abbrev pub dedupe_hash : Finding → String
  dedupe_hash f = hash (dedupe_key f)

  -- `suppressed` is what the store returns: the set of keys, or `none` for an error, which is ignored.
  unfoldable pub drop_suppressed : Option (List String) → List Finding → List Finding
  drop_suppressed none fs = fs
  drop_suppressed (some keys) fs = filter (λ f. not (any (λ k. str_eq k (dedupe_hash f)) keys)) fs

  -- The findings of the stored result.
  unfoldable pub finish_findings :
      Settings → Assoc Text → Assoc Text → Option (List String) → List Finding → List Finding
  finish_findings p diff_by_file ctx_files suppressed fs =
      apply_caps
        (drop_suppressed suppressed (validate_findings diff_by_file ctx_files (dedupe_findings fs)))
        p.per_file_cap p.max_findings p.include_nits

  -- The stored result, and the files that could not be analyzed.
  unfoldable pub finish_result :
      Settings
      → Assoc Text
      → Assoc Text
      → Option (List String)
      → ChunkOutcome
      → ReviewResult × List Text
  finish_result p diff_by_file ctx_files suppressed out =
      let merged = merge_results out in
      let partial = dedupe_strings out.failed_files in
      (
        record {
          summary = add_warning merged.summary partial;
          status = merged.status;
          findings = finish_findings p diff_by_file ctx_files suppressed merged.findings;
        },
        partial,
      )
