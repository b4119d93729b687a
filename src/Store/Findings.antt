-- ===== src/Store/Findings.antt =====
-- internal/store/store.go: the findings of a run.
use arcticworks_codepeer.Base.{
  ℕ, ◌+◌, String, Bool, ◌&&◌, ◌||◌, List, [], ◌∷◌, ◌++◌, if◌then◌else◌, str_eq, is_nil, any, filter,
  ◌==◌,
}
use arcticworks_codepeer.Base.Result.{Result, ok, err}
use arcticworks_codepeer.Domain.{Finding, FindingRecord, AnalysisRun}
use arcticworks_codepeer.Store.{Store, StoreError, no_parent, update_rows}

abbrev pub record_of : ℕ → ℕ → String → Finding → FindingRecord
record_of id run_id hash f = record {
  id = id;
  run_id = run_id;
  finding_id = f.id;
  file = f.file;
  line = f.line;
  severity = f.severity;
  category = f.category;
  title = f.title;
  body = f.body;
  suggestion = f.suggestion;
  confidence = f.confidence;
  actionable = f.actionable;
  dedupe_hash = hash;
  comment_id = 0;
  issue_number = 0;
}

-- UNIQUE (run_id, dedupe_hash)
abbrev pub is_finding : ℕ → String → FindingRecord → Bool
is_finding run_id hash r = r.run_id == run_id && str_eq r.dedupe_hash hash

-- INSERT ... ON CONFLICT DO NOTHING. The number of a row that is not inserted is used up, too.
unfoldable pub insert_finding : ℕ → String → Finding → Store → Store
insert_finding run_id hash f s =
    if any (is_finding run_id hash) s.findings
    then record s { next_finding = s.next_finding + 1 }
    else record s {
      findings = s.findings ++ record_of s.next_finding run_id hash f ∷ [];
      next_finding = s.next_finding + 1;
    }

unfoldable pub insert_findings : ℕ → (Finding → String) → List Finding → Store → Store
insert_findings run_id hash [] s = s
insert_findings run_id hash (f ∷ fs) s =
    insert_findings run_id hash fs (insert_finding run_id (hash f) f s)

-- SaveFindings: the batch is one transaction.
unfoldable pub save_findings :
    ℕ → List Finding → (Finding → String) → Store → Result StoreError Store
save_findings run_id fs hash s =
    if is_nil fs || any (λ (r : AnalysisRun). r.id == run_id) s.runs
    then ok (insert_findings run_id hash fs s)
    else err no_parent

unfoldable pub findings_for_run : ℕ → Store → List FindingRecord
findings_for_run run_id s = filter (λ r. r.run_id == run_id) s.findings

unfoldable pub set_finding_comment : ℕ → ℕ → Store → Store
set_finding_comment id comment_id s = record s {
  findings = update_rows (λ r. r.id == id) (λ r. record r { comment_id = comment_id }) s.findings;
}

unfoldable pub set_finding_issue : ℕ → ℕ → Store → Store
set_finding_issue id issue_number s = record s {
  findings =
      update_rows (λ r. r.id == id) (λ r. record r { issue_number = issue_number }) s.findings;
}

-- The run of a finding, by the join on its number.
abbrev run_where : (AnalysisRun → Bool) → Store → FindingRecord → Bool
run_where p s f = any (λ r. r.id == f.run_id && p r) s.runs

unfoldable pub findings_for_issue : ℕ → ℕ → Store → List FindingRecord
findings_for_issue repo_id issue_number s =
    filter (λ f. run_where (λ r. r.repo_id == repo_id) s f && (f.issue_number == issue_number))
      s.findings
