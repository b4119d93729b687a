-- ===== src/Store/Issues.antt =====
-- internal/store/store.go: the issues that the program has opened.
use arcticworks_codepeer.Base.{
  ℕ, ◌+◌, String, Bool, ◌&&◌, Option, List, [], ◌∷◌, ◌++◌, if◌then◌else◌, str_eq, any, filter, find,
  ◌==◌,
}
use arcticworks_codepeer.Base.Text.{Text}
use arcticworks_codepeer.Base.Result.{Result, ok, err}
use arcticworks_codepeer.Domain.{IssueRecord, Repo}
use arcticworks_codepeer.Store.{Store, StoreError, no_parent, update_rows}
use arcticworks_codepeer.Store.Runs.{number_or_zero}

-- UNIQUE (repo_id, number)
abbrev pub is_issue : ℕ → ℕ → IssueRecord → Bool
is_issue repo_id number i = i.repo_id == repo_id && (i.number == number)

-- CreateIssue: an issue that is there is opened again, and keeps all else.
unfoldable pub create_issue :
    ℕ → ℕ → Text → String → Option ℕ → List String → Store → Result StoreError Store
create_issue repo_id number title kind pr_number finding_ids s =
    if any (is_issue repo_id number) s.issues
    then ok (record s {
      issues = update_rows (is_issue repo_id number) (λ i. record i { status = "open" }) s.issues;
      next_issue = s.next_issue + 1;
    })
    else if any (λ (x : Repo). x.id == repo_id) s.repos
    then ok (record s {
      issues =
          s.issues
          ++ record {
            id = s.next_issue;
            repo_id = repo_id;
            number = number;
            title = title;
            kind = kind;
            pr_number = number_or_zero pr_number;
            finding_ids = finding_ids;
            status = "open";
            fix_pr_number = 0;
          }
            ∷ [];
      next_issue = s.next_issue + 1;
    })
    else err no_parent

unfoldable pub close_issue : ℕ → ℕ → Store → Store
close_issue repo_id number s = record s {
  issues = update_rows (is_issue repo_id number) (λ i. record i { status = "closed" }) s.issues;
}

unfoldable pub open_issue_for_repo : ℕ → String → Store → Option IssueRecord
open_issue_for_repo repo_id kind s =
    find (λ i. i.repo_id == repo_id && (str_eq i.kind kind && str_eq i.status "open")) s.issues

unfoldable pub issues_for_pr : ℕ → ℕ → Store → List IssueRecord
issues_for_pr repo_id pr_number s =
    filter (λ i. i.repo_id == repo_id && (i.pr_number == pr_number)) s.issues

unfoldable pub issue_by_number : ℕ → ℕ → Store → Option IssueRecord
issue_by_number repo_id number s = find (is_issue repo_id number) s.issues

unfoldable pub set_issue_fix_pr : ℕ → ℕ → ℕ → Store → Store
set_issue_fix_pr repo_id number pr_number s = record s {
  issues =
      update_rows (is_issue repo_id number) (λ i. record i { fix_pr_number = pr_number }) s.issues;
}
