-- ===== src/Posting/Review.antt =====
-- internal/posting/poster.go: `PostPRReview`. An error of GitHub or of the database on a comment or an
-- issue is logged, and the loop goes on.
pub mod Limits
use arcticworks_codepeer.Base.{
  ℕ, suc, ◌+◌, String, Bool, true, false, not, ◌&&◌, ◌||◌, Option, none, some, List, [], ◌∷◌, ◌++◌,
  ℤ, pos, ltb_ℤ, leb, if◌then◌else◌, is_nil, length, map, take, filter, any, str_eq,
}
use arcticworks_codepeer.Base.Text.{Text, codes}
use arcticworks_codepeer.Base.Text.Decimal.{print_ℕ}
use arcticworks_codepeer.Base.Result.{Result, ok, err}
use arcticworks_codepeer.Base.Action.{pure, attempt, ◌>>=◌, ◌>>◌}
use arcticworks_codepeer.Domain.{Annotation, InlineComment, FindingRecord, IssueRecord}
use arcticworks_codepeer.Store.Findings.{set_finding_comment, set_finding_issue}
use arcticworks_codepeer.Store.Issues as Issues
use arcticworks_codepeer.Store.Repos.{set_pr_state}
use arcticworks_codepeer.Posting.Output.{ReviewOutput}
use arcticworks_codepeer.Posting.Markdown.{
  build_summary_body, build_comment_body, build_issue_body, issue_title,
}
use arcticworks_codepeer.Posting.World.{
  Github, Request, create_check_run, create_review, create_comment, create_issue, Call, World,
  PostError, Posting, perform, query, change, change_or_fail,
}

abbrev pub max_annotations_per_run : ℕ
max_annotations_per_run = 50

abbrev pub max_comments_per_review : ℕ
max_comments_per_review = 20

abbrev pub max_issues_per_review : ℕ
max_issues_per_review = 5

abbrev pub on_a_line : FindingRecord → Bool
on_a_line f = ltb_ℤ (pos 0) f.line

abbrev pub inline_comment : FindingRecord → InlineComment
inline_comment f = record {
  path = f.file;
  body = build_comment_body f;
  line = f.line;
  side = "RIGHT";
}

-- The findings that are commented on: the loop ends when it has enough of them.
unfoldable pub pending_inline_comments : List FindingRecord → List FindingRecord
pending_inline_comments fs = take max_comments_per_review (filter on_a_line fs)

abbrev annotation_of : FindingRecord → Annotation
annotation_of f = record {
  path = f.file;
  start_line = f.line;
  end_line = f.line;
  level = if str_eq f.severity "critical" then "failure" else "warning";
  message = f.title;
  title = codes f.severity ++ (codes " " ++ codes f.category);
}

unfoldable pub annotations_of : List FindingRecord → List Annotation
annotations_of fs = map annotation_of (take max_annotations_per_run (filter on_a_line fs))

unfoldable pub issue_references_finding : List IssueRecord → String → Bool
issue_references_finding issues hash =
    any
      (λ (i : IssueRecord).
        str_eq i.kind "finding"
        && not (str_eq i.status "closed")
        && any (λ h. str_eq h hash) i.finding_ids)
      issues

abbrev conclusion_of : ReviewOutput → String
conclusion_of out =
    if not (is_nil out.findings) || not (is_nil out.partial_files) then "neutral" else "success"

abbrev check_summary : ReviewOutput → Text
check_summary out =
    if not (is_nil out.findings)
    then print_ℕ (length out.findings) ++ codes " findings"
    else if not (is_nil out.partial_files)
    then codes "partial review: "
      ++ (print_ℕ (length out.partial_files) ++ codes " files not analyzed")
    else codes "no findings"

-- Whether the loop opens an issue for a finding.
abbrev pub wants_issue : List IssueRecord → FindingRecord → Bool
wants_issue existing f =
    (str_eq f.severity "critical" || str_eq f.severity "high")
    && not (not (str_eq f.dedupe_hash "") && issue_references_finding existing f.dedupe_hash)

module _ (gh : Github) (out : ReviewOutput) where
  abbrev pub call_of : Request → Call
  call_of r = record { owner = out.repo_owner; repo = out.repo_name; request = r }

  comment_stored : FindingRecord → Result PostError ℕ → Posting (Unit {0})
  comment_stored f (err e) = pure tt
  comment_stored f (ok comment_id) = change (set_finding_comment f.id comment_id)

  post_comments : List FindingRecord → Posting (Unit {0})
  unfolding comment_stored
  post_comments [] = pure tt
  post_comments (f ∷ fs) =
      attempt
        (perform gh.number (call_of (create_comment out.pr_number out.head_sha (inline_comment f))))
      >>= comment_stored f
      >> post_comments fs

  -- The number of issues that are posted, after an attempt.
  issue_stored : ℕ → FindingRecord → Result PostError ℕ → Posting ℕ
  issue_stored posted f (err e) = pure posted
  issue_stored posted f (ok num) =
      attempt (
        change_or_fail (
          Issues.create_issue out.repo_id num (issue_title f) "finding" (some out.pr_number)
            (f.dedupe_hash ∷ [])))
      >> change (set_finding_issue f.id num)
      >> pure (suc posted)

  -- The body of the loop over the issues; after its `break` it does nothing.
  post_issue : List IssueRecord → FindingRecord → ℕ → Posting ℕ
  unfolding issue_stored
  post_issue existing f posted =
      if leb max_issues_per_review posted || not (wants_issue existing f)
      then pure posted
      else attempt (
          perform gh.number (
            call_of (
              create_issue (issue_title f)
                (build_issue_body f out.pr_number out.repo_owner out.repo_name)
                ("codepeer" ∷ f.severity ∷ []))))
        >>= issue_stored posted f

  post_issues : List IssueRecord → List FindingRecord → ℕ → Posting ℕ
  unfolding post_issue
  post_issues existing [] posted = pure posted
  post_issues existing (f ∷ fs) posted = post_issue existing f posted >>= post_issues existing fs

  abbrev check_run : Request
  check_run = create_check_run (record {
    head_sha = out.head_sha;
    conclusion = conclusion_of out;
    summary = check_summary out;
    annotations = annotations_of out.findings;
  })

  -- What follows the check run and the review.
  post_findings : ℕ → ℕ → Posting (Unit {0})
  unfolding post_comments post_issues
  post_findings check_run_id review_id =
      post_comments (pending_inline_comments out.findings)
      >> query (Issues.issues_for_pr out.repo_id out.pr_number)
      >>= (λ existing. post_issues existing out.findings 0)
      >> change_or_fail
          (set_pr_state out.repo_id out.pr_number out.head_sha (some review_id) (some check_run_id))

  unfoldable pub post_pr_review : Posting (Unit {0})
  unfolding post_findings
  post_pr_review =
      if not (str_eq out.skipped "")
      then pure tt
      else perform gh.number (call_of check_run) >>= λ check_run_id.
          perform gh.number
            (call_of (create_review out.pr_number out.head_sha (build_summary_body out)))
          >>= post_findings check_run_id
