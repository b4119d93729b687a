-- ===== src/Posting/Review/Limits.antt =====
-- How much one review posts.
use arcticworks_codepeer.Base.{
  ℕ, suc, ◌+◌, ◌-◌, ◌≤◌, ◌<◌, ◌≡◌, refl, sym, not, ◌||◌, some, inl, inr, List, [], ◌∷◌, ◌++◌,
  append-nil, arith, Bool-cases, leb, length, length-map, length-take, take, filter, str_eq,
}
use arcticworks_codepeer.Base.Text.{Text}
use arcticworks_codepeer.Base.Result.{Result, ok, err}
use arcticworks_codepeer.Base.Action.{resume, attempt, ◌>>=◌, ◌>>◌}
use arcticworks_codepeer.Domain.{FindingRecord, IssueRecord}
use arcticworks_codepeer.Store.{Store, StoreError}
use arcticworks_codepeer.Store.Repos.{set_pr_state}
use arcticworks_codepeer.Store.Issues as Issues
use arcticworks_codepeer.Posting.Output.{ReviewOutput}
use arcticworks_codepeer.Posting.Markdown.{build_summary_body, build_issue_body, issue_title}
use arcticworks_codepeer.Posting.Markdown.Bounds.{
  length-build_summary_body, length-build_comment_body, length-build_issue_body, length-issue_title,
}
use arcticworks_codepeer.Posting.World.{
  Github, create_review, create_comment, create_issue, Call, World, PostError, query,
  change_or_fail, remote_result, perform, settled,
}
use arcticworks_codepeer.Posting.Review.{
  max_annotations_per_run, max_comments_per_review, annotation_of, max_issues_per_review, on_a_line,
  inline_comment, pending_inline_comments, annotations_of, wants_issue, call_of, comment_stored,
  post_comments, issue_stored, post_issue, post_issues, check_run, post_findings, post_pr_review,
}
use arcticworks_codepeer.Posting.Trace.{
  Posts, Posts-refl, Posts-trans, Posts-le, performed, then-Posts,
}

module _ (gh : Github) (out : ReviewOutput) where
  comment_stored-Posts :
      (f : FindingRecord) (r : Result PostError ℕ) (w : World)
      → Posts gh 0 0 w (comment_stored gh out f r w).1
  unfolding comment_stored
  comment_stored-Posts f (err e) w = Posts-refl gh w w refl
  comment_stored-Posts f (ok n) w = ([], sym (append-nil w.calls), ground arith, ground arith, tt)

  post_comments-Posts :
      (fs : List FindingRecord) (w : World) → Posts gh (length fs) 0 w (post_comments gh out fs w).1
  unfolding post_comments
  post_comments-Posts [] w = Posts-refl gh w w refl
  post_comments-Posts (f ∷ fs) w =
      let c = call_of gh out (create_comment out.pr_number out.head_sha (inline_comment f)) in
      let post = attempt (perform gh.number c) in
      let one = post >>= comment_stored gh out f in
      Posts-le gh w (post_comments gh out (f ∷ fs) w).1 (1 + 0 + length fs) (suc (length fs)) 0 0
        (ground arith) (ground arith)
        (then-Posts gh (1 + 0) (length fs) 0 0 w (λ _. post_comments gh out fs) (one w)
          (then-Posts gh 1 0 0 0 w (comment_stored gh out f) (post w)
            (performed gh gh.number c w (length-build_comment_body f)) (comment_stored-Posts f))
          (λ _. post_comments-Posts fs))

  -- An attempt to open an issue: the number of issues goes from `posted` to at most five.
  abbrev OpensIssue : ℕ → World → Result PostError ℕ × World → Type 0
  OpensIssue posted w (r, w') =
      (n : ℕ) × (r ≡ ok n) × (posted ≤ n) × (n ≤ 5) × Posts gh 0 (n - posted) w w'

  settled-calls : (w : World) (o : Result StoreError Store) → (settled w o).1.calls ≡ w.calls
  settled-calls w (err e) = refl
  settled-calls w (ok s) = refl

  abbrev issue_call : FindingRecord → Call
  issue_call f = call_of gh out (
      create_issue (issue_title f) (build_issue_body f out.pr_number out.repo_owner out.repo_name)
        ("codepeer" ∷ f.severity ∷ []))

  issue_stored-OpensIssue :
      (posted : ℕ) (f : FindingRecord) (w : World) (r : Result Text ℕ)
      → gh.number w.calls (issue_call f) ≡ r
      → posted < 5
      → OpensIssue posted w (
          issue_stored gh out posted f
            (remote_result r)
            (record w { calls = w.calls ++ issue_call f ∷ [] }))
  unfolding issue_stored
  issue_stored-OpensIssue posted f w (err e) h k = (
    posted,
    refl,
    ground arith,
    ground arith,
    (
      issue_call f ∷ [],
      refl,
      ground arith,
      rw h (ground arith),
      (
        (
          length-issue_title f,
          length-build_issue_body f out.pr_number out.repo_owner out.repo_name,
        ),
        tt,
      ),
    ),
  )
  issue_stored-OpensIssue posted f w (ok num) h k =
      let w1 = record w { calls = w.calls ++ issue_call f ∷ [] } in
      let o =
        Issues.create_issue out.repo_id num (issue_title f) "finding" (some out.pr_number)
          (f.dedupe_hash ∷ []) w.store in
      (
        suc posted,
        refl,
        ground arith,
        ground arith,
        (
          issue_call f ∷ [],
          settled-calls w1 o,
          ground arith,
          rw h (ground arith),
          (
            (
              length-issue_title f,
              length-build_issue_body f out.pr_number out.repo_owner out.repo_name,
            ),
            tt,
          ),
        ),
      )

  post_issue-OpensIssue :
      (existing : List IssueRecord) (f : FindingRecord) (posted : ℕ) (w : World)
      → posted ≤ 5
      → OpensIssue posted w (post_issue gh out existing f posted w)
  unfolding post_issue
  post_issue-OpensIssue existing f posted w h =
      elim (Bool-cases (leb max_issues_per_review posted || not (wants_issue existing f))) [
        | inl e ↦ rw e (
          posted,
          refl,
          ground arith,
          h,
          ([], sym (append-nil w.calls), ground arith, ground arith, tt),
        )
        | inr e ↦ rw e (
            issue_stored-OpensIssue posted f w (gh.number w.calls (issue_call f)) refl
              (ground arith))
      ]

  then-post_issues :
      (existing : List IssueRecord) (fs : List FindingRecord) (posted : ℕ) (w : World)
      (o : Result PostError ℕ × World)
      → OpensIssue posted w o
      → ((n : ℕ) (x : World) → n ≤ 5 → Posts gh 0 (5 - n) x (post_issues gh out existing fs n x).1)
      → Posts gh 0 (5 - posted) w (resume (post_issues gh out existing fs) o).1
  then-post_issues existing fs posted w (err e, v) (n, same, h, k, p) ih = absurd cc
  then-post_issues existing fs posted w (ok m, v) (n, same, h, k, p) ih =
      let e : m ≡ n = ground arith in
      let rest = post_issues gh out existing fs m v in
      Posts-le gh w rest.1 0 0 (n - posted + (5 - m)) (5 - posted) (ground arith) (omega arith)
        (Posts-trans gh w v rest.1 0 0 (n - posted) (5 - m) p (ih m v (omega arith)))

  post_issues-Posts :
      (existing : List IssueRecord) (fs : List FindingRecord) (posted : ℕ) (w : World)
      → posted ≤ 5
      → Posts gh 0 (5 - posted) w (post_issues gh out existing fs posted w).1
  unfolding post_issues
  post_issues-Posts existing [] posted w h =
      ([], sym (append-nil w.calls), ground arith, ground arith, tt)
  post_issues-Posts existing (f ∷ fs) posted w h =
      then-post_issues existing fs posted w (post_issue gh out existing f posted w)
        (post_issue-OpensIssue existing f posted w h) (λ n x k. post_issues-Posts existing fs n x k)

  -- The database does not change the calls.
  quiet : (w v : World) → v.calls ≡ w.calls → Posts gh 0 0 w v
  quiet w v e = Posts-refl gh w v e

  post_findings-Posts :
      (check_run_id review_id : ℕ) (w : World)
      → Posts gh 20 5 w (post_findings gh out check_run_id review_id w).1
  unfolding post_findings pending_inline_comments
  post_findings-Posts check_run_id review_id w =
      let fs = take max_comments_per_review (filter on_a_line out.findings) in
      let n = length fs in
      let known = query (Issues.issues_for_pr out.repo_id out.pr_number) in
      let commented = post_comments gh out fs in
      let state =
        set_pr_state out.repo_id out.pr_number out.head_sha (some review_id) (some check_run_id) in
      let done =
        (commented
            >> known
            >>= (λ existing. post_issues gh out existing out.findings 0)
            >> change_or_fail state)
          w in
      Posts-le gh w done.1 (n + 0 + 0 + 0) 20 (0 + 0 + 5 + 0) 5
        (omega (arith, length-take max_comments_per_review (filter on_a_line out.findings)))
        (ground arith)
        (then-Posts gh (n + 0 + 0) 0 (0 + 0 + 5) 0 w (λ _. change_or_fail state)
          ((commented >> known >>= λ existing. post_issues gh out existing out.findings 0) w)
          (then-Posts gh (n + 0) 0 (0 + 0) 5 w
            (λ existing. post_issues gh out existing out.findings 0) ((commented >> known) w)
            (then-Posts gh n 0 0 0 w (λ _. known) (commented w) (post_comments-Posts fs w)
              (λ _ x. quiet x x refl))
            (λ existing x. post_issues-Posts existing out.findings 0 x (ground arith)))
          (λ _ x. quiet x (change_or_fail state x).1 (settled-calls x (state x.store))))

  annotations-le : (fs : List FindingRecord) → length (annotations_of fs) ≤ 50
  unfolding annotations_of
  annotations-le fs =
      let some_of = filter on_a_line fs in
      omega (
        arith,
        length-map annotation_of (take max_annotations_per_run some_of),
        length-take max_annotations_per_run some_of,
      )

  -- For every pass and every behaviour of GitHub and of the database: to post a review posts at most 20
  -- inline comments and opens at most five issues; the check run has at most 50 annotations, and every
  -- text is within its limit.
  pub post_pr_review_limits : (w : World) → Posts gh 20 5 w (post_pr_review gh out w).1
  unfolding post_pr_review
  post_pr_review_limits w = elim (Bool-cases (str_eq out.skipped "")) [
    | inr e ↦ rw e (Posts-le gh w w 0 20 0 5 (ground arith) (ground arith) (quiet w w refl))
    | inl e ↦ rw e (
        then-Posts gh 0 20 0 5 w _ (perform gh.number (call_of gh out (check_run gh out)) w)
          (performed gh gh.number (call_of gh out (check_run gh out)) w
            (annotations-le out.findings))
          (λ check_run_id x.
            then-Posts gh 0 20 0 5 x (post_findings gh out check_run_id) _
              (performed gh gh.number
                (call_of gh out (create_review out.pr_number out.head_sha (build_summary_body out)))
                x (length-build_summary_body out))
              (post_findings-Posts check_run_id)))
  ]
