-- ===== src/Posting/Push.antt =====
-- internal/posting/poster.go: `PostPush`, `ClosePRIssues` and `LearnSweep`.
use arcticworks_codepeer.Base.{
  ℕ, suc, String, Bool, not, ◌&&◌, ◌||◌, Option, none, some, List, [], ◌∷◌, ◌++◌, ℤ, pos, negsuc,
  leb, ◌==◌, if◌then◌else◌, is_nil, take, filter, str_eq,
}
use arcticworks_codepeer.Base.Text.{Text, codes, has_suffix}
use arcticworks_codepeer.Base.Text.Decimal.{print_ℕ}
use arcticworks_codepeer.Base.Result.{Result, ok, err}
use arcticworks_codepeer.Base.Action.{pure, fail, attempt, ◌>>=◌, ◌>>◌}
use arcticworks_codepeer.Domain.{FeedbackPayload, FindingRecord, IssueRecord, Reaction}
use arcticworks_codepeer.Store.Findings.{set_finding_issue}
use arcticworks_codepeer.Store.Issues as Issues
use arcticworks_codepeer.Store.Learnings.{learning_keys_for_comments, upsert_learning}
use arcticworks_codepeer.Posting.Output.{ReviewOutput}
use arcticworks_codepeer.Posting.Markdown.{build_push_comment_body}
use arcticworks_codepeer.Posting.World.{
  Github, Request, create_issue, add_issue_comment, edit_issue, get_reactions, Call, PostError,
  no_rolling_issue, Posting, perform, query, change, change_or_fail,
}

abbrev pub max_push_findings : ℕ
max_push_findings = 10

abbrev pub max_close_issues : ℕ
max_close_issues = 10

abbrev pub max_learn_comments : ℕ
max_learn_comments = 50

abbrev rolling_title : Text
rolling_title = codes "CodePeer Rolling Analysis"

abbrev is_new : IssueRecord → FindingRecord → Bool
is_new rolling f =
    (str_eq f.severity "critical" || str_eq f.severity "high" || str_eq f.severity "medium")
    && not (f.issue_number == rolling.number)

found_or_fail : Option IssueRecord → Posting IssueRecord
found_or_fail none = fail no_rolling_issue
found_or_fail (some i) = pure i

set_finding_issues : ℕ → List FindingRecord → Posting (Unit {0})
set_finding_issues number [] = pure tt
set_finding_issues number (f ∷ fs) =
    change (set_finding_issue f.id number) >> set_finding_issues number fs

module _ (gh : Github) (out : ReviewOutput) where
  abbrev push_call : Request → Call
  push_call r = record { owner = out.repo_owner; repo = out.repo_name; request = r }

  -- The rolling issue, opened if there is none.
  rolling_issue : Option IssueRecord → Posting IssueRecord
  unfolding found_or_fail
  rolling_issue (some i) = pure i
  rolling_issue none =
      perform gh.number (
        push_call (
          create_issue rolling_title
            (codes
              "Rolling findings from push-mode analysis. Each comment below corresponds to a push.")
            ("codepeer" ∷ [])))
      >>= (λ num.
          change_or_fail (Issues.create_issue out.repo_id num rolling_title "rolling" none []))
      >> query (Issues.open_issue_for_repo out.repo_id "rolling")
      >>= found_or_fail

  comment_on : IssueRecord → Posting (Unit {0})
  unfolding set_finding_issues
  comment_on rolling =
      let new = take max_push_findings (filter (is_new rolling) out.findings) in
      if is_nil new
      then pure tt
      else perform gh.done
          (push_call (add_issue_comment rolling.number (build_push_comment_body new out.head_sha)))
        >> set_finding_issues rolling.number new

  unfoldable pub post_push : Posting (Unit {0})
  unfolding rolling_issue comment_on
  post_push =
      if not (str_eq out.skipped "")
      then pure tt
      else query (Issues.open_issue_for_repo out.repo_id "rolling") >>= rolling_issue >>= comment_on

module _ (gh : Github) (repo_id : ℕ) (owner repo : String) (pr_number : ℕ) where
  abbrev pr_call : Request → Call
  pr_call r = record { owner = owner; repo = repo; request = r }

  abbrev resolved_text : Text
  resolved_text =
      codes "The PR was merged or closed. Resolved by #" ++ (print_ℕ pr_number ++ codes ".")

  -- The body of the loop, with the number of issues that are closed.
  close_one : IssueRecord → ℕ → Posting ℕ
  close_one issue closed =
      if not (str_eq issue.kind "finding")
        || str_eq issue.status "closed"
        || leb max_close_issues closed
      then pure closed
      else perform gh.done (pr_call (add_issue_comment issue.number resolved_text))
        >> perform gh.done (pr_call (edit_issue issue.number "closed"))
        >> change (Issues.close_issue repo_id issue.number)
        >> pure (suc closed)

  close_each : List IssueRecord → ℕ → Posting (Unit {0})
  unfolding close_one
  close_each [] closed = pure tt
  close_each (i ∷ issues) closed = close_one i closed >>= close_each issues

  unfoldable pub close_pr_issues : Posting (Unit {0})
  unfolding close_each
  close_pr_issues = query (Issues.issues_for_pr repo_id pr_number) >>= λ issues. close_each issues 0

abbrev counts : String → Reaction → Bool
counts self r =
    not (str_eq r.user "" || str_eq r.user self || has_suffix (codes r.user) (codes "[bot]"))

-- `order` is the order in which Go's loop takes the keys of the map.
module _ (gh : Github) (order : List (ℕ × String) → List (ℕ × String))
    (payload : FeedbackPayload) where
  learn : String → String → ℤ → Posting (Unit {0})
  learn key signal delta =
      attempt (change_or_fail (upsert_learning payload.repo_id key signal delta)) >> pure tt

  learn_reaction : String → Reaction → Posting (Unit {0})
  unfolding learn
  learn_reaction key r =
      if not (counts gh.self_login r)
      then pure tt
      else if str_eq r.content "+1"
      then learn key "up" (pos 1)
      else if str_eq r.content "-1"
      then learn key "down" (negsuc 1)
      else pure tt

  learn_reactions : String → Result PostError (List Reaction) → Posting (Unit {0})
  unfolding learn_reaction
  learn_reactions key (err e) = pure tt
  learn_reactions key (ok []) = pure tt
  learn_reactions key (ok (r ∷ rs)) = learn_reaction key r >> learn_reactions key (ok rs)

  learn_comments : List (ℕ × String) → Posting (Unit {0})
  unfolding learn_reactions
  learn_comments [] = pure tt
  learn_comments ((comment_id, key) ∷ keys) =
      attempt (
        perform gh.reactions (record {
          owner = payload.repo_owner;
          repo = payload.repo_name;
          request = get_reactions comment_id;
        }))
      >>= learn_reactions key
      >> learn_comments keys

  unfoldable pub learn_sweep : Posting (Unit {0})
  unfolding learn_comments
  learn_sweep = query (learning_keys_for_comments payload.repo_id payload.pr_number) >>= λ keys.
      learn_comments (take max_learn_comments (order keys))
