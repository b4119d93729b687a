-- ===== src/Posting/Markdown/Bounds.antt =====
-- The texts that are posted are within the limits of GitHub.
use arcticworks_codepeer.Base.{
  ℕ, ◌+◌, ◌≤◌, ◌++◌, ltb, if◌then◌else◌, String, List, arith, length, take, length-take,
  length-append,
}
use arcticworks_codepeer.Base.Text.{Text, codes}
use arcticworks_codepeer.Domain.{FindingRecord}
use arcticworks_codepeer.Posting.Output.{ReviewOutput}
use arcticworks_codepeer.Posting.Markdown.{
  cap_string, summary_text, summary_limit, body_limit, build_summary_body, build_comment_body,
  build_issue_body, build_push_comment_body, issue_title,
}

length-cap_string : (s : Text) (max : ℕ) → length (cap_string s max) ≤ max
unfolding cap_string
length-cap_string s max = ground (arith, length-take max s)

length-cut :
    (s tail : Text) (n : ℕ)
    → length (if ltb n (length s) then take n s ++ tail else s) ≤ n + length tail
length-cut s tail n = ground (arith, length-take n s, length-append (take n s) tail)

pub length-build_summary_body : (out : ReviewOutput) → length (build_summary_body out) ≤ 65015
unfolding build_summary_body
length-build_summary_body out =
    length-cut (summary_text out) (codes "\n\n_(truncated)_") summary_limit

pub length-build_comment_body : (f : FindingRecord) → length (build_comment_body f) ≤ 30000
unfolding build_comment_body
length-build_comment_body f = length-cap_string _ body_limit

pub length-build_issue_body :
    (f : FindingRecord) (pr_number : ℕ) (owner repo : String)
    → length (build_issue_body f pr_number owner repo) ≤ 30000
unfolding build_issue_body
length-build_issue_body f pr_number owner repo = length-cap_string _ body_limit

pub length-build_push_comment_body :
    (fs : List FindingRecord) (sha : String) → length (build_push_comment_body fs sha) ≤ 30000
unfolding build_push_comment_body
length-build_push_comment_body fs sha = length-cap_string _ body_limit

pub length-issue_title : (f : FindingRecord) → length (issue_title f) ≤ 200
unfolding issue_title
length-issue_title f = length-cap_string _ 200
