-- ===== src/Tests/Posting.antt =====
-- A review that is posted, and an issue that is approved twice, with a GitHub that answers every call.
use arcticworks_codepeer.Base.{
  ℕ, ◌+◌, ◌≤◌, ◌<◌, ◌≡◌, String, true, none, some, List, [], ◌∷◌, ◌++◌, arith, length,
}
use arcticworks_codepeer.Base.Text.{Text, codes}
use arcticworks_codepeer.Base.Result.{ok}
use arcticworks_codepeer.Domain.{Repo, IssueRecord, IssueCommandPayload, FindingRecord}
use arcticworks_codepeer.Store.{Store, empty_store}
use arcticworks_codepeer.Store.Findings.{record_of}
use arcticworks_codepeer.Store.Runs.{new_run}
use arcticworks_codepeer.Posting.Output.{ReviewOutput}
use arcticworks_codepeer.Posting.World.{Github, Call, World}
use arcticworks_codepeer.Posting.Trace.{Posts, succeeded}
use arcticworks_codepeer.Posting.Review.{post_pr_review}
use arcticworks_codepeer.Posting.Review.Limits.{post_pr_review_limits}
use arcticworks_codepeer.Posting.Approve.Quiet.{prs_in, mark}
use arcticworks_codepeer.Posting.Approve.Once.{run_commands, run_commands_open_one}
use arcticworks_codepeer.Tests.Data.{finding_at}

abbrev pub sample_github : Github
sample_github = record {
  self_login = "bot";
  number = λ h c. ok (length h + 1);
  name = λ h c. ok "sha";
  content = λ h c. ok (codes "a\nx := 1\nb");
  reactions = λ h c. ok [];
  done = λ h c. ok tt;
}

abbrev leak : FindingRecord
leak = record (record_of 1 1 "h" (finding_at "a.go" 2 "high" "Leak")) { issue_number = 4 }

abbrev sample_repo : Repo
sample_repo = record {
  id = 5;
  installation_id = 1;
  owner = "o";
  name = "r";
  default_branch = "main";
  enabled = true;
  config = none;
}

abbrev sample_issue : IssueRecord
sample_issue = record {
  id = 1;
  repo_id = 5;
  number = 4;
  title = codes "CodePeer: Leak";
  kind = "finding";
  pr_number = 7;
  finding_ids = "h" ∷ [];
  status = "open";
  fix_pr_number = 0;
}

abbrev sample_store : Store
sample_store = record empty_store {
  repos = sample_repo ∷ [];
  runs = new_run 1 5 "pr" "abc" (some 7) ∷ [];
  findings = leak ∷ [];
  issues = sample_issue ∷ [];
}

abbrev sample_world : World
sample_world = record { store = sample_store; calls = [] }

abbrev sample_output : ReviewOutput
sample_output = record {
  repo_owner = "o";
  repo_name = "r";
  repo_id = 5;
  pr_number = 8;
  head_sha = "abc";
  result = record { summary = codes "One leak."; status = "changes_requested"; findings = [] };
  findings = leak ∷ [];
  skipped = "";
  partial_files = [];
}

post_pr_review_limits_example :
    Posts sample_github 20 5 sample_world
      (post_pr_review sample_github sample_output sample_world).1
post_pr_review_limits_example = post_pr_review_limits sample_github sample_output sample_world

abbrev sample_payload : IssueCommandPayload
sample_payload = record {
  installation_id = 1;
  repo_id = 5;
  repo_owner = "o";
  repo_name = "r";
  issue_number = 4;
  command = codes "approve";
  sender_login = "dev";
}

numbers-positive : (h : List Call) (c : Call) (n : ℕ) → sample_github.number h c ≡ ok n → 0 < n
numbers-positive h c n e = ground arith

abbrev twice : List (Text × String)
twice = (codes "approve", "dev") ∷ (codes "approve", "dev") ∷ []

run_commands_open_one_example :
    (cs : List Call) × ((run_commands sample_github sample_payload twice sample_world).calls
      ≡ sample_world.calls ++ cs)
    × (succeeded sample_github prs_in sample_world.calls cs + mark 5 4 sample_store ≤ 1)
run_commands_open_one_example =
    run_commands_open_one sample_github numbers-positive sample_payload twice sample_world
