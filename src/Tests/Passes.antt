-- ===== src/Tests/Passes.antt =====
-- A pass over a pull request with one file, in a store with its repository.
use arcticworks_codepeer.Base.{
  ℕ, String, Bool, true, false, Option, none, some, List, [], ◌∷◌, arith,
}
use arcticworks_codepeer.Base.Text.{Text, codes, text_eq}
use arcticworks_codepeer.Base.Result.{Result, ok, err}
use arcticworks_codepeer.Domain.{
  AnalyzePrPayload, CompileInput, PrInfo, ReviewRequest, ReviewResult, status_changes_requested,
}
use arcticworks_codepeer.Store.{Store, empty_store}
use arcticworks_codepeer.Analysis.Gates.{new_pipeline}
use arcticworks_codepeer.Analysis.Agents.{Job}
use arcticworks_codepeer.Analysis.Pass.{Remote, analyze_pr}
use arcticworks_codepeer.Analysis.Pass.Outcome.{IsOutcome, analyze_pr-IsOutcome}
use arcticworks_codepeer.Tests.Data.{file_of, sample_findings}

abbrev pub pass_store : Store
pass_store = record empty_store {
  repos =
      record {
        id = 5;
        installation_id = 1;
        owner = "o";
        name = "r";
        default_branch = "main";
        enabled = true;
        config = none;
      }
      ∷ [];
}

abbrev pub pass_payload : AnalyzePrPayload
pass_payload = record {
  installation_id = 1;
  repo_id = 5;
  repo_owner = "o";
  repo_name = "r";
  pr_number = 7;
  head_sha = "abc";
  action = "opened";
  sender_login = "ann";
}

abbrev pub pass_pr : PrInfo
pass_pr = record {
  number = 7;
  title = codes "Fix";
  body = [];
  state = "open";
  draft = false;
  head_sha = "abc";
  base_ref = "main";
  head_ref = "fix";
  user_login = "ann";
  merged = false;
}

abbrev pub pass_remote : Remote
pass_remote = record {
  pr = ok pass_pr;
  raw_diff = ok (codes "diff --git a/a.go b/a.go\n@@ -1,2 +1,3 @@\n a\n+x := 1\n b");
  files = ok (file_of "a.go" 1 0 ∷ []);
  get_file = λ path. ok (codes "x := 1");
}

abbrev pub pass_review : ReviewRequest → Job → ℕ → Result Text ReviewResult
pass_review req j n =
    ok (record { summary = []; status = status_changes_requested; findings = sample_findings })

abbrev pub pass_compile : CompileInput → Result Text ReviewResult
pass_compile c = err (codes "no lead")

abbrev pub no_glob : Text → Text → Option Bool
no_glob pattern path = some (text_eq pattern path)

abbrev pub pass_hash : Text → String
pass_hash t = "0"

abbrev pub pass_focus : String → Text
pass_focus name = codes name

abbrev pub pass_order : List Job
pass_order =
    record {
      spec = none;
      chunk = record { files = file_of "a.go" 1 0 ∷ []; diff_text = codes "+x := 1" };
    }
    ∷ []

analyze_pr-IsOutcome_example : IsOutcome pass_remote pass_store (
    analyze_pr no_glob pass_hash pass_focus pass_review pass_compile pass_order new_pipeline
      pass_remote pass_payload pass_store)
analyze_pr-IsOutcome_example =
    analyze_pr-IsOutcome no_glob pass_hash pass_focus pass_review pass_compile pass_order
      new_pipeline pass_remote pass_payload pass_store (omega arith, tt)
