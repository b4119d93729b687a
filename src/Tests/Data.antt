-- ===== src/Tests/Data.antt =====
-- The inputs of the tests: findings on two files of a diff, and files of a change.
use arcticworks_codepeer.Base.{ℕ, String, pos, true, false, some, List, [], ◌∷◌}
use arcticworks_codepeer.Base.Text.{Text, codes}
use arcticworks_codepeer.Base.Assoc.{Assoc}
use arcticworks_codepeer.Domain.{Finding, ChangedFile, ReviewRequest}

abbrev pub finding_at : String → ℕ → String → String → Finding
finding_at file line severity title = record {
  id = "f";
  file = codes file;
  line = pos line;
  severity = severity;
  category = "bug";
  title = codes title;
  body = codes "why";
  suggestion = some (record { old = codes "x := 1"; new = codes "x := 2" });
  confidence = pos 900000;
  actionable = true;
}

-- Two findings have one key, since their titles differ in case and punctuation alone.
abbrev pub sample_findings : List Finding
sample_findings =
    finding_at "b.go" 2 "low" "Leak!"
    ∷ finding_at "a.go" 2 "medium" "Null deref"
    ∷ finding_at "b.go" 2 "critical" "leak"
    ∷ finding_at "a.go" 9 "nit" "Name"
    ∷ finding_at "c.go" 1 "high" "Other"
    ∷ []

abbrev pub sample_diff : Assoc Text
sample_diff =
    (codes "a.go", codes "@@ -1,2 +1,3 @@\n a\n+x := 1\n b")
    ∷ (codes "b.go", codes "@@ -1,2 +1,3 @@\n a\n+x := 1\n b")
    ∷ []

abbrev pub file_of : String → ℕ → ℕ → ChangedFile
file_of path additions deletions = record {
  path = codes path;
  status = "modified";
  additions = additions;
  deletions = deletions;
  patch = [];
}

abbrev pub sample_files : List ChangedFile
sample_files = file_of "a.go" 10 2 ∷ file_of "b.go" 2000 0 ∷ file_of "c.go" 1400 100 ∷ []

abbrev pub sample_request : ReviewRequest
sample_request = record {
  repo_owner = "o";
  repo_name = "r";
  pr_number = 7;
  pr_title = codes "Fix";
  pr_body = [];
  head_sha = "abc";
  diff = [];
  files = sample_files;
  context = [];
  instructions = [];
  config = record {
    strictness = "balanced";
    max_findings = pos 10;
    per_file_cap = pos 3;
    include_nits = false;
    custom_instructions = [];
  };
  focus = [];
}
