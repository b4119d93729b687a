-- ===== src/Tests/Worker.antt =====
-- A worker that takes the job of a pull request, with the pass of Tests/Passes.
use arcticworks_codepeer.Base.{◌≡◌, ◌≢◌, refl, none, some, [], ◌∷◌, All, arith}
use arcticworks_codepeer.Base.Text.{Text, codes}
use arcticworks_codepeer.Base.Result.{ok, err}
use arcticworks_codepeer.Domain.{job_analyze_pr}
use arcticworks_codepeer.Analysis.Gates.{new_pipeline}
use arcticworks_codepeer.Queue.{JobRow, Jobs, new_row, claim, dequeue, next_row, update_where}
use arcticworks_codepeer.Worker.Dispatch.{Decoders, Parts, Site, WorkError, dispatch}
use arcticworks_codepeer.Worker.Process.{process}
use arcticworks_codepeer.Worker.Process.Settles.{IsSettled, process_settles}
use arcticworks_codepeer.Tests.Config.{empty_cache, sample_decode}
use arcticworks_codepeer.Tests.Passes.{
  pass_store, pass_payload, pass_remote, pass_review, pass_compile, pass_hash, pass_focus,
  pass_order, no_glob,
}
use arcticworks_codepeer.Tests.Posting.{sample_github}
use arcticworks_codepeer.Tests.Queue.{free, same_delay}

abbrev pub sample_decoders : Decoders
sample_decoders = record {
  analyze_pr = λ t. some pass_payload;
  analyze_push = λ t. none;
  feedback = λ t. none;
  close_pr_issues = λ t. none;
  issue_command = λ t. none;
}

abbrev pub sample_parts : Parts
sample_parts = record {
  decoders = sample_decoders;
  glob = no_glob;
  hash = pass_hash;
  focus = pass_focus;
  review = pass_review;
  compile = pass_compile;
  order = pass_order;
  settings = new_pipeline;
  remote = λ w p. pass_remote;
  push_remote = λ w p. record { default_branch = ok "main"; diff = ok []; get_file = λ t. err [] };
  github = sample_github;
  key_order = λ keys. keys;
  decode_config = sample_decode;
  fetch_config = λ w owner repo ref. ok [];
  now = 100;
  later = 101;
}

abbrev pub sample_site : Site
sample_site = record { world = record { store = pass_store; calls = [] }; cache = empty_cache }

abbrev one_job : Jobs
one_job = record { rows = new_row 1 10 job_analyze_pr (codes "{}") ∷ []; next_id = 2 }

abbrev the_job : JobRow
the_job = claim 30 900 (new_row 1 10 job_analyze_pr (codes "{}"))

abbrev job_running : Jobs
job_running = record { rows = the_job ∷ []; next_id = 2 }

job_taken : dequeue free 30 900 one_job ≡ (some the_job, job_running)
unfolding dequeue next_row update_where
job_taken = refl

abbrev describe : WorkError → Text
describe e = codes "down"

process_settles_example :
    All
      (λ r. r.id ≡ 1 → IsSettled 40 r)
      (process describe same_delay 40 sample_parts the_job sample_site job_running).1.rows
    × ((dispatch sample_parts job_analyze_pr (codes "{}") sample_site).0 ≡ ok tt
        → All
            (λ r. r.id ≢ 1)
            (process describe same_delay 40 sample_parts the_job sample_site job_running).1.rows)
process_settles_example =
    process_settles describe same_delay 40 sample_parts free 30 900 one_job job_running the_job
      sample_site (tt, tt) (λ d. (omega arith, omega arith)) job_taken
