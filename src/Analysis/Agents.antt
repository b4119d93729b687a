-- ===== src/Analysis/Agents.antt =====
-- internal/analysis/agents.go and pipeline.go: the specialist agents, `runAgents` and `runChunks`.
-- The reviews run in parallel; each takes the lock once to record what it found. So a run is given by
-- the order in which the jobs take the lock, and a job that the context cancels before it gets a slot is
-- not in it. The reviewer is the parameter `review`: its answer to the first and the second call of a job.
pub mod Schedule
use arcticworks_codepeer.Base.{
  ℕ, zero, suc, ◌+◌, String, Bool, true, false, not, Option, none, some, List, [], ◌∷◌, ◌++◌, map,
  if◌then◌else◌, is_nil, cons_some, str_eq,
}
use arcticworks_codepeer.Base.Text.{Text}
use arcticworks_codepeer.Base.Assoc.{Assoc}
use arcticworks_codepeer.Base.Result.{Result, ok, err}
use arcticworks_codepeer.Domain.{Finding, ReviewResult, ReviewRequest, CompileInput, ChangedFile}
use arcticworks_codepeer.Analysis.Findings.{dedupe_findings}
use arcticworks_codepeer.Analysis.Chunk.{Chunk, chunk_files}
use arcticworks_codepeer.Analysis.Finish.{ChunkOutcome, all_findings}

-- The block of the prompt is a constant for each agent that the model does not look into.
pub record AgentSpec : Type 0 where
  pub name : String
  pub category : String
  pub focus : Text

unfoldable pub agent_spec : (String → Text) → String → Option AgentSpec
agent_spec focus name =
    if str_eq name "security"
    then some (record { name = name; category = "security"; focus = focus name })
    else if str_eq name "correctness"
    then some (record { name = name; category = "bug"; focus = focus name })
    else if str_eq name "performance"
    then some (record { name = name; category = "performance"; focus = focus name })
    else if str_eq name "maintainability"
    then some (record { name = name; category = "maintainability"; focus = focus name })
    else if str_eq name "ux"
    then some (record { name = name; category = "other"; focus = focus name })
    else none

unfoldable pub agent_specs : (String → Text) → List String → List AgentSpec
agent_specs focus [] = []
agent_specs focus (n ∷ names) = cons_some (agent_spec focus n) (agent_specs focus names)

-- A job of `runAgents` has a specialist; one of `runChunks` has none.
pub record Job : Type 0 where
  pub spec : Option AgentSpec
  pub chunk : Chunk

unfoldable pub agent_jobs : List AgentSpec → List Chunk → List Job
agent_jobs [] chunks = []
agent_jobs (s ∷ specs) chunks =
    map (λ c. record { spec = some s; chunk = c }) chunks ++ agent_jobs specs chunks

unfoldable pub chunk_jobs : List Chunk → List Job
chunk_jobs chunks = map (λ c. record { spec = none; chunk = c }) chunks

unfoldable pub job_request : ReviewRequest → Job → ReviewRequest
job_request base j = elim j.spec [
  | none ↦ record base { diff = j.chunk.diff_text; files = j.chunk.files }
  | some s ↦ record base { diff = j.chunk.diff_text; files = j.chunk.files; focus = s.focus }
]

-- The findings of a specialist are filed under its category.
unfoldable pub set_category : Option AgentSpec → ReviewResult → ReviewResult
set_category none r = r
set_category (some s) r = if str_eq s.category "" then r else record r {
  findings = map (λ (f : Finding). record f { category = s.category }) r.findings;
}

unfoldable pub file_paths : List ChangedFile → List Text
file_paths files = map (λ f. f.path) files

-- What the lock protects: the outcome so far, and the first error.
pub record Recorded : Type 0 where
  pub results : List ReviewResult
  pub failed : ℕ
  pub failed_files : List Text
  pub first_err : Option Text

abbrev pub nothing_recorded : Recorded
nothing_recorded = record { results = []; failed = 0; failed_files = []; first_err = none }

abbrev pub or_else : Option Text → Text → Option Text
or_else none e = some e
or_else (some d) e = some d

unfoldable pub record_review : Recorded → Job → Result Text ReviewResult → Recorded
record_review r j (ok res) = record r { results = r.results ++ res ∷ [] }
record_review r j (err e) = record r {
  failed = r.failed + 1;
  failed_files = r.failed_files ++ file_paths j.chunk.files;
  first_err = or_else r.first_err e;
}

module _ (review : ReviewRequest → Job → ℕ → Result Text ReviewResult) (base : ReviewRequest) where
  retried : Job → Result Text ReviewResult → Result Text ReviewResult
  retried j (ok res) = ok res
  retried j (err e) = review (job_request base j) j 1

  filed : Job → Result Text ReviewResult → Result Text ReviewResult
  filed j (ok res) = ok (set_category j.spec res)
  filed j (err e) = err e

  -- The review of a job: an error is retried once.
  unfoldable pub run_job : Job → Result Text ReviewResult
  unfolding retried filed
  run_job j = filed j (retried j (review (job_request base j) j 0))

  -- The jobs take the lock in the order of the list.
  unfoldable pub run_jobs : Recorded → List Job → Recorded
  run_jobs r [] = r
  run_jobs r (j ∷ order) = run_jobs (record_review r j (run_job j)) order

outcome_of : Recorded → Option ReviewResult → ChunkOutcome
outcome_of r compiled = record {
  results = r.results;
  failed = r.failed;
  failed_files = r.failed_files;
  compiled = compiled;
}

-- With no result the first error is returned, if a job failed at all.
empty_outcome : Recorded → Option Text → Result Text ChunkOutcome
unfolding outcome_of
empty_outcome r none = ok (outcome_of r none)
empty_outcome r (some e) = err e

-- The end of `runChunks`.
unfoldable pub conclude_chunks : Recorded → Result Text ChunkOutcome
unfolding empty_outcome
conclude_chunks r = if is_nil r.results then empty_outcome r r.first_err else ok (outcome_of r none)

unfoldable pub compile_input : ReviewRequest → List ReviewResult → CompileInput
compile_input base results = record {
  repo_owner = base.repo_owner;
  repo_name = base.repo_name;
  pr_number = base.pr_number;
  pr_title = base.pr_title;
  pr_body = base.pr_body;
  head_sha = base.head_sha;
  files = base.files;
  candidates = dedupe_findings (all_findings results);
  config = base.config;
}

compiled_or_none : Result Text ReviewResult → Option ReviewResult
compiled_or_none (ok r) = some r
compiled_or_none (err e) = none

-- The end of `runAgents`: a compile that fails leaves the outcome without a compiled result.
unfoldable pub conclude_agents :
    (CompileInput → Result Text ReviewResult) → ReviewRequest → Recorded → Result Text ChunkOutcome
unfolding empty_outcome compiled_or_none
conclude_agents compile base r =
    if is_nil r.results
    then empty_outcome r r.first_err
    else ok (outcome_of r (compiled_or_none (compile (compile_input base r.results))))

-- The jobs of a run, and its end, for a list of agents.
unfoldable pub planned_jobs :
    (String → Text) → List String → List ChangedFile → Assoc Text → List Job
planned_jobs focus agents files diff_by_file =
    if is_nil (agent_specs focus agents)
    then chunk_jobs (chunk_files files diff_by_file)
    else agent_jobs (agent_specs focus agents) (chunk_files files diff_by_file)

-- runAgents, for the order in which the jobs take the lock.
unfoldable pub run_agents :
    (ReviewRequest → Job → ℕ → Result Text ReviewResult)
    → (CompileInput → Result Text ReviewResult)
    → (String → Text)
    → ReviewRequest
    → List String
    → List Job
    → Result Text ChunkOutcome
run_agents review compile focus base agents order =
    if is_nil (agent_specs focus agents)
    then conclude_chunks (run_jobs review base nothing_recorded order)
    else conclude_agents compile base (run_jobs review base nothing_recorded order)
