-- ===== src/Lib.antt =====
-- CodePeer, a GitHub app that reviews pull requests and pushes: models of its webhook
-- handler, its job queue, its worker, its analysis pass, its posting, its clients, its configuration and
-- its store, with their properties.
--
-- A webhook is verified and puts a job in a queue; a worker takes it and runs one analysis pass. The
-- pass reads the repository's configuration, drops changes and files that it must not review, groups the
-- changed files in chunks, has specialist reviewers look at every chunk in parallel, merges what they
-- found, checks every finding against the diff, and stores the findings that are left. Posting writes
-- them to GitHub as a review, a check run and issues, and carries out the commands on an issue.
--
-- Files and code:
-- - Base: the shared names, and the parts of Go's standard library that the code uses. Base/Text is
--   package strings on lists of bytes (letters and blanks are ASCII), Base/Text/Decimal is
--   strconv.Itoa and Atoi, Base/Text/Hex is the decoder of package hex, Base/Action a method that
--   changes a state and may fail, Base/Sort is sort.SliceStable, Base/Assoc a map, Base/Int the type int.
-- - Domain: internal/domain/domain.go, its structs as records.
-- - Config: internal/config/codepeer.go. Config/Cache is RepoConfigCache, Config/Paths PathIgnored.
--   Config/Dotenv and Config/Env are internal/config/dotenv.go and env.go.
-- - Analysis/Findings: SeverityRank, normalizeTitle and dedupeFindings of
--   internal/analysis/pipeline.go. Findings/Reference merges without the index map.
-- - Analysis/Caps: applyCaps of internal/analysis/pipeline.go.
-- - Analysis/Diff: internal/analysis/diff.go.
-- - Analysis/Chunk: internal/analysis/chunk.go; the variables of its loop are a record.
-- - Analysis/Gates: the tests of internal/analysis/pipeline.go and skip.go on users, titles, branches,
--   modes and files.
-- - Analysis/Agents: internal/analysis/agents.go, runAgents and runChunks.
-- - Analysis/Finish: the pure part of finish.
-- - Analysis/Runs: recoverRun, and the calls of the store in AnalyzePR and finish.
-- - Analysis/Pass: AnalyzePR as a whole, over GitHub's answers.
-- - Analysis/Push: AnalyzePush.
-- - Analysis/Context: internal/analysis/context.go.
-- - Queue: internal/queue/queue.go on the rows of the jobs table; Queue/Invariant has its statements as
--   steps of a history.
-- - Store: internal/store/store.go, one operation per method, on lists of rows with the unique keys and
--   references of internal/store/migrations. Store/Migrate is internal/store/migrations.go.
-- - Webhook: internal/httpapi/handler.go. Webhook/Events are the payloads, Webhook/Handlers the handlers
--   of the events, Webhook/Receive the receiver, Webhook/Signature internal/githubx/signature.go.
-- - Llm: internal/llm. Llm/Chat is the request and its retries, Llm/Prompt the texts that are sent,
--   Llm/Escape the repair of JSON, Llm/Escape/Reading a reader of its literals, Llm/Validate the checks of
--   a result, Llm/Review the calls as a whole.
-- - Githubx: internal/githubx/client.go, gitdata.go and auth.go. Githubx/Retry is doWithRetry,
--   Githubx/Pages the loop over pages, Githubx/Client the calls whose answer is judged,
--   Githubx/Payload what is sent, Githubx/Auth the tokens, Githubx/Operations and Githubx/Gitdata every
--   operation with the token that it takes, Githubx/Install install.go.
-- - Posting: internal/posting. Posting/World is the store and the calls of GitHub, Posting/Review and
--   Posting/Push are poster.go, Posting/Approve is approve.go, Posting/Markdown markdown.go.
-- - Worker: the loop of cmd/codepeer/main.go, one turn of which is a step; Worker/Dispatch has the pass
--   and the posting of a job, Worker/Process the end of the job.
-- - App: what run of cmd/codepeer/main.go starts: requests, workers, the reaper and syncs, as steps in any
--   order on one state. A pass with its posting is one step; the two updates of a failed job are two.
-- - Commands: Commands/Sync is the loop of cmd/codepeer/sync.go, Commands/Check the report of
--   cmd/codepeer/check.go, Commands/Score how cmd/eval/main.go scores a review.
-- - Tests: the theorems at concrete inputs.
--
-- Every loop is structural recursion on the list that the source ranges over, or on the number of
-- attempts that are left. Only the loop over GitHub's pages has fuel: n / 100 + 2 pages are
-- enough for n files. A Go int is an integer, with its wrap-around where the code can
-- reach it (NewLineInDiff, Atoi). Counts and identifiers that GitHub and Postgres hand out are natural
-- numbers.
--
-- Parameters stand for code outside the repository: doublestar.Match, SHA-256 and HMAC, the decoders of
-- YAML, JSON and base64, go-github, the SQL of a migration, the answers that check
-- probes, the HTTP client of the reviewer, the clock, and the random factor of
-- a delay. GitHub's answer to a call may depend on the calls before it. The goroutines of runAgents each
-- take the lock once, so a run is given by the order in which they take it.
--
-- SQL statements are atomic, and times are numbers. In the histories of Queue/Invariant and App
-- the two updates of Fail are two steps; one turn of the worker in Worker/Process has no other statement
-- between them. The store has the errors of its constraints, not those of the connection.
--
-- Not modelled, since they are I/O or the set-up of other libraries: New, SetHTTPClient and
-- SetInstallation of internal/githubx; the webhook command, the set-up of run and of the commands, the
-- reading of the evaluation's cases and the ratios that are printed; the parts of the worker that start
-- and stop it; the pauses between calls of GitHub; errors of the connection to the database.
pub mod Base
pub mod Domain
pub mod Config
pub mod Analysis
pub mod Queue
pub mod Store
pub mod Webhook
pub mod Llm
pub mod Githubx
pub mod Posting
pub mod Worker
pub mod App
pub mod Commands
pub mod Tests
