-- ===== src/App.antt =====
-- cmd/codepeer/main.go: what `run` starts, as one state with its steps. The HTTP server receives requests,
-- each worker takes a job and finishes it, the reaper puts jobs with an old lease back, and the receiver's
-- goroutines sync repositories. The steps come in any order and at any times; a request, a pass with its
-- posting, and a sync are one step each. The two updates of a failed job are two steps.
pub mod Invariant
pub mod Hands
pub mod Decodes
use arcticworks_codepeer.Base.{
  ℕ, ◌≡◌, String, Bool, true, false, not, ◌++◌, ◌&&◌, Option, none, some, List, [], ◌∷◌, Memᴰ,
  if◌then◌else◌, length, filter, leb, ◌==◌,
}
use arcticworks_codepeer.Base.Text.{Text}
use arcticworks_codepeer.Base.Result.{Result, ok, err}
use arcticworks_codepeer.Domain.{Repo}
use arcticworks_codepeer.Config.Cache.{RepoConfigCache}
use arcticworks_codepeer.Store.{Store}
use arcticworks_codepeer.Queue.{JobRow, Jobs, dequeue, complete, reschedule, give_up, reap_expired}
use arcticworks_codepeer.Queue.Invariant.{empty}
use arcticworks_codepeer.Webhook.{Json, Server}
use arcticworks_codepeer.Webhook.Signature.{verify_signature}
use arcticworks_codepeer.Webhook.Handlers.{sync_repos}
use arcticworks_codepeer.Webhook.Receive.{Request, max_body_bytes, handle_webhook}
use arcticworks_codepeer.Webhook.Once.{is_known}
use arcticworks_codepeer.Posting.World.{Call}
use arcticworks_codepeer.Worker.Dispatch.{Parts, Site, WorkError, dispatch}

-- A job in a worker's hands. If the first update of Fail has changed no row, it has the message that the
-- second update is to store.
pub record Hand : Type 0 where
  pub job : JobRow
  pub giving_up : Option Text

abbrev pub at_work : JobRow → Hand
at_work j = record { job = j; giving_up = none }

abbrev pub failing : JobRow → Text → Hand
failing j message = record { job = j; giving_up = some message }

-- The server with its store and jobs, the calls of GitHub so far, the cache of configurations, and the
-- jobs that workers have in hand.
pub record App : Type 0 where
  pub server : Server
  pub calls : List Call
  pub cache : RepoConfigCache
  pub hands : List Hand

abbrev pub started_with : Store → RepoConfigCache → App
started_with s cache = record {
  server = record { store = s; jobs = empty; syncs = [] };
  calls = [];
  cache = cache;
  hands = [];
}

abbrev pub with_jobs : App → Jobs → App
with_jobs app t = record app { server = record app.server { jobs = t } }

taken : App → Option JobRow × Jobs → App
taken app (none, t) = with_jobs app t
taken app (some j, t) = record app {
  server = record app.server { jobs = t };
  hands = at_work j ∷ app.hands;
}

-- `Dequeue` in the loop of a worker.
unfoldable pub take_job : (ℕ → Bool) → ℕ → ℕ → App → App
unfolding taken
take_job locked now ttl app = taken app (dequeue locked now ttl app.server.jobs)

abbrev pub site_of : App → Site
site_of app = record {
  world = record { store = app.server.store; calls = app.calls };
  cache = app.cache;
}

-- The hands after the first update: `before` and `after` are those of the other workers.
tried : JobRow → Text → List Hand → List Hand → Bool × Jobs → List Hand × Jobs
tried j message before after (true, t) = (before ++ after, t)
tried j message before after (false, t) = (before ++ failing j message ∷ after, t)

-- The end of a job: its row is removed, or put back for a retry at the time `at`, which comes from the
-- attempts that Fail has read.
closed :
    (WorkError → Text)
    → ℕ
    → JobRow
    → List Hand
    → List Hand
    → Jobs
    → Result WorkError (Unit {0})
    → List Hand × Jobs
unfolding tried
closed describe at j before after t (ok done) = (before ++ after, complete j.id t)
closed describe at j before after t (err e) =
    tried j (describe e) before after (reschedule at j.id (describe e) t)

finished : App → Site → List Hand × Jobs → App
finished app site (hands, t) = record app {
  server = record app.server { store = site.world.store; jobs = t };
  calls = site.world.calls;
  cache = site.cache;
  hands = hands;
}

-- `process` of a job in hand, up to the second update of Fail.
unfoldable pub finish_job :
    (WorkError → Text) → ℕ → Parts → JobRow → List Hand → List Hand → App → App
unfolding finished closed
finish_job describe at parts j before after app =
    let (r, site) = dispatch parts j.kind j.payload (site_of app) in
    finished app site (closed describe at j before after app.server.jobs r)

-- The second update of Fail.
unfoldable pub give_up_job : JobRow → Text → List Hand → List Hand → App → App
give_up_job j message before after app =
    record (with_jobs app (give_up j.id message app.server.jobs)) { hands = before ++ after }

unfoldable pub reap : ℕ → App → App
reap now app = with_jobs app (reap_expired now app.server.jobs).0

-- A goroutine of `syncRepos`, with what ListInstallationRepos returns.
unfoldable pub sync : Result Text (List Repo) → App → App
sync listed app = record app {
  server = record app.server { store = sync_repos listed app.server.store };
}

-- A step of the workers, the reaper or a sync; `reaping` says whether leases are reaped in the history.
pub data Step (reaping : Bool) : App → App → Type 0 where
  takes :
      (locked : ℕ → Bool) (now ttl : ℕ) (app : App) → Step reaping app (take_job locked now ttl app)
  finishes :
      (describe : WorkError → Text) (at : ℕ) (parts : Parts) (j : JobRow) (before after : List Hand)
      (app : App)
      → app.hands ≡ before ++ at_work j ∷ after
      → Step reaping app (finish_job describe at parts j before after app)
  gives_up :
      (j : JobRow) (message : Text) (before after : List Hand) (app : App)
      → app.hands ≡ before ++ failing j message ∷ after
      → Step reaping app (give_up_job j message before after app)
  reaps : reaping ≡ true → (now : ℕ) (app : App) → Step reaping app (reap now app)
  syncs : (listed : Result Text (List Repo)) (app : App) → Step reaping app (sync listed app)

module _ (hmac : Text → Text → Text) (secret : Text) (json : Json) (self : String) where
  unfoldable pub receive : ℕ → Request → App → App
  receive now r app = record app {
    server = (handle_webhook hmac secret json self now r app.server).1;
  }

  -- Whether a request is dispatched: read, signed, and new.
  abbrev pub is_accepted : Request → Store → Bool
  is_accepted r s =
      leb (length r.body) max_body_bytes
      && verify_signature hmac secret r.body r.signature
      && not (is_known r.delivery s)

  -- The accepted requests, the last one first.
  abbrev pub heard : Request → Store → List Request → List Request
  heard r s log = if is_accepted r s then r ∷ log else log

  -- The states that a history can lead to, with the requests that were accepted in it.
  pub data Reachable (reaping : Bool) : List Request → App → Type 0 where
    starts : (s : Store) (cache : RepoConfigCache) → Reachable reaping [] (started_with s cache)
    receives :
        {log : List Request} {app : App}
        → Reachable reaping log app
        → (now : ℕ) (r : Request)
        → Reachable reaping (heard r app.server.store log) (receive now r app)
    follows :
        {log : List Request} {app app' : App}
        → Reachable reaping log app
        → Step reaping app app'
        → Reachable reaping log app'
