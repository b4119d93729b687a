-- ===== src/Worker/Process.antt =====
-- cmd/codepeer/main.go: `process`, and one turn of `loop`.
pub mod Settles
use arcticworks_codepeer.Base.{ℕ, Option, none, some, Bool}
use arcticworks_codepeer.Base.Text.{Text}
use arcticworks_codepeer.Base.Result.{Result, ok, err}
use arcticworks_codepeer.Queue as Queue
use arcticworks_codepeer.Queue.{JobRow, Jobs}
use arcticworks_codepeer.Worker.Dispatch.{Parts, Site, WorkError, dispatch}

-- `describe` is the text of an error, `jitter` the random factor of a delay, and `done_at` the clock when
-- the job has ended. The jobs are those that the table has then.
module _ (describe : WorkError → Text) (jitter : ℕ → ℕ) (done_at : ℕ) where
  ended : JobRow → Jobs → Result WorkError (Unit {0}) × Site → Site × Jobs
  ended job t (err e, site) = (site, Queue.fail jitter done_at job.id (describe e) t)
  ended job t (ok _, site) = (site, Queue.complete job.id t)

  unfoldable pub process : Parts → JobRow → Site → Jobs → Site × Jobs
  unfolding ended
  process parts job site t = ended job t (dispatch parts job.kind job.payload site)

  turn_of : Parts → Site → Option JobRow × Jobs → Site × Jobs
  unfolding process
  turn_of parts site (none, t) = (site, t)
  turn_of parts site (some job, t) = process parts job site t

  -- A turn of the loop: with nothing to do, it waits for the ticker.
  unfoldable pub turn : Parts → (ℕ → Bool) → ℕ → ℕ → Site → Jobs → Site × Jobs
  unfolding turn_of
  turn parts locked now ttl site t = turn_of parts site (Queue.dequeue locked now ttl t)
