-- ===== src/App/Decodes.antt =====
-- The jobs in the workers' hands are understood: the webhook handler and the worker agree on the kinds and
-- the payloads of jobs.
use arcticworks_codepeer.Base.{◌≡◌, sym, ap, ◌∙◌, subst, String, Bool, List, All-mem, Memᴰ}
use arcticworks_codepeer.Base.Text.{Text}
use arcticworks_codepeer.Domain.{Payload}
use arcticworks_codepeer.Webhook.{Json}
use arcticworks_codepeer.Webhook.Receive.{Request}
use arcticworks_codepeer.Webhook.Handlers.Effects.{kind_of}
use arcticworks_codepeer.Worker.Dispatch.{Parts, Site, dispatch}
use arcticworks_codepeer.Worker.Dispatch.Decodes.{
  ReadsBack, IsWork, run_payload, dispatch-run_payload, run_payload-IsWork,
}
use arcticworks_codepeer.App.{App, Hand, Reachable}
use arcticworks_codepeer.App.Invariant.{Holds, Reachable-IsSafe}

-- In every history of the program: if the decoder of each payload reads back what the encoder of JSON
-- writes, a job in a worker's hands is dispatched to the work of a payload that the webhook handler
-- queued; it never ends with a payload that cannot be read or a kind that is not known, only with what
-- its pass or its posting returns.
pub Reachable-understood :
    (hmac : Text → Text → Text) (secret : Text) (json : Json) (self : String) (reaping : Bool)
    (parts : Parts) (log : List Request) (app : App) (hand : Hand) (site : Site)
    → ReadsBack json parts.decoders
    → Reachable hmac secret json self reaping log app
    → Memᴰ hand app.hands
    → ((p : Payload) × (hand.job.payload ≡ json.encode p)
        × (dispatch parts hand.job.kind hand.job.payload site ≡ run_payload parts p site))
      × IsWork (dispatch parts hand.job.kind hand.job.payload site)
Reachable-understood hmac secret json self reaping parts log app hand site d h m =
    let safe = Reachable-IsSafe hmac secret json self reaping h in
    let (p, kind, payload) = All-mem (Holds json) app.hands safe.held m in
    let same : dispatch parts hand.job.kind hand.job.payload site ≡ run_payload parts p site =
      ap (λ k. dispatch parts k hand.job.payload site) kind
      ∙ ap (λ t. dispatch parts (kind_of p) t site) payload
      ∙ ap (λ w. w site) (dispatch-run_payload json parts p d) in
    ((p, payload, same), subst IsWork (sym same) (run_payload-IsWork parts p site))
