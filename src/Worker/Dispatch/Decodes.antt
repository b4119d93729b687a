-- ===== src/Worker/Dispatch/Decodes.antt =====
-- What the worker does with a job that the webhook handler queued.
use arcticworks_codepeer.Base.{ℕ, ◌≡◌, refl, String, some}
use arcticworks_codepeer.Base.Result.{Result, ok, err}
use arcticworks_codepeer.Base.Action.{◌>>◌}
use arcticworks_codepeer.Domain as Domain
use arcticworks_codepeer.Domain.{
  Payload, AnalyzePrPayload, AnalyzePushPayload, FeedbackPayload, ClosePrIssuesPayload,
  IssueCommandPayload,
}
use arcticworks_codepeer.Store.{Store}
use arcticworks_codepeer.Analysis.Pass as Pass
use arcticworks_codepeer.Analysis.Push as Push
use arcticworks_codepeer.Posting.World.{World, PostError, Posting}
use arcticworks_codepeer.Posting.Review.{post_pr_review}
use arcticworks_codepeer.Posting.Push.{post_push, close_pr_issues, learn_sweep}
use arcticworks_codepeer.Posting.Approve.{handle_issue_command}
use arcticworks_codepeer.Webhook.{Json}
use arcticworks_codepeer.Webhook.Handlers.Effects.{kind_of}
use arcticworks_codepeer.Worker.Dispatch.{
  Decoders, Parts, Site, WorkError, bad_payload, unknown_kind, pass_failed, post_failed, Work,
  pr_output, push_output, posted, on_world, analyzed, analyze_then, refresh_config, run_analyze_pr,
  run_analyze_push, dispatch,
}

-- json.Unmarshal reads what json.Marshal writes.
pub record ReadsBack (json : Json) (d : Decoders) : Type 0 where
  pub analyze_pr :
      (p : AnalyzePrPayload) → d.analyze_pr (json.encode (Domain.analyze_pr p)) ≡ some p
  pub analyze_push :
      (p : AnalyzePushPayload) → d.analyze_push (json.encode (Domain.analyze_push p)) ≡ some p
  pub feedback : (p : FeedbackPayload) → d.feedback (json.encode (Domain.feedback p)) ≡ some p
  pub close_pr_issues :
      (p : ClosePrIssuesPayload)
      → d.close_pr_issues (json.encode (Domain.close_pr_issues p)) ≡ some p
  pub issue_command :
      (p : IssueCommandPayload) → d.issue_command (json.encode (Domain.issue_command p)) ≡ some p

-- The work of each payload.
pub run_payload : Parts → Payload → Work
run_payload parts (Domain.analyze_pr p) = run_analyze_pr parts p
run_payload parts (Domain.analyze_push p) = run_analyze_push parts p
run_payload parts (Domain.feedback p) = on_world (learn_sweep parts.github parts.key_order p)
run_payload parts (Domain.close_pr_issues p) =
    on_world (close_pr_issues parts.github p.repo_id p.repo_owner p.repo_name p.pr_number)
run_payload parts (Domain.issue_command p) = on_world (handle_issue_command parts.github p)

module _ (json : Json) (parts : Parts) where
  pub dispatch-run_payload :
      (p : Payload)
      → ReadsBack json parts.decoders
      → dispatch parts (kind_of p) (json.encode p) ≡ run_payload parts p
  unfolding dispatch run_payload
  dispatch-run_payload (Domain.analyze_pr p) d = rw (d.analyze_pr p) refl
  dispatch-run_payload (Domain.analyze_push p) d = rw (d.analyze_push p) refl
  dispatch-run_payload (Domain.feedback p) d = rw (d.feedback p) refl
  dispatch-run_payload (Domain.close_pr_issues p) d = rw (d.close_pr_issues p) refl
  dispatch-run_payload (Domain.issue_command p) d = rw (d.issue_command p) refl

-- A result that the pass or the posting gave.
abbrev pub IsWork : Result WorkError (Unit {0}) × Site → Type 0
IsWork (ok done, site) = Unit {0}
IsWork (err bad_payload, site) = ⊥
IsWork (err unknown_kind, site) = ⊥
IsWork (err (pass_failed e), site) = Unit {0}
IsWork (err (post_failed e), site) = Unit {0}

posted-IsWork : (site : Site) (o : Result PostError (Unit {0}) × World) → IsWork (posted site o)
unfolding posted
posted-IsWork site (err e, w) = tt
posted-IsWork site (ok done, w) = tt

on_world-IsWork : (action : Posting (Unit {0})) (site : Site) → IsWork (on_world action site)
unfolding on_world
on_world-IsWork action site = posted-IsWork site (action site.world)

analyzed-IsWork :
    (post : Pass.ReviewOutput → Posting (Unit {0})) (site : Site) (a : Pass.Answer)
    → IsWork (analyzed (λ out. on_world (post out)) site a)
unfolding analyzed
analyzed-IsWork post site (err e, s) = tt
analyzed-IsWork post site (ok out, s) =
    on_world-IsWork (post out) (record site { world = record site.world { store = s } })

-- A pass, and the posting of what it returns, after the configuration is refreshed.
refreshed-IsWork :
    (parts : Parts) (repo_id : ℕ) (owner repo ref : String)
    (post : Pass.ReviewOutput → Posting (Unit {0})) (pass : World → Store → Pass.Answer)
    (site : Site)
    → IsWork (
        (refresh_config parts repo_id owner repo ref
            >> analyze_then (λ out. on_world (post out)) pass)
          site)
unfolding analyze_then refresh_config
refreshed-IsWork parts repo_id owner repo ref post pass site =
    let site' = (refresh_config parts repo_id owner repo ref site).1 in
    analyzed-IsWork post site' (pass site'.world site'.world.store)

pub run_payload-IsWork :
    (parts : Parts) (p : Payload) (site : Site) → IsWork (run_payload parts p site)
unfolding run_payload run_analyze_pr run_analyze_push
run_payload-IsWork parts (Domain.analyze_pr p) site =
    refreshed-IsWork parts p.repo_id p.repo_owner p.repo_name p.head_sha
      (λ out. post_pr_review parts.github (pr_output p out))
      (λ w.
        Pass.analyze_pr parts.glob parts.hash parts.focus parts.review parts.compile parts.order
          parts.settings (parts.remote w p) p)
      site
run_payload-IsWork parts (Domain.analyze_push p) site =
    refreshed-IsWork parts p.repo_id p.repo_owner p.repo_name p.after
      (λ out. post_push parts.github (push_output p out))
      (λ w.
        Push.analyze_push parts.glob parts.hash parts.focus parts.review parts.compile parts.order
          parts.settings (parts.push_remote w p) p)
      site
run_payload-IsWork parts (Domain.feedback p) site =
    on_world-IsWork (learn_sweep parts.github parts.key_order p) site
run_payload-IsWork parts (Domain.close_pr_issues p) site =
    on_world-IsWork (close_pr_issues parts.github p.repo_id p.repo_owner p.repo_name p.pr_number)
      site
run_payload-IsWork parts (Domain.issue_command p) site =
    on_world-IsWork (handle_issue_command parts.github p) site
