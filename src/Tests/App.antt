-- ===== src/Tests/App.antt =====
-- A history of the program: a signed pull request event, and a worker that takes the job of it.
use arcticworks_codepeer.Base.{◌≡◌, refl, false, List, [], Memᴰ, length}
use arcticworks_codepeer.Domain.{Payload, job_analyze_pr}
use arcticworks_codepeer.Store.{empty_store}
use arcticworks_codepeer.Store.Repos.{record_delivery}
use arcticworks_codepeer.Base.Text.{has_prefix, trim_prefix, strip_prefix}
use arcticworks_codepeer.Base.Text.Hex.{decode_hex, from_hex}
use arcticworks_codepeer.Queue.{JobRow, new_row, enqueue, claim, dequeue, next_row, update_where}
use arcticworks_codepeer.Webhook.Handlers as Handlers
use arcticworks_codepeer.Webhook.Handlers.{dispatch, handle_pull_request}
use arcticworks_codepeer.Webhook.Receive.{Request, handle_webhook}
use arcticworks_codepeer.Webhook.Signature.{verify_signature}
use arcticworks_codepeer.Worker.Dispatch as Worker
use arcticworks_codepeer.Worker.Dispatch.{Parts}
use arcticworks_codepeer.Worker.Dispatch.Decodes.{IsWork, run_payload}
use arcticworks_codepeer.App.{
  App, at_work, started_with, take_job, receive, heard, takes, Reachable, starts, receives, follows,
}
use arcticworks_codepeer.App.Invariant.{IsSafe, Reachable-IsSafe}
use arcticworks_codepeer.App.Hands.{IsExclusive, Reachable-IsExclusive}
use arcticworks_codepeer.App.Decodes.{Reachable-understood}
use arcticworks_codepeer.Tests.Codec.{codec_json, read_back, codec-ReadsBack}
use arcticworks_codepeer.Tests.Config.{empty_cache}
use arcticworks_codepeer.Tests.Queue.{free}
use arcticworks_codepeer.Tests.Webhook.{toy_hmac, secret, sample_event, sample_request}
use arcticworks_codepeer.Tests.Worker.{sample_parts, sample_site}

abbrev first_app : App
first_app = started_with empty_store empty_cache

abbrev told_app : App
told_app = receive toy_hmac secret codec_json "bot" 100 sample_request first_app

abbrev busy_app : App
busy_app = take_job free 200 900 told_app

abbrev told_log : List Request
told_log = heard toy_hmac secret codec_json "bot" sample_request empty_store []

busy : Reachable toy_hmac secret codec_json "bot" false told_log busy_app
busy =
    follows (receives (starts empty_store empty_cache) 100 sample_request)
      (takes free 200 900 told_app)

Reachable-IsSafe_example :
    IsSafe codec_json false (length told_log) busy_app.server.jobs busy_app.hands
Reachable-IsSafe_example = Reachable-IsSafe toy_hmac secret codec_json "bot" false busy

Reachable-IsExclusive_example : IsExclusive busy_app.server.jobs busy_app.hands
Reachable-IsExclusive_example = Reachable-IsExclusive toy_hmac secret codec_json "bot" busy

abbrev codec_parts : Parts
codec_parts = record sample_parts { decoders = read_back }

abbrev the_row : JobRow
the_row =
    claim 200 900
      (new_row 1 100 job_analyze_pr (codec_json.encode (Handlers.analyze_pr_of sample_event)))

in_hand : Memᴰ (at_work the_row) busy_app.hands
unfolding receive take_job handle_webhook verify_signature has_prefix trim_prefix strip_prefix
    decode_hex from_hex record_delivery dispatch handle_pull_request dequeue next_row update_where
    enqueue
in_hand = Memᴰ.head refl

Reachable-understood_example :
    ((p : Payload) × (the_row.payload ≡ codec_json.encode p)
      × (Worker.dispatch codec_parts the_row.kind the_row.payload sample_site
          ≡ run_payload codec_parts p sample_site))
    × IsWork (Worker.dispatch codec_parts the_row.kind the_row.payload sample_site)
Reachable-understood_example =
    Reachable-understood toy_hmac secret codec_json "bot" false codec_parts told_log busy_app
      (at_work the_row) sample_site codec-ReadsBack busy in_hand
