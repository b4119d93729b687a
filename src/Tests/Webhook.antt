-- ===== src/Tests/Webhook.antt =====
-- A signed delivery of a pull request event, with a digest that is easy to compute.
use arcticworks_codepeer.Base.{
  ◌≤◌, ◌<◌, ◌%◌, ◌≡◌, ◌≢◌, refl, true, false, none, some, List, [], ◌++◌, map, length, All, arith,
}
use arcticworks_codepeer.Base.Text.{Text, codes, has_prefix, trim_prefix, strip_prefix}
use arcticworks_codepeer.Base.Text.Hex.{encode_hex, decode_hex, from_hex}
use arcticworks_codepeer.Domain.{Payload}
use arcticworks_codepeer.Store.{empty_store}
use arcticworks_codepeer.Store.Repos.{record_delivery}
use arcticworks_codepeer.Webhook.Handlers.{dispatch, handle_pull_request}
use arcticworks_codepeer.Queue.Invariant.{empty}
use arcticworks_codepeer.Webhook.{PullRequestEvent, Json, Server}
use arcticworks_codepeer.Webhook.Signature.{
  signature_prefix, verify_signature, verify_signature_iff,
}
use arcticworks_codepeer.Webhook.Handlers.Effects.{enqueue_all}
use arcticworks_codepeer.Webhook.Receive.{Request, handle_webhook}
use arcticworks_codepeer.Webhook.Once.{
  IsAuthentic, is_known, handle_webhook_once, handle_webhook_effects,
}

abbrev pub toy_hmac : Text → Text → Text
toy_hmac secret body = map (λ b. b % 256) (secret ++ body)

abbrev pub secret : Text
secret = codes "k"

abbrev pub body : Text
body = codes "{}"

digest-bytes : All (λ b. b < 256) (toy_hmac secret body)
digest-bytes = (ground arith, (ground arith, (ground arith, tt)))

verify_signature_iff_example :
    (verify_signature toy_hmac secret body (signature_prefix ++ encode_hex (toy_hmac secret body))
      ≡ true)
    × ((header : Text)
        → verify_signature toy_hmac secret body header ≡ true
        → (digits : Text) × (header ≡ signature_prefix ++ digits)
          × (decode_hex digits ≡ some (toy_hmac secret body)))
verify_signature_iff_example = verify_signature_iff toy_hmac secret body digest-bytes

abbrev pub sample_event : PullRequestEvent
sample_event = record {
  envelope = record {
    action = "synchronize";
    repository_id = 5;
    repository_owner = "o";
    repository_name = "r";
    sender_login = "dev";
    installation_id = 1;
  };
  number = 7;
  pr_number = 7;
  merged = false;
  head_sha = "abc";
}

abbrev sample_json : Json
sample_json = record {
  pull_request = λ b. some sample_event;
  push = λ b. none;
  installation = λ b. none;
  installation_repos = λ b. none;
  issue_comment = λ b. none;
  encode = λ p. codes "payload";
}

abbrev pub sample_request : Request
sample_request = record {
  body = body;
  signature = signature_prefix ++ encode_hex (toy_hmac secret body);
  delivery = "d1";
  event = "pull_request";
}

abbrev sample_server : Server
sample_server = record { store = empty_store; jobs = empty; syncs = [] }

sample_request-IsAuthentic : IsAuthentic toy_hmac secret sample_request
sample_request-IsAuthentic =
    (ground arith, (verify_signature_iff toy_hmac secret body digest-bytes).0)

-- The delivery queues the analysis and the sweep, and is accepted.
accepted :
    (handle_webhook toy_hmac secret sample_json "bot" 100 sample_request sample_server).0 ≡ 202
unfolding handle_webhook verify_signature has_prefix trim_prefix strip_prefix decode_hex from_hex
    record_delivery dispatch handle_pull_request
accepted = refl

handle_webhook_once_example :
    let v' =
      (handle_webhook toy_hmac secret sample_json "bot" 100 sample_request sample_server).1 in
    handle_webhook toy_hmac secret sample_json "bot" 200 sample_request v' ≡ (200, v')
handle_webhook_once_example =
    handle_webhook_once toy_hmac secret sample_json "bot" 100 200 sample_request sample_request
      sample_server sample_request-IsAuthentic sample_request-IsAuthentic refl

handle_webhook_effects_example :
    let v' =
      (handle_webhook toy_hmac secret sample_json "bot" 100 sample_request sample_server).1 in
    ((ps : List Payload) × (length ps ≤ 2)
      × (v'.jobs ≡ enqueue_all sample_json "bot" 100 ps sample_server.jobs))
    × (v' ≢ sample_server
        → IsAuthentic toy_hmac secret sample_request
          × (is_known sample_request.delivery sample_server.store ≡ false))
handle_webhook_effects_example =
    handle_webhook_effects toy_hmac secret sample_json "bot" 100 sample_request sample_server
