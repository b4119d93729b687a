-- ===== src/Webhook/Receive.antt =====
-- internal/httpapi/handler.go: `handleWebhook`, and the health checks.
use arcticworks_codepeer.Base.{ℕ, String, Bool, true, false, not, if◌then◌else◌, leb, length}
use arcticworks_codepeer.Base.Text.{Text}
use arcticworks_codepeer.Base.Result.{Result, ok, err}
use arcticworks_codepeer.Store.{Store}
use arcticworks_codepeer.Store.Repos.{record_delivery}
use arcticworks_codepeer.Webhook.Events.{Json, Server}
use arcticworks_codepeer.Webhook.Signature.{verify_signature}
use arcticworks_codepeer.Webhook.Handlers.{Handler, HandleError, dispatch}

-- A request: its body, and the headers X-Hub-Signature-256, X-GitHub-Delivery and X-GitHub-Event.
pub record Request : Type 0 where
  pub body : Text
  pub signature : Text
  pub delivery : String
  pub event : String

abbrev pub max_body_bytes : ℕ
max_body_bytes = 27_262_976

abbrev pub status_of : Result HandleError (Unit {0}) → ℕ
status_of (ok _) = 202
status_of (err e) = 500

abbrev answer : Result HandleError (Unit {0}) × Server → ℕ × Server
answer (r, v) = (status_of r, v)

-- After RecordDelivery.
abbrev pub recorded : Handler → Server → Bool × Store → ℕ × Server
recorded handle v (false, s) = (200, record v { store = s })
recorded handle v (true, s) = answer (handle (record v { store = s }))

module _ (hmac : Text → Text → Text) (secret : Text) (json : Json) (self : String) (now : ℕ) where
  -- The status of the answer, and what the request changed. A body that is too long is not read.
  unfoldable pub handle_webhook : Request → Server → ℕ × Server
  handle_webhook r v =
      if not (leb (length r.body) max_body_bytes)
      then (413, v)
      else if not (verify_signature hmac secret r.body r.signature)
      then (401, v)
      else recorded (dispatch json self now r.event r.body) v (record_delivery r.delivery v.store)

abbrev pub handle_health : ℕ
handle_health = 200

-- By whether the database answers to Ping.
abbrev pub handle_ready : Bool → ℕ
handle_ready reachable = if not reachable then 503 else 200
