-- ===== src/Llm/Chat.antt =====
-- internal/llm/client.go: `chat`, with what it sends and how long it waits. The HTTP client, the JSON
-- decoder, the parser of HTTP dates and the cancellation of the context are the record `Wire`.
pub mod Bounds
use arcticworks_codepeer.Base.{
  ℕ, suc, ◌+◌, ◌-◌, ◌*◌, String, Bool, true, false, not, ◌&&◌, ◌||◌, Option, none, some, List, [],
  ◌∷◌, ◌++◌, ltb, leb, ◌==◌, if◌then◌else◌, ℤ, pos, negsuc, wrap64, ltb_ℤ, leb_ℤ, str_eq, is_nil,
  length,
}
use arcticworks_codepeer.Base.Text.{Text, codes, trim_space}
use arcticworks_codepeer.Base.Text.Decimal.{print_ℕ, atoi}
use arcticworks_codepeer.Base.Result.{Result, ok, err}
use arcticworks_codepeer.Base.Action.{Action, pure, fail, ◌>>=◌, ◌>>◌}
use arcticworks_codepeer.Llm.Validate.{ReviewError, api_error, cancelled}

-- Config, with the defaults that `New` fills in.
pub record Config : Type 0 where
  pub base_url : Text
  pub api_key : Text
  pub model : Text
  pub reasoning_effort : Text

abbrev or_default : Text → Text → Text
or_default [] d = d
or_default (c ∷ s) d = c ∷ s

unfoldable pub new_client : Config → Config
new_client cfg = record cfg {
  base_url = or_default cfg.base_url (codes "https://api.deepseek.com");
  model = or_default cfg.model (codes "deepseek-v4-flash");
  reasoning_effort = or_default cfg.reasoning_effort (codes "high");
}

abbrev pub max_output_tokens : ℕ
max_output_tokens = 65536

-- A POST to `url`; `with_schema` says that the answer has to follow the schema of a review.
pub record ApiRequest : Type 0 where
  pub url : Text
  pub api_key : Text
  pub model : Text
  pub instructions : Text
  pub input : Text
  pub max_tokens : ℕ
  pub effort : Text
  pub with_schema : Bool

pub record ContentPart : Type 0 where
  pub kind : String
  pub text : Text

pub record OutputItem : Type 0 where
  pub kind : String
  pub content : List ContentPart

-- The fields that JSON sets; `error` is as it is printed.
pub record ResponseBody : Type 0 where
  pub status : String
  pub output_text : Text
  pub output : List OutputItem
  pub error : Option Text

abbrev pub empty_body : ResponseBody
empty_body = record { status = ""; output_text = []; output = []; error = none }

pub record ApiResponse : Type 0 where
  pub status_code : ℕ
  pub body : ResponseBody
  pub retry_after : Text
  pub raw_body : Text

pub record HttpReply : Type 0 where
  pub status_code : ℕ
  pub retry_after : Text
  pub content : Text

-- What a review has done so far.
pub data Event : Type 0 where
  sent : ApiRequest → Event
  slept : ℤ → Event

pub record Wire : Type 0 where
  pub post : List Event → ApiRequest → Result Text HttpReply
  pub unmarshal : Text → Bool × ResponseBody
  pub time_until : List Event → Text → Option ℤ
  pub is_cancelled : List Event → Bool

abbrev trim_slashes : Text → Text
trim_slashes [] = []
trim_slashes (c ∷ s) =
    let rest = trim_slashes s in if c == b'/' && is_nil rest then [] else c ∷ rest

abbrev request_of : Config → Text → Text → Bool → ApiRequest
request_of cfg instructions input with_schema = record {
  url = trim_slashes cfg.base_url ++ codes "/responses";
  api_key = cfg.api_key;
  model = cfg.model;
  instructions = instructions;
  input = input;
  max_tokens = max_output_tokens;
  effort = cfg.reasoning_effort;
  with_schema = with_schema;
}

-- A body that is not JSON is kept as it is.
decoded_body : HttpReply → Bool × ResponseBody → ApiResponse
decoded_body r (decoded, body) = record {
  status_code = r.status_code;
  body = body;
  retry_after = r.retry_after;
  raw_body = if decoded then [] else r.content;
}

response_of : (Text → Bool × ResponseBody) → HttpReply → ApiResponse
unfolding decoded_body
response_of unmarshal r =
    decoded_body r (if is_nil r.content then (true, empty_body) else unmarshal r.content)

abbrev part_text : ContentPart → Text
part_text p = if str_eq p.kind "output_text" then p.text else []

abbrev parts_text : List ContentPart → Text
parts_text [] = []
parts_text (p ∷ ps) = part_text p ++ parts_text ps

abbrev items_text : List OutputItem → Text
items_text [] = []
items_text (i ∷ is) =
    (if str_eq i.kind "message" then parts_text i.content else []) ++ items_text is

-- apiResponse.text
unfoldable pub response_text : ApiResponse → Text
response_text r =
    if not (is_nil r.body.output_text) then r.body.output_text else items_text r.body.output

-- apiResponse.errText
abbrev err_text : Option Text → Text → Text
err_text (some e) raw = e
err_text none raw = if not (is_nil raw) then raw else codes "no error detail"

abbrev pub second : ℕ
second = 1_000_000_000

abbrev pub minute : ℤ
minute = pos 60_000_000_000

-- time.Duration(secs) * time.Second, in 64 bits.
abbrev seconds : ℤ → ℤ
seconds (pos n) = wrap64 (pos (n * second))
seconds (negsuc n) = wrap64 (negsuc (suc n * second - 1))

abbrev at_most_minute : ℤ → ℤ
at_most_minute d = if ltb_ℤ minute d then minute else d

until_delay : Option ℤ → Option ℤ
until_delay none = none
until_delay (some d) = some (at_most_minute (if ltb_ℤ d (pos 0) then pos 0 else d))

seconds_delay : Option ℤ → Option ℤ → Option ℤ
unfolding until_delay
seconds_delay (some secs) until = some (at_most_minute (seconds secs))
seconds_delay none until = until_delay until

-- `until` is the time until the HTTP date that the text is, if it is one.
unfoldable pub parse_retry_after : Option ℤ → Text → Option ℤ
unfolding seconds_delay
parse_retry_after until v = if is_nil v then none else seconds_delay (atoi (trim_space v)) until

abbrev pub is_retryable : ℕ → Bool
is_retryable code = code == 429 || leb 500 code

abbrev pub retry_delays : List ℕ
retry_delays = 2_000_000_000 ∷ 8_000_000_000 ∷ []

delay_or : ℕ → Option ℤ → ℤ
delay_or d none = pos d
delay_or d (some after) = after

abbrev failure_text : Option Text → Text
failure_text none = codes "llm: model reported failure: <nil>"
failure_text (some e) = codes "llm: model reported failure: " ++ e

abbrev code_text : ℕ → Text
code_text code = codes "llm: API error " ++ print_ℕ code

module _ (wire : Wire) (cfg : Config) where
  received : Result Text HttpReply → List Event → Result ReviewError ApiResponse × List Event
  unfolding response_of
  received (err e) h = (err (api_error e), h)
  received (ok r) h = (ok (response_of wire.unmarshal r), h)

  -- doWith
  unfoldable pub do_with : Text → Text → Bool → Action (List Event) ReviewError ApiResponse
  unfolding received
  do_with instructions input with_schema h =
      let request = request_of cfg instructions input with_schema in
      received (wire.post h request) (h ++ sent request ∷ [])

  unfoldable pub sleep_ctx : ℤ → Action (List Event) ReviewError (Unit {0})
  sleep_ctx d h =
      if leb_ℤ d (pos 0)
      then (ok tt, h)
      else if wire.is_cancelled h
      then (err cancelled, h)
      else (ok tt, h ++ slept d ∷ [])

  -- The delay before the next attempt.
  next_delay : ℕ → ApiResponse → List Event → ℤ
  unfolding delay_or
  next_delay d resp h =
      delay_or d (parse_retry_after (wire.time_until h resp.retry_after) resp.retry_after)

  -- The body of the loop after `do`; `again` are the attempts that are left.
  judge :
      (ApiResponse → Action (List Event) ReviewError ApiResponse)
      → ApiResponse
      → Action (List Event) ReviewError ApiResponse
  judge again resp =
      if resp.status_code == 200
      then if str_eq resp.body.status "failed"
        then fail (api_error (failure_text resp.body.error))
        else pure resp
      else if is_retryable resp.status_code
      then again resp
      else fail (
          api_error
            (code_text resp.status_code ++ (codes ": " ++ err_text resp.body.error resp.raw_body)))

  -- After the last attempt.
  give_up : ApiResponse → Action (List Event) ReviewError ApiResponse
  give_up resp = fail (api_error (code_text resp.status_code ++ codes " after 3 attempts"))

  -- `continue`: the delay, and the attempts that follow.
  wait_then :
      Action (List Event) ReviewError ApiResponse
      → ℕ
      → ApiResponse
      → Action (List Event) ReviewError ApiResponse
  unfolding next_delay
  wait_then next d resp h = (sleep_ctx (next_delay d resp h) >> next) h

  -- The attempts, by the delays before those after the first.
  attempts : List ℕ → Text → Text → Action (List Event) ReviewError ApiResponse
  unfolding judge give_up wait_then
  attempts [] instructions input = do_with instructions input true >>= judge give_up
  attempts (d ∷ ds) instructions input =
      do_with instructions input true >>= judge (wait_then (attempts ds instructions input) d)

  unfoldable pub chat : Text → Text → Action (List Event) ReviewError ApiResponse
  unfolding attempts
  chat = attempts retry_delays
