-- ===== src/Llm/Review.antt =====
-- internal/llm/client.go and compile.go: `Review` and `Compile`, and `decodeResult`.
pub mod Contract
use arcticworks_codepeer.Base.{
  ℕ, ◌+◌, ◌≤◌, ◌≡◌, refl, Bool, true, false, not, ◌&&◌, ◌||◌, Option, none, some, inl, inr, List,
  [], ◌∷◌, ◌++◌, arith, Bool-cases, if◌then◌else◌, String, str_eq, is_nil,
}
use arcticworks_codepeer.Base.Text.{Text, codes, text_eq}
use arcticworks_codepeer.Base.Result.{Result, ok, err}
use arcticworks_codepeer.Base.Action.{Action, resume, pure, fail, ◌>>=◌}
use arcticworks_codepeer.Domain.{Finding, ReviewResult, ReviewRequest, CompileInput}
use arcticworks_codepeer.Llm.Escape.{escape_raw_control_chars}
use arcticworks_codepeer.Llm.Validate.{
  ReviewError, empty_response, empty_twice, truncated_twice, undecodable, validate_result, IsValid,
  validate_result_contract,
}
use arcticworks_codepeer.Llm.Prompt.{
  empty_retry_suffix, concise_retry_suffix, build_instructions, build_input, compile_instructions,
  build_compile_input,
}
use arcticworks_codepeer.Llm.Chat.{Config, ApiResponse, Event, Wire, response_text, do_with, chat}
use arcticworks_codepeer.Llm.Chat.Bounds.{
  Extends, Extends-refl, Extends-trans, Extends-le, chat-Does,
}

pub record NullFinding : Type 0 where
  pub summary : Text
  pub status : String
  pub findings : List (Option Finding)

abbrev nothing_read : NullFinding
nothing_read = record { summary = []; status = ""; findings = [] }

abbrev present : List (Option Finding) → List Finding
present [] = []
present (none ∷ fs) = present fs
present (some f ∷ fs) = f ∷ present fs

abbrev result_of : NullFinding → ReviewResult
result_of nf = record { summary = nf.summary; status = nf.status; findings = present nf.findings }

decoded_or_error : Bool × NullFinding → Result ReviewError ReviewResult
decoded_or_error (false, nf) = err undecodable
decoded_or_error (true, nf) = ok (result_of nf)

-- `unmarshal text nf` is json.Unmarshal into `nf`: whether it succeeds, and what it leaves.
module _ (unmarshal : Text → NullFinding → Bool × NullFinding) where
  repair_then : Text → Bool × NullFinding → Result ReviewError ReviewResult
  unfolding decoded_or_error
  repair_then output (true, nf) = ok (result_of nf)
  repair_then output (false, nf) =
      let repaired = escape_raw_control_chars output in
      if text_eq repaired output then err undecodable else decoded_or_error (unmarshal repaired nf)

  unfoldable pub decode_result : Text → Result ReviewError ReviewResult
  unfolding repair_then
  decode_result output = repair_then output (unmarshal output nothing_read)

  module _ (wire : Wire) (cfg : Config) where
    -- A second request, if the first response is one that `again` refuses.
    retry_if :
        (ApiResponse → Bool)
        → Text
        → Text
        → ReviewError
        → ApiResponse
        → Action (List Event) ReviewError ApiResponse
    retry_if again instructions input failure resp =
        if again resp
        then (chat wire cfg instructions input >>= λ resp'.
            if again resp' then fail failure else pure resp')
        else pure resp

    abbrev is_empty : ApiResponse → Bool
    is_empty resp = is_nil (response_text resp)

    abbrev is_incomplete : ApiResponse → Bool
    is_incomplete resp = str_eq resp.body.status "incomplete"

    lift : Result ReviewError ReviewResult → Action (List Event) ReviewError ReviewResult
    lift r h = (r, h)

    validated_result : Result ReviewError ReviewResult → Result ReviewError ReviewResult
    validated_result (err e) = err e
    validated_result (ok r) = validate_result r

    -- The requests of `Review` and of `Compile`, and what is made of the last response.
    unfoldable pub converse : Text → Text → Action (List Event) ReviewError ReviewResult
    unfolding retry_if lift validated_result
    converse instructions input =
        chat wire cfg instructions input
        >>= retry_if is_empty (instructions ++ empty_retry_suffix) input empty_twice
        >>= retry_if is_incomplete (instructions ++ concise_retry_suffix) input truncated_twice
        >>= λ resp. lift (validated_result (decode_result (response_text resp)))

    unfoldable pub review : ReviewRequest → Action (List Event) ReviewError ReviewResult
    unfolding converse
    review req = converse (build_instructions req) (build_input req)

    unfoldable pub compile :
        (List Finding → Option Text) → CompileInput → Action (List Event) ReviewError ReviewResult
    unfolding converse
    compile marshal req = converse (compile_instructions req) (build_compile_input marshal req)

    -- Ping: whether the model answers at all.
    unfoldable pub ping : Action (List Event) ReviewError (Unit {0})
    ping = do_with wire cfg (codes "Reply with the word OK.") (codes "ping") false >>= λ resp.
        if is_nil (response_text resp) then fail empty_response else pure tt
