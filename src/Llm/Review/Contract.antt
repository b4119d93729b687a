-- ===== src/Llm/Review/Contract.antt =====
-- What a review and a compilation send, and what they return.
use arcticworks_codepeer.Base.{
  ℕ, ◌+◌, ◌≡◌, Bool, Option, inl, inr, List, ◌++◌, arith, Bool-cases, if◌then◌else◌,
}
use arcticworks_codepeer.Base.Text.{Text}
use arcticworks_codepeer.Base.Result.{Result, ok, err}
use arcticworks_codepeer.Base.Action.{Action, resume, pure, fail, ◌>>=◌}
use arcticworks_codepeer.Domain.{Finding, ReviewResult, ReviewRequest, CompileInput}
use arcticworks_codepeer.Llm.Validate.{
  ReviewError, empty_twice, truncated_twice, IsValid, validate_result_contract,
}
use arcticworks_codepeer.Llm.Prompt.{
  empty_retry_suffix, concise_retry_suffix, build_instructions, build_input, compile_instructions,
  build_compile_input,
}
use arcticworks_codepeer.Llm.Chat.{Config, ApiResponse, Event, Wire, response_text, chat}
use arcticworks_codepeer.Llm.Chat.Bounds.{
  Extends, Extends-refl, Extends-trans, Extends-le, chat-Does,
}
use arcticworks_codepeer.Llm.Review.{
  NullFinding, retry_if, is_empty, is_incomplete, lift, validated_result, decode_result, converse,
  review, compile,
}

-- A result that is returned is valid.
abbrev pub IsGood : Result ReviewError ReviewResult → Type 0
IsGood r = (result : ReviewResult) → r ≡ ok result → IsValid result

module _ (unmarshal : Text → NullFinding → Bool × NullFinding) (wire : Wire) (cfg : Config) where
  -- At most `n` requests, with at most one fair wait after each.
  Sends : {A : Type 0} → ℕ → List Event → Result ReviewError A × List Event → Type 0
  Sends n h (r, h') = Extends n h h'

  then-Sends :
      {A B : Type 0} (n m : ℕ) (h : List Event) (rest : A → Action (List Event) ReviewError B)
      (o : Result ReviewError A × List Event)
      → Sends n h o
      → ((a : A) (x : List Event) → Sends m x (rest a x))
      → Sends (n + m) h (resume rest o)
  unfolding Sends
  then-Sends n m h rest (err e, h') a k = Extends-le h h' n (n + m) (ground arith) a
  then-Sends n m h rest (ok v, h') a k = Extends-trans h h' (rest v h').1 n m a (k v h')

  chat-Sends :
      (instructions input : Text) (h : List Event) → Sends 3 h (chat wire cfg instructions input h)
  unfolding Sends
  chat-Sends instructions input h = (chat-Does wire cfg instructions input h).0

  checked-Sends :
      (again : ApiResponse → Bool) (failure : ReviewError) (resp : ApiResponse) (h : List Event)
      → Sends 0 h ((if again resp then fail failure else pure resp) h)
  unfolding Sends
  checked-Sends again failure resp h = elim (Bool-cases (again resp)) [
    | inl e ↦ rw e (Extends-refl h)
    | inr e ↦ rw e (Extends-refl h)
  ]

  retry_if-Sends :
      (again : ApiResponse → Bool) (instructions input : Text) (failure : ReviewError)
      (resp : ApiResponse) (h : List Event)
      → Sends 3 h (retry_if unmarshal wire cfg again instructions input failure resp h)
  unfolding retry_if Sends
  retry_if-Sends again instructions input failure resp h = elim (Bool-cases (again resp)) [
    | inr e ↦ rw e (Extends-le h h 0 3 (ground arith) (Extends-refl h))
    | inl e ↦ rw e (
        then-Sends 3 0 h _ (chat wire cfg instructions input h) (chat-Sends instructions input h)
          (λ r x. checked-Sends again failure r x))
  ]

  validated_result-IsGood :
      (o : Result ReviewError ReviewResult) → IsGood (validated_result unmarshal wire cfg o)
  unfolding validated_result
  validated_result-IsGood (err e) result h = absurd cc
  validated_result-IsGood (ok r) result h = (validate_result_contract r).0 result h

  resume-IsGood :
      {A : Type 0} (rest : A → Action (List Event) ReviewError ReviewResult)
      (o : Result ReviewError A × List Event)
      → ((a : A) (x : List Event) → IsGood (rest a x).0)
      → IsGood (resume rest o).0
  resume-IsGood rest (err e, h) k result same = absurd cc
  resume-IsGood rest (ok a, h) k result same = k a h result same

  converse-Sends :
      (instructions input : Text) (h : List Event)
      → Sends 9 h (converse unmarshal wire cfg instructions input h)
  unfolding converse lift Sends
  converse-Sends instructions input h =
      let ask = chat wire cfg instructions input in
      let nonempty =
        retry_if unmarshal wire cfg (is_empty unmarshal wire cfg)
          (instructions ++ empty_retry_suffix) input empty_twice in
      let complete =
        retry_if unmarshal wire cfg (is_incomplete unmarshal wire cfg)
          (instructions ++ concise_retry_suffix) input truncated_twice in
      then-Sends {A = ApiResponse} {B = ReviewResult} 9 0 h
        (λ resp.
          lift unmarshal wire cfg
            (validated_result unmarshal wire cfg (decode_result unmarshal (response_text resp))))
        ((ask >>= nonempty >>= complete) h)
        (then-Sends {A = ApiResponse} {B = ApiResponse} 6 3 h complete ((ask >>= nonempty) h)
          (then-Sends {A = ApiResponse} {B = ApiResponse} 3 3 h nonempty (ask h)
            (chat-Sends instructions input h)
            (retry_if-Sends (is_empty unmarshal wire cfg) (instructions ++ empty_retry_suffix) input
              empty_twice))
          (retry_if-Sends (is_incomplete unmarshal wire cfg) (instructions ++ concise_retry_suffix)
            input truncated_twice))
        (λ r x. Extends-refl x)

  converse-IsGood :
      (instructions input : Text) (h : List Event)
      → IsGood (converse unmarshal wire cfg instructions input h).0
  unfolding converse lift
  converse-IsGood instructions input h =
      let nonempty =
        retry_if unmarshal wire cfg (is_empty unmarshal wire cfg)
          (instructions ++ empty_retry_suffix) input empty_twice in
      let complete =
        retry_if unmarshal wire cfg (is_incomplete unmarshal wire cfg)
          (instructions ++ concise_retry_suffix) input truncated_twice in
      resume-IsGood {A = ApiResponse}
        (λ resp.
          lift unmarshal wire cfg
            (validated_result unmarshal wire cfg (decode_result unmarshal (response_text resp))))
        ((chat wire cfg instructions input >>= nonempty >>= complete) h)
        (λ resp x. validated_result-IsGood (decode_result unmarshal (response_text resp)))

  -- For every state of the network: a review and a compilation send at most nine requests each; they wait
  -- only after a request, and at most once before the next, for more than nothing and at most a minute; a
  -- result that they return is valid.
  pub review_contract :
      (marshal : List Finding → Option Text) (req : ReviewRequest) (job : CompileInput)
      (h : List Event)
      → let (r, h1) = review unmarshal wire cfg req h in
        let (c, h2) = compile unmarshal wire cfg marshal job h in
        Extends 9 h h1 × IsGood r × Extends 9 h h2 × IsGood c
  unfolding review compile Sends
  review_contract marshal req job h =
      let i = build_instructions req in
      let j = compile_instructions job in
      let x = build_input req in
      let y = build_compile_input marshal job in
      (converse-Sends i x h, converse-IsGood i x h, converse-Sends j y h, converse-IsGood j y h)
