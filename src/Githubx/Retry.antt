-- ===== src/Githubx/Retry.antt =====
-- internal/githubx/client.go: `doWithRetry`. A call of go-github is a function of the number of the
-- attempt; `cancelled` says whether the context ends before the wait for an attempt does.
use arcticworks_codepeer.Base.{
  ℕ, zero, suc, ◌*◌, Bool, ◌&&◌, ◌||◌, Option, none, some, List, [], ◌∷◌, ltb, leb, ◌==◌,
  if◌then◌else◌, is_nil, ℤ, pos, negsuc,
}
use arcticworks_codepeer.Base.Text.{Text}
use arcticworks_codepeer.Base.Text.Decimal.{atoi}
use arcticworks_codepeer.Base.Result.{Result, ok, err}

pub record Response : Type 0 where
  pub status_code : ℕ
  pub retry_after : Text

-- An error of a call: whether it is a RateLimitError, and the status of an ErrorResponse.
pub record CallError : Type 0 where
  pub is_rate_limit : Bool
  pub status : Option ℕ

pub data ClientError : Type 0 where
  cancelled out_of_pages no_sha : ClientError
  failed : CallError → ClientError

-- What a call returns: the response, and the value or an error.
abbrev pub Reply : Type 0 → Type 0
Reply A = Option Response × Result CallError A

abbrev pub max_retries : ℕ
max_retries = 2

abbrev retryable_code : ℕ → Bool
retryable_code code = code == 403 || code == 429 || leb 500 code

unfoldable pub is_retryable : Option Response → CallError → Bool
is_retryable none e = e.is_rate_limit
is_retryable (some r) e = e.is_rate_limit || retryable_code r.status_code

abbrev default_delay : ℕ → ℕ
default_delay attempt = if attempt == 1 then 2_000_000_000 else 4_000_000_000

abbrev capped_seconds : ℕ → ℕ
capped_seconds secs = (if ltb 60 secs then 60 else secs) * 1_000_000_000

-- A header that is no positive number is ignored.
unfoldable pub header_delay : ℕ → Option ℤ → ℕ
header_delay attempt none = default_delay attempt
header_delay attempt (some (negsuc n)) = default_delay attempt
header_delay attempt (some (pos n)) = if ltb 0 n then capped_seconds n else default_delay attempt

unfoldable pub retry_delay : ℕ → Option Response → ℕ
unfolding header_delay
retry_delay attempt none = default_delay attempt
retry_delay attempt (some r) =
    if is_nil r.retry_after
    then default_delay attempt
    else header_delay attempt (atoi r.retry_after)

module _ {A : Type 0} (call : ℕ → Reply A) (cancelled_before : ℕ → Bool) where
  -- The attempt `n` and those after it, `left` at most; and the delays that are waited.
  unfoldable pub judged :
      (Option Response → Result ClientError A × List ℕ)
      → ℕ
      → Reply A
      → Result ClientError A × List ℕ
  judged again left (resp, ok a) = (ok a, [])
  judged again left (resp, err e) =
      if is_retryable resp e && ltb 0 left then again resp else (err (failed e), [])

  abbrev pub after_wait : ℕ → Result ClientError A × List ℕ → Result ClientError A × List ℕ
  after_wait d (r, ds) = (r, d ∷ ds)

  unfoldable pub attempt_from : ℕ → ℕ → Result ClientError A × List ℕ
  unfolding judged
  attempt_from zero n = judged (λ resp. (err cancelled, [])) 0 (call n)
  attempt_from (suc left) n =
      let rest = attempt_from left (suc n) in
      judged
        (λ resp.
          if cancelled_before (suc n)
          then (err cancelled, [])
          else after_wait (retry_delay (suc n) resp) rest)
        (suc left) (call n)

  -- The result, and the delays in nanoseconds.
  unfoldable pub do_with_delays : Result ClientError A × List ℕ
  unfolding attempt_from
  do_with_delays = attempt_from max_retries 0

  unfoldable pub do_with_retry : Result ClientError A
  unfolding do_with_delays
  do_with_retry = do_with_delays.0
