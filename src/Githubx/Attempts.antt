-- ===== src/Githubx/Attempts.antt =====
-- internal/githubx/client.go: what `doWithRetry` comes to: how often a call is made, how long the waits
-- are, and whose answer is returned.
use arcticworks_codepeer.Base.{
  ℕ, zero, suc, ◌+◌, ◌≤◌, ◌<◌, ◌≡◌, refl, sym, ap, ◌∙◌, Bool, true, false, inl, inr, ◌⊎◌, Option,
  none, some, List, [], ◌&&◌, All, arith, Bool-cases, length, ltb, ltb→lt, subst, ℤ, pos, negsuc,
  if◌then◌else◌,
}
use arcticworks_codepeer.Base.Text.Decimal.{atoi}
use arcticworks_codepeer.Base.Result.{Result, ok, err}
use arcticworks_codepeer.Githubx.Retry.{
  Response, CallError, ClientError, Reply, failed, cancelled, is_retryable, header_delay,
  retry_delay, judged, after_wait, attempt_from, do_with_delays, do_with_retry,
}

-- A delay of one second at least and of one minute at most.
pub IsDelay : ℕ → Type 0
IsDelay d = (1_000_000_000 ≤ d) × (d ≤ 60_000_000_000)

header_delay-IsDelay : (attempt : ℕ) (o : Option ℤ) → IsDelay (header_delay attempt o)
unfolding header_delay IsDelay
header_delay-IsDelay attempt none = ground arith
header_delay-IsDelay attempt (some (negsuc n)) = ground arith
header_delay-IsDelay attempt (some (pos n)) = ground arith

retry_delay-IsDelay : (attempt : ℕ) (r : Option Response) → IsDelay (retry_delay attempt r)
unfolding retry_delay header_delay IsDelay
retry_delay-IsDelay attempt none = ground arith
retry_delay-IsDelay attempt (some r) =
    ground (arith, header_delay-IsDelay attempt (atoi r.retry_after))

module _ {A : Type 0} (call : ℕ → Reply A) (cancelled_before : ℕ → Bool) where
  -- An attempt with an error that is worth another attempt.
  pub Failed : ℕ → Type 0
  Failed k = (e : CallError) × ((call k).1 ≡ err e) × (is_retryable (call k).0 e ≡ true)

  -- The result after the last attempt `k`: its value; its error, if no attempt is left or the error is
  -- not worth one; or the end of the context, which came before the wait for the next attempt did.
  pub IsEnd : ℕ → ℕ → Result ClientError A → Type 0
  IsEnd last k r =
      ((a : A) × ((call k).1 ≡ ok a) × (r ≡ ok a))
      ⊎ ((e : CallError) × ((call k).1 ≡ err e)
          × (r ≡ err (failed e))
          × (is_retryable (call k).0 e ≡ true → k ≡ last))
      ⊎ (Failed k × (cancelled_before (suc k) ≡ true) × (k < last) × (r ≡ err cancelled))

  -- Attempts from `n` on, with a wait between two.
  Attempted : ℕ → ℕ → Result ClientError A × List ℕ → Type 0
  Attempted last n (r, ds) =
      (k : ℕ) × (k ≤ last)
      × (n + length ds ≡ k)
      × All IsDelay ds
      × ((m : ℕ) → n ≤ m → m < k → Failed m)
      × IsEnd last k r

  module _ (last n left : ℕ) (e : last ≡ n + left) where
    stops : (r : Result ClientError A) → IsEnd last n r → Attempted last n (r, [])
    unfolding Attempted
    stops r end = (n, omega arith, omega arith, tt, λ m a b. absurd (omega arith), end)

    last_attempt :
        {retryable : Bool} → retryable ≡ true → (retryable && ltb 0 left) ≡ false → n ≡ last
    last_attempt {retryable = true} h no_more = ground arith
    last_attempt {retryable = false} h no_more = cc

    judged-Attempted :
        (again : Option Response → Result ClientError A × List ℕ) (reply : Reply A)
        → call n ≡ reply
        → (Failed n → 0 < left → Attempted last n (again reply.0))
        → Attempted last n (judged call cancelled_before again left reply)
    unfolding judged IsEnd Failed
    judged-Attempted again (resp, ok a) h next = stops (ok a) (inl (a, ap (λ p. p.1) h, refl))
    judged-Attempted again (resp, err x) h next =
        let same : is_retryable (call n).0 x ≡ is_retryable resp x =
          ap (λ p. is_retryable p.0 x) h in
        let failure : (call n).1 ≡ err x = ap (λ p. p.1) h in
        elim (Bool-cases (is_retryable resp x && ltb 0 left)) [
          | inl again_on ↦ rw again_on (next (x, failure, same ∙ ground arith) (ground arith))
          | inr given_up ↦ rw given_up (
              stops (err (failed x))
                (inr (inl (x, failure, refl, λ worth. last_attempt (sym same ∙ worth) given_up))))
        ]

  -- The attempts that follow a wait.
  waited :
      (last n d : ℕ) (o : Result ClientError A × List ℕ)
      → IsDelay d
      → Failed n
      → Attempted last (suc n) o
      → Attempted last n (after_wait call cancelled_before d o)
  unfolding Attempted
  waited last n d (r, ds) delay f (k, le, len, delays, earlier, end) = (
    k,
    le,
    omega arith,
    (delay, delays),
    λ m from before. elim (Bool-cases (ltb n m)) [
      | inl after ↦ earlier m (ltb→lt n m after) before
      | inr first ↦ let same : n ≡ m = ground arith in subst Failed same f
    ],
    end,
  )

  attempt_from-Attempted :
      (last left n : ℕ)
      → last ≡ n + left
      → Attempted last n (attempt_from call cancelled_before left n)
  unfolding attempt_from IsEnd
  attempt_from-Attempted last zero n e =
      judged-Attempted last n 0 e (λ resp. (err cancelled, [])) (call n) refl
        (λ f more. absurd (omega arith))
  attempt_from-Attempted last (suc left) n e =
      let rest = attempt_from call cancelled_before left (suc n) in
      let again : Option Response → Result ClientError A × List ℕ = λ resp.
        if cancelled_before (suc n)
        then (err cancelled, [])
        else after_wait call cancelled_before (retry_delay (suc n) resp) rest in
      judged-Attempted last n (suc left) e again (call n) refl (λ f more.
        elim (Bool-cases (cancelled_before (suc n))) [
          | inl ended ↦
              rw ended (
                stops last n (suc left) e (err cancelled) (inr (inr (f, ended, omega arith, refl))))
          | inr going ↦ rw going (
              waited last n (retry_delay (suc n) (call n).0) rest
                (retry_delay-IsDelay (suc n) (call n).0) f
                (attempt_from-Attempted last left (suc n) (omega arith)))
        ])

  -- A call is made three times at most, and the result is that of the last attempt `k`: a value; an error
  -- that is not worth another attempt, or the third; or the end of the context before the next attempt.
  -- Each earlier attempt had an error that is worth another one, and there is one wait of one second to
  -- one minute between two attempts.
  pub do_with_retry_contract :
      (k : ℕ) × (k ≤ 2)
      × (length (do_with_delays call cancelled_before).1 ≡ k)
      × All IsDelay (do_with_delays call cancelled_before).1
      × ((m : ℕ) → m < k → Failed m)
      × IsEnd 2 k (do_with_retry call cancelled_before)
  unfolding do_with_delays do_with_retry Attempted
  do_with_retry_contract =
      let (k, le, len, delays, earlier, end) = attempt_from-Attempted 2 2 0 (omega arith) in
      let waits : length (do_with_delays call cancelled_before).1 ≡ k = omega (arith, len) in
      (k, le, waits, delays, λ m before. earlier m (omega arith) before, end)
