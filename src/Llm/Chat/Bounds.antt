-- ===== src/Llm/Chat/Bounds.antt =====
-- How often `chat` sends a request, how long it waits, and what it lets through.
use arcticworks_codepeer.Base.{
  ℕ, suc, ◌+◌, ◌≤◌, ◌≡◌, refl, sym, ap, ◌∙◌, Bool, true, false, Option, none, some, inl, inr, List,
  [], ◌∷◌, ◌++◌, append_assoc, append-nil, arith, ◌==◌, if◌then◌else◌, ℤ, pos, ◌≤ℤ◌, ◌<ℤ◌, ltb_ℤ,
  leb_ℤ, str_eq, length, All, Bool-cases,
}
use arcticworks_codepeer.Base.Text.{Text, trim_space}
use arcticworks_codepeer.Base.Text.Decimal.{atoi}
use arcticworks_codepeer.Base.Result.{Result, ok, err}
use arcticworks_codepeer.Base.Action.{Action, resume}
use arcticworks_codepeer.Llm.Validate.{ReviewError}
use arcticworks_codepeer.Llm.Chat.{
  Config, ApiRequest, ApiResponse, HttpReply, Event, sent, slept, Wire, minute, at_most_minute,
  seconds, until_delay, seconds_delay, parse_retry_after, is_retryable, retry_delays, delay_or,
  do_with, received, sleep_ctx, next_delay, judge, attempts, give_up, wait_then, chat, request_of,
  response_of,
}

-- The number of requests in a history.
abbrev pub sends : List Event → ℕ
sends [] = 0
sends (sent r ∷ es) = suc (sends es)
sends (slept d ∷ es) = sends es

-- A wait is longer than nothing and at most a minute.
abbrev pub IsFair : Event → Type 0
IsFair (sent r) = Unit
IsFair (slept d) = (pos 0 <ℤ d) × (d ≤ℤ pos 60_000_000_000)

-- After a request there is at most one wait before the next, a fair one; `may_wait` tells whether it may
-- come first.
abbrev pub IsPaced : Bool → List Event → Type 0
IsPaced may_wait [] = Unit {0}
IsPaced may_wait (sent r ∷ es) = IsPaced true es
IsPaced may_wait (slept d ∷ es) = (may_wait ≡ true) × IsFair (slept d) × IsPaced false es

-- `h'` is `h` and at most `n` more requests, with at most one fair wait after each.
abbrev pub Extends : ℕ → List Event → List Event → Type 0
Extends n h h' = (es : List Event) × (h' ≡ h ++ es) × (sends es ≤ n) × IsPaced false es

-- A response that is let through has status 200 and is not a failure.
abbrev pub IsAnswer : Result ReviewError ApiResponse → Type 0
IsAnswer (err e) = Unit
IsAnswer (ok r) = (r.status_code ≡ 200) × (str_eq r.body.status "failed" ≡ false)

sends-append : (es fs : List Event) → sends (es ++ fs) ≡ sends es + sends fs
sends-append [] fs = ground arith
sends-append (sent r ∷ es) fs = ground (arith, sends-append es fs)
sends-append (slept d ∷ es) fs = sends-append es fs

IsPaced-append :
    (may_wait : Bool) (es fs : List Event)
    → IsPaced may_wait es
    → IsPaced false fs
    → IsPaced may_wait (es ++ fs)
IsPaced-append may_wait [] [] h k = tt
IsPaced-append may_wait [] (sent r ∷ fs) h k = k
IsPaced-append may_wait [] (slept d ∷ fs) h k = absurd cc
IsPaced-append may_wait (sent r ∷ es) fs h k = IsPaced-append true es fs h k
IsPaced-append may_wait (slept d ∷ es) fs (first, fair, paced) k =
    (first, fair, IsPaced-append false es fs paced k)

pub Extends-refl : (h : List Event) → Extends 0 h h
Extends-refl h = ([], sym (append-nil h), ground arith, tt)

pub Extends-trans :
    (a b c : List Event) (n m : ℕ) → Extends n a b → Extends m b c → Extends (n + m) a c
Extends-trans a b c n m (es, e, few, fair) (fs, f, less, just) = (
  es ++ fs,
  f ∙ (ap (λ x. x ++ fs) e ∙ append_assoc a es fs),
  omega (arith, sends-append es fs),
  IsPaced-append false es fs fair just,
)

pub Extends-le : (a b : List Event) (n m : ℕ) → n ≤ m → Extends n a b → Extends m a b
Extends-le a b n m h (es, e, few, fair) = (es, e, omega arith, fair)

at_most_minute-le : (d : ℤ) → at_most_minute d ≤ℤ minute
at_most_minute-le d = ground arith

abbrev IsShort : Option ℤ → Type 0
IsShort none = Unit
IsShort (some d) = d ≤ℤ minute

until_delay-IsShort : (o : Option ℤ) → IsShort (until_delay o)
unfolding until_delay
until_delay-IsShort none = tt
until_delay-IsShort (some d) = at_most_minute-le (if ltb_ℤ d (pos 0) then pos 0 else d)

seconds_delay-IsShort : (secs until : Option ℤ) → IsShort (seconds_delay secs until)
unfolding seconds_delay
seconds_delay-IsShort (some n) until = at_most_minute-le (seconds n)
seconds_delay-IsShort none until = until_delay-IsShort until

-- A header "Retry-After" never asks for more than a minute.
parse_retry_after-IsShort : (until : Option ℤ) (v : Text) → IsShort (parse_retry_after until v)
unfolding parse_retry_after
parse_retry_after-IsShort until [] = tt
parse_retry_after-IsShort until (c ∷ v) = seconds_delay-IsShort (atoi (trim_space (c ∷ v))) until

delay_or-le : (d : ℕ) (o : Option ℤ) → pos d ≤ℤ minute → IsShort o → delay_or d o ≤ℤ minute
unfolding delay_or
delay_or-le d none h k = h
delay_or-le d (some after) h k = k

module _ (wire : Wire) (cfg : Config) where
  -- What an action makes of a history.
  abbrev Does : ℕ → List Event → Result ReviewError ApiResponse × List Event → Type 0
  Does n h (r, h') = Extends n h h' × IsAnswer r

  judge-Does :
      (again : ApiResponse → Action (List Event) ReviewError ApiResponse) (resp : ApiResponse)
      (n : ℕ) (h h1 : List Event)
      → Extends n h h1
      → (is_retryable resp.status_code ≡ true → Does n h (again resp h1))
      → Does n h (judge wire cfg again resp h1)
  unfolding judge
  judge-Does again resp n h h1 e k = elim (Bool-cases (resp.status_code == 200)) [
    | inl a ↦ elim (Bool-cases (str_eq resp.body.status "failed")) [
      | inl b ↦ rw (a, b) (e, tt)
      | inr b ↦ rw (a, b) (e, (ground arith, b))
    ]
    | inr a ↦ elim (Bool-cases (is_retryable resp.status_code)) [
      | inl b ↦ rw (a, b) (k b)
      | inr b ↦ rw (a, b) (e, tt)
    ]
  ]

  sent-Extends : (r : ApiRequest) (h : List Event) → Extends 1 h (h ++ sent r ∷ [])
  sent-Extends r h = (sent r ∷ [], refl, ground arith, tt)

  received-Does :
      (again : ApiResponse → Action (List Event) ReviewError ApiResponse)
      (o : Result Text HttpReply) (n : ℕ) (h h1 : List Event)
      → Extends n h h1
      → ((resp : ApiResponse) → Does n h (again resp h1))
      → Does n h (resume (judge wire cfg again) (received wire cfg o h1))
  unfolding received
  received-Does again (err e) n h h1 x k = (x, tt)
  received-Does again (ok r) n h h1 x k =
      let resp = response_of wire.unmarshal r in judge-Does again resp n h h1 x (λ _. k resp)

  -- A wait, or none.
  abbrev Waits : List Event → List Event → Type 0
  Waits h h' = (es : List Event) × (h' ≡ h ++ es) × (sends es ≡ 0) × IsPaced true es

  sleep_ctx-Waits : (d : ℤ) (h : List Event) → d ≤ℤ minute → Waits h (sleep_ctx wire cfg d h).1
  unfolding sleep_ctx
  sleep_ctx-Waits d h short = elim (Bool-cases (leb_ℤ d (pos 0))) [
    | inl a ↦ rw a ([], sym (append-nil h), refl, tt)
    | inr a ↦ elim (Bool-cases (wire.is_cancelled h)) [
      | inl b ↦ rw (a, b) ([], sym (append-nil h), refl, tt)
      | inr b ↦ rw (a, b) (slept d ∷ [], refl, refl, (refl, (ground arith, short), tt))
    ]
  ]

  -- A request and the wait after it.
  waited-Extends :
      (r : ApiRequest) (h h2 : List Event) → Waits (h ++ sent r ∷ []) h2 → Extends 1 h h2
  waited-Extends r h h2 (es, e, none_sent, paced) =
      (sent r ∷ es, e ∙ append_assoc h (sent r ∷ []) es, omega arith, paced)

  -- A wait, and what follows it.
  slept-Does :
      (next : Action (List Event) ReviewError ApiResponse) (n : ℕ) (r : ApiRequest) (h : List Event)
      (o : Result ReviewError (Unit {0}) × List Event)
      → Waits (h ++ sent r ∷ []) o.1
      → ((x : List Event) → Does n x (next x))
      → Does (suc n) h (resume (λ _. next) o)
  slept-Does next n r h (err e, h2) w k =
      (Extends-le h h2 1 (suc n) (ground arith) (waited-Extends r h h2 w), tt)
  slept-Does next n r h (ok _, h2) w k =
      let (c, good) = k h2 in
      let all = Extends-trans h h2 (next h2).1 1 n (waited-Extends r h h2 w) c in
      (Extends-le h (next h2).1 (1 + n) (suc n) (ground arith) all, good)

  attempts-Does :
      (ds : List ℕ) (instructions input : Text) (h : List Event)
      → All (λ d. pos d ≤ℤ minute) ds
      → Does (suc (length ds)) h (attempts wire cfg ds instructions input h)
  unfolding attempts do_with give_up wait_then next_delay
  attempts-Does [] instructions input h a =
      let r = request_of cfg instructions input true in
      let e = sent-Extends r h in
      received-Does (give_up wire cfg) (wire.post h r) 1 h (h ++ sent r ∷ []) e (λ resp. (e, tt))
  attempts-Does (d ∷ ds) instructions input h a =
      let r = request_of cfg instructions input true in
      let h1 = h ++ sent r ∷ [] in
      let n = suc (length ds) in
      let e = sent-Extends r h in
      let next = attempts wire cfg ds instructions input in
      received-Does (wait_then wire cfg next d) (wire.post h r) (suc n) h h1
        (Extends-le h h1 1 (suc n) (ground arith) e)
        (λ resp.
          slept-Does next n r h (sleep_ctx wire cfg (next_delay wire cfg d resp h1) h1)
            (sleep_ctx-Waits (next_delay wire cfg d resp h1) h1 (
              delay_or-le d
                (parse_retry_after (wire.time_until h1 resp.retry_after) resp.retry_after) a.0
                (parse_retry_after-IsShort (wire.time_until h1 resp.retry_after) resp.retry_after)))
            (λ x. attempts-Does ds instructions input x a.1))

  -- A call sends at most three requests, with at most one wait of a minute at most after each; the
  -- response that it returns has status 200 and is not a failure.
  pub chat-Does :
      (instructions input : Text) (h : List Event) → Does 3 h (chat wire cfg instructions input h)
  unfolding chat
  chat-Does instructions input h =
      attempts-Does retry_delays instructions input h (ground arith, (ground arith, tt))
