-- ===== src/Githubx/Auth.antt =====
-- internal/githubx/auth.go: the token of the app and the tokens of its installations, which are kept until
-- they are about to expire. Times are nanoseconds. The signature and GitHub are parameters; another
-- worker does not change the tokens while one is being asked for.
use arcticworks_codepeer.Base.{
  ℕ, ◌+◌, ◌-◌, ◌*◌, ◌<◌, ◌≡◌, refl, ap, subst, ◌∙◌, Bool, true, false, not, ◌&&◌, inl, inr, ◌⊎◌,
  Option, none, some, Bool-cases, ltb, ◌==◌, if◌then◌else◌, is_nil, ℤ, arith,
}
use arcticworks_codepeer.Base.Text.{Text}
use arcticworks_codepeer.Base.Text.Decimal.{itoa}
use arcticworks_codepeer.Base.Result.{Result, ok, err}
use arcticworks_codepeer.Githubx.Retry.{ClientError, do_with_retry}
use arcticworks_codepeer.Githubx.Client.{Call}

abbrev minute : ℕ
minute = 60_000_000_000

abbrev jwt_validity : ℕ
jwt_validity = 10 * minute

abbrev jwt_refresh_window : ℕ
jwt_refresh_window = 2 * minute

abbrev pub install_token_buffer : ℕ
install_token_buffer = 5 * minute

abbrev install_token_ttl : ℕ
install_token_ttl = 60 * minute

pub record CachedToken : Type 0 where
  pub token : Text
  pub expires_at : ℕ

abbrev pub TokenMap : Type 0
TokenMap = ℕ → Option CachedToken

-- The state of a Client that its calls for tokens change.
pub record Tokens : Type 0 where
  pub jwt_token : Text
  pub jwt_expiry : ℕ
  pub tokens : TokenMap

pub record Claims : Type 0 where
  pub issued_at : ℕ
  pub expires_at : ℕ
  pub issuer : Text

pub data AuthError : Type 0 where
  not_signed empty_token : AuthError
  refused : ClientError → AuthError

-- An installation token of GitHub's answer, with its end if it has one.
abbrev pub Created : Type 0
Created = Text × Option ℕ

-- What the tokens come from: the identity of the app, the signature of claims, GitHub's answer for a
-- token of the app and an installation, and the clock after that answer.
pub record Issuer : Type 0 where
  pub app_id : ℤ
  pub client_id : Text
  pub sign : Claims → Option Text
  pub create : Text → ℕ → Call Created
  pub answered_at : ℕ

-- `time.Until(expiry) > window`
abbrev outlives : ℕ → ℕ → ℕ → Bool
outlives expiry now window = ltb (now + window) expiry

abbrev claims_at : Issuer → ℕ → Claims
claims_at app now = record {
  issued_at = now - minute;
  expires_at = now + jwt_validity;
  issuer = if is_nil app.client_id then itoa app.app_id else app.client_id;
}

signed_at : ℕ → Tokens → Option Text → Result AuthError Text × Tokens
signed_at now s none = (err not_signed, s)
signed_at now s (some jwt) = (ok jwt, record s { jwt_token = jwt; jwt_expiry = now + jwt_validity })

unfoldable pub app_jwt : Issuer → ℕ → Tokens → Result AuthError Text × Tokens
unfolding signed_at
app_jwt app now s =
    if not (is_nil s.jwt_token) && outlives s.jwt_expiry now jwt_refresh_window
    then (ok s.jwt_token, s)
    else signed_at now s (app.sign (claims_at app now))

abbrev expiry_of : Issuer → Option ℕ → ℕ
expiry_of app none = app.answered_at + install_token_ttl
expiry_of app (some at) = at

abbrev put : ℕ → CachedToken → TokenMap → TokenMap
put i c m j = if i == j then some c else m j

keep_created : Issuer → ℕ → Tokens → Result ClientError Created → Result AuthError Text × Tokens
keep_created app i s (err e) = (err (refused e), s)
keep_created app i s (ok (token, end)) = if is_nil token then (err empty_token, s) else (
  ok token,
  record s { tokens = put i (record { token = token; expires_at = expiry_of app end }) s.tokens },
)

requested : Issuer → ℕ → Result AuthError Text × Tokens → Result AuthError Text × Tokens
unfolding keep_created
requested app i (err e, s) = (err e, s)
requested app i (ok jwt, s) =
    keep_created app i s
      (do_with_retry (app.create jwt i).reply (app.create jwt i).cancelled_before)

cached_or :
    Result AuthError Text × Tokens
    → ℕ
    → Tokens
    → Option CachedToken
    → Result AuthError Text × Tokens
cached_or fresh now s none = fresh
cached_or fresh now s (some c) =
    if outlives c.expires_at now install_token_buffer then (ok c.token, s) else fresh

unfoldable pub installation_token : Issuer → ℕ → ℕ → Tokens → Result AuthError Text × Tokens
unfolding app_jwt requested cached_or
installation_token app now i s = cached_or (requested app i (app_jwt app now s)) now s (s.tokens i)

-- The end of a token: what GitHub's answer says, or an hour after the answer.
abbrev pub EndsAt : Issuer → Option ℕ → ℕ → Type 0
EndsAt app none e = e ≡ app.answered_at + 3_600_000_000_000
EndsAt app (some at) e = e ≡ at

-- Where a token with its end comes from: it was kept and lasts for more than five minutes, or it is
-- GitHub's answer to a token of the app.
abbrev pub IsFrom : Issuer → ℕ → ℕ → Tokens → Tokens → Text → ℕ → Type 0
IsFrom app now i s s' t e =
    ((s' ≡ s) × (now + 300_000_000_000 < e))
    ⊎ ((jwt : Text) × (end : Option ℕ) × (do_with_retry (app.create jwt i).reply
            (app.create jwt i).cancelled_before
          ≡ ok (t, end))
        × EndsAt app end e)

abbrev HasKept : Issuer → ℕ → ℕ → Tokens → Tokens → Text → Type 0
HasKept app now i s s' t =
    (e : ℕ) × (s'.tokens i ≡ some (record { token = t; expires_at = e }))
    × ((j : ℕ) → ¬ (i ≡ j) → s'.tokens j ≡ s.tokens j)
    × IsFrom app now i s s' t e

IsKept : Issuer → ℕ → ℕ → Tokens → Result AuthError Text × Tokens → Type 0
IsKept app now i s (err e, s') = Unit {0}
IsKept app now i s (ok t, s') = HasKept app now i s s' t

expiry_of-EndsAt : (app : Issuer) (end : Option ℕ) → EndsAt app end (expiry_of app end)
expiry_of-EndsAt app none = refl
expiry_of-EndsAt app (some at) = refl

put_here : (i : ℕ) (c : CachedToken) (m : TokenMap) → put i c m i ≡ some c
put_here i c m = let same : (i == i) ≡ true = ground arith in rw same refl

put_elsewhere : (i j : ℕ) (c : CachedToken) (m : TokenMap) → ¬ (i ≡ j) → put i c m j ≡ m j
put_elsewhere i j c m h = let other : (i == j) ≡ false = ground arith in rw other refl

keep_created-IsKept :
    (app : Issuer) (now i : ℕ) (s s1 : Tokens) (jwt : Text) (r : Result ClientError Created)
    → do_with_retry (app.create jwt i).reply (app.create jwt i).cancelled_before ≡ r
    → s1.tokens ≡ s.tokens
    → IsKept app now i s (keep_created app i s1 r)
unfolding keep_created IsKept
keep_created-IsKept app now i s s1 jwt (err e) asked same = tt
keep_created-IsKept app now i s s1 jwt (ok (token, end)) asked same =
    elim (Bool-cases (is_nil token)) [
      | inl empty ↦ rw empty tt
      | inr full ↦
          let c : CachedToken = record { token = token; expires_at = expiry_of app end } in
          rw full (
            c.expires_at,
            put_here i c s1.tokens,
            λ j other. put_elsewhere i j c s1.tokens other ∙ ap (λ m. m j) same,
            inr (jwt, end, asked, expiry_of-EndsAt app end),
          )
    ]

requested-IsKept :
    (app : Issuer) (now i : ℕ) (s : Tokens) (o : Result AuthError Text × Tokens)
    → o.1.tokens ≡ s.tokens
    → IsKept app now i s (requested app i o)
unfolding requested IsKept
requested-IsKept app now i s (err e, s1) h = tt
requested-IsKept app now i s (ok jwt, s1) h = keep_created-IsKept app now i s s1 jwt _ refl h

signed_at-tokens :
    (now : ℕ) (s : Tokens) (o : Option Text) → (signed_at now s o).1.tokens ≡ s.tokens
unfolding signed_at
signed_at-tokens now s none = refl
signed_at-tokens now s (some jwt) = refl

app_jwt-tokens : (app : Issuer) (now : ℕ) (s : Tokens) → (app_jwt app now s).1.tokens ≡ s.tokens
unfolding app_jwt
app_jwt-tokens app now s =
    elim (Bool-cases (not (is_nil s.jwt_token) && outlives s.jwt_expiry now jwt_refresh_window)) [
      | inl live ↦ rw live refl
      | inr stale ↦ rw stale (signed_at-tokens now s (app.sign (claims_at app now)))
    ]

cached_or-IsKept :
    (app : Issuer) (fresh : Result AuthError Text × Tokens) (now i : ℕ) (s : Tokens)
    (o : Option CachedToken)
    → s.tokens i ≡ o
    → IsKept app now i s fresh
    → IsKept app now i s (cached_or fresh now s o)
unfolding cached_or IsKept
cached_or-IsKept app fresh now i s none h k = k
cached_or-IsKept app fresh now i s (some c) h k =
    elim (Bool-cases (outlives c.expires_at now install_token_buffer)) [
      | inl live ↦ rw live (c.expires_at, h, λ j other. refl, inl (refl, ground arith))
      | inr stale ↦ rw stale k
    ]

cached_or-live :
    (fresh : Result AuthError Text × Tokens) (now e : ℕ) (s : Tokens) (t : Text)
    → now + install_token_buffer < e
    → cached_or fresh now s (some (record { token = t; expires_at = e })) ≡ (ok t, s)
unfolding cached_or
cached_or-live fresh now e s t h =
    let live : outlives e now install_token_buffer ≡ true = ground arith in rw live refl

installation_token-IsKept :
    (app : Issuer) (now i : ℕ) (s : Tokens) → IsKept app now i s (installation_token app now i s)
unfolding installation_token
installation_token-IsKept app now i s =
    cached_or-IsKept app (requested app i (app_jwt app now s)) now i s (s.tokens i) refl
      (requested-IsKept app now i s (app_jwt app now s) (app_jwt-tokens app now s))

-- If a token is returned for an installation, it is kept with its end, and the tokens that are kept for
-- other installations are as before. The token was kept already and ends more than five minutes from now,
-- and nothing has changed; or it is GitHub's answer, and its end is the one in the answer, or an hour after
-- the answer if that has none. Asked again for that installation more than five minutes before the end,
-- the client returns the same token and changes nothing, whatever GitHub would answer.
pub installation_token_kept :
    (app : Issuer) (now i : ℕ) (s s' : Tokens) (t : Text)
    → installation_token app now i s ≡ (ok t, s')
    → (e : ℕ) × (s'.tokens i ≡ some (record { token = t; expires_at = e }))
      × ((j : ℕ) → ¬ (i ≡ j) → s'.tokens j ≡ s.tokens j)
      × IsFrom app now i s s' t e
      × ((app' : Issuer) (later : ℕ)
          → later + 300_000_000_000 < e
          → installation_token app' later i s' ≡ (ok t, s'))
unfolding installation_token cached_or IsKept
installation_token_kept app now i s s' t h =
    let (e, kept, others, from) =
      subst (IsKept app now i s) h (installation_token-IsKept app now i s) in
    (
      e,
      kept,
      others,
      from,
      λ app' later soon.
          ap (cached_or (requested app' i (app_jwt app' later s')) later s') kept
          ∙ cached_or-live (requested app' i (app_jwt app' later s')) later e s' t (ground arith),
    )
