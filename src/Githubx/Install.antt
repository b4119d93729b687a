-- ===== src/Githubx/Install.antt =====
-- internal/githubx/install.go: the calls that the app makes with its own token, and the login of its bot. They are
-- not tried again. The calls of go-github are parameters, by the token; a failed call gives its message.
use arcticworks_codepeer.Base.{
  ℕ, ◌≡◌, ◌≢◌, refl, subst, Bool, false, not, Option, none, some, List, [], ◌∷◌, map, String,
  is_nil, length, if◌then◌else◌, inl, inr, Bool-cases, arith,
}
use arcticworks_codepeer.Base.Action.{Action, pure, fail, resume, ◌>>=◌}
use arcticworks_codepeer.Base.Text.{Text}
use arcticworks_codepeer.Base.Result.{Result, ok, err}
use arcticworks_codepeer.Domain.{Installation}
use arcticworks_codepeer.Githubx.Auth.{Issuer, Tokens, AuthError, app_jwt}
use arcticworks_codepeer.Githubx.Operations.{client_for}

data InstallError : Type 0 where
  unauthorized : AuthError → InstallError
  refused : Text → InstallError

-- go-github's Installation, HookConfig and app, as far as the code reads or writes them.
record Account : Type 0 where
  id : ℕ
  login : String
  kind : String

record AppInstallation : Type 0 where
  id : ℕ
  account : Option Account

record HookConfig : Type 0 where
  url : Text
  content_type : String
  secret : Text

record HookUpdate : Type 0 where
  url : Text
  content_type : String

record AppInfo : Type 0 where
  name : Text
  slug : Text

-- The context of an installation.
abbrev with_installation : ℕ → Option ℕ → Option ℕ
with_installation id bound = some id

-- What a Client keeps: its tokens, the login of its configuration, and the login that was found.
record Identity : Type 0 where
  tokens : Tokens
  self_login : Text
  resolved_login : Text

from_tokens :
    {A : Type 0} → Identity → Result AuthError A × Tokens → Result InstallError A × Identity
from_tokens s (err e, t) = (err (unauthorized e), record s { tokens = t })
from_tokens s (ok a, t) = (ok a, record s { tokens = t })

answered : {A : Type 0} → Result Text A → Action Identity InstallError A
answered (err e) = fail (refused e)
answered (ok a) = pure a

installation_of : AppInstallation → Installation
installation_of i = account_of i.account
  where
    account_of : Option Account → Installation
    account_of none = record { id = i.id; account_id = 0; account_login = ""; account_type = "" }
    account_of (some a) = record {
      id = i.id;
      account_id = a.id;
      account_login = a.login;
      account_type = a.kind;
    }

module _ (app : Issuer) (now : ℕ) where
  with_jwt : {A : Type 0} → (Text → Result Text A) → Action Identity InstallError A
  unfolding from_tokens answered
  with_jwt api s = resume (λ jwt. answered (api jwt)) (from_tokens s (app_jwt app now s.tokens))

  auth_check : (Text → Result Text (List AppInstallation)) → Action Identity InstallError ℕ
  unfolding with_jwt
  auth_check api = with_jwt api >>= λ installs. pure (length installs)

  list_installations :
      (Text → Result Text (List AppInstallation)) → Action Identity InstallError (List Installation)
  unfolding with_jwt installation_of
  list_installations api = with_jwt api >>= λ installs. pure (map installation_of installs)

  -- The address, its content type, and whether a secret is set.
  app_hook_config :
      (Text → Result Text HookConfig) → Action Identity InstallError (Text × String × Bool)
  unfolding with_jwt
  app_hook_config api =
      with_jwt api >>= λ cfg. pure (cfg.url, cfg.content_type, not (is_nil cfg.secret))

  app_info : (Text → Result Text AppInfo) → Action Identity InstallError (Text × Text)
  unfolding with_jwt
  app_info api = with_jwt api >>= λ info. pure (info.name, info.slug)

  set_app_hook_url :
      (Text → HookUpdate → Result Text (Unit {0})) → Text → Action Identity InstallError (Unit {0})
  unfolding with_jwt
  set_app_hook_url api url = with_jwt (λ jwt. api jwt (record { url = url; content_type = "json" }))

  module _ (bound : Option ℕ) (list : Text → Result Text (List AppInstallation))
      (user : Text → Result Text Text) where
    keep_login : Text → Action Identity InstallError Text
    keep_login login s = (ok login, record s { self_login = login; resolved_login = login })

    -- The login that the token of the first installation belongs to.
    first_login : List AppInstallation → Action Identity InstallError Text
    unfolding keep_login
    first_login [] s = pure [] s
    first_login (i ∷ installs) s =
        resume (λ token. answered (user token) >>= keep_login)
          (from_tokens s (client_for app now bound i.id s.tokens))

    resolve_self_login : Action Identity InstallError Text
    unfolding with_jwt first_login
    resolve_self_login s =
        if not (is_nil s.self_login)
        then (ok s.self_login, s)
        else if not (is_nil s.resolved_login)
        then (ok s.resolved_login, s)
        else (with_jwt list >>= first_login) s

-- The login that is known without a call.
known_login : Identity → Text
known_login s = if not (is_nil s.self_login) then s.self_login else s.resolved_login

IsKnown : Result InstallError Text × Identity → Type 0
IsKnown (err e, s) = Unit {0}
IsKnown (ok login, s) = login ≢ [] → known_login s ≡ login

empty-IsKnown : (s : Identity) → IsKnown (ok [], s)
unfolding IsKnown
empty-IsKnown s = λ h. absurd (h refl)

resume-IsKnown :
    {A : Type 0} (rest : A → Action Identity InstallError Text)
    (o : Result InstallError A × Identity)
    → ((a : A) (s : Identity) → IsKnown (rest a s))
    → IsKnown (resume rest o)
unfolding IsKnown
resume-IsKnown rest (err e, s) h = tt
resume-IsKnown rest (ok a, s) h = h a s

module _ (app : Issuer) (now : ℕ) (bound : Option ℕ)
    (list : Text → Result Text (List AppInstallation)) (user : Text → Result Text Text) where
  keep_login-IsKnown :
      (login : Text) (s : Identity) → IsKnown (keep_login app now bound list user login s)
  unfolding keep_login IsKnown known_login
  keep_login-IsKnown [] s = λ h. absurd (h refl)
  keep_login-IsKnown (c ∷ login) s = λ h. refl

  first_login-IsKnown :
      (installs : List AppInstallation) (s : Identity)
      → IsKnown (first_login app now bound list user installs s)
  unfolding first_login
  first_login-IsKnown [] s = empty-IsKnown s
  first_login-IsKnown (i ∷ installs) s =
      resume-IsKnown _ (from_tokens s (client_for app now bound i.id s.tokens))
        (λ token s1. resume-IsKnown _ (answered (user token) s1) keep_login-IsKnown)

  resolve_self_login-IsKnown :
      (s : Identity) → IsKnown (resolve_self_login app now bound list user s)
  unfolding resolve_self_login IsKnown known_login
  resolve_self_login-IsKnown s = elim (Bool-cases (is_nil s.self_login)) [
    | inr e ↦ rw e (λ h. ground arith)
    | inl e ↦ elim (Bool-cases (is_nil s.resolved_login)) [
      | inr f ↦ rw (e, f) (λ h. ground arith)
      | inl f ↦ rw (e, f) (resume-IsKnown _ (with_jwt app now list s) first_login-IsKnown)
    ]
  ]

  known_login-resolved :
      (s : Identity) (login : Text)
      → login ≢ []
      → known_login s ≡ login
      → resolve_self_login app now bound list user s ≡ (ok login, s)
  unfolding resolve_self_login known_login
  known_login-resolved s [] n h = absurd (n refl)
  known_login-resolved s (c ∷ login) n h = elim (Bool-cases (is_nil s.self_login)) [
    | inr e ↦ ground arith
    | inl e ↦ let f : is_nil s.resolved_login ≡ false = ground arith in ground arith
  ]

-- If a login that is not empty is returned, whatever GitHub answered, each later call returns the same login,
-- changes nothing, and does not depend on what GitHub would answer then.
resolve_self_login_kept :
    (app app' : Issuer) (now now' : ℕ) (bound bound' : Option ℕ)
    (list list' : Text → Result Text (List AppInstallation)) (user user' : Text → Result Text Text)
    (s s' : Identity) (login : Text)
    → resolve_self_login app now bound list user s ≡ (ok login, s')
    → login ≢ []
    → resolve_self_login app' now' bound' list' user' s' ≡ (ok login, s')
unfolding IsKnown
resolve_self_login_kept app app' now now' bound bound' list list' user user' s s' login h n =
    known_login-resolved app' now' bound' list' user' s' login n
      (subst IsKnown h (resolve_self_login-IsKnown app now bound list user s) n)
