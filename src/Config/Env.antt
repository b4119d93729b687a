-- ===== src/Config/Env.antt =====
-- internal/config/env.go: the configuration of the process. `time.ParseDuration`, the decoder of base64 and
-- the reader of a file are parameters; durations are numbers of nanoseconds.
use arcticworks_codepeer.Base.{
  ℕ, Bool, ◌&&◌, Option, none, some, List, [], ◌∷◌, ◌==◌, ◌*◌, ◌++◌, if◌then◌else◌, is_nil, ℤ, pos,
}
use arcticworks_codepeer.Base.Text.{Text, codes, has_prefix, trim_space, fields}
use arcticworks_codepeer.Base.Text.Decimal.{atoi}
use arcticworks_codepeer.Base.Result.{Result, ok, err, ◌>>=◌}
use arcticworks_codepeer.Config.Dotenv.{
  Environ, EnvError, EnvFile, invalid_value, required, or_default, load_dotenv,
}

pub record Env : Type 0 where
  pub port : Text
  pub log_level : Text
  pub database_url : Text
  pub github_app_id : ℤ
  pub github_app_private_key : Text
  pub github_app_client_id : Text
  pub github_webhook_secret : Text
  pub bot_login : Text
  pub llm_base_url : Text
  pub llm_api_key : Text
  pub llm_model : Text
  pub llm_reasoning_effort : Text
  pub llm_timeout : ℤ
  pub queue_workers : ℤ
  pub queue_poll_interval : ℤ
  pub queue_max_attempts : ℤ
  pub queue_lease_ttl : ℤ

-- `os.Getenv`, and the default of a variable that is empty or not set.
abbrev env_or : Text → Environ → Text → Text
env_or default env key = or_default default (env key)

abbrev getenv : Environ → Text → Text
getenv env key = env_or [] env key

parsed_or : ℤ → Text → (Text → Option ℤ) → Text → Result EnvError ℤ
parsed_or default key parse [] = ok default
parsed_or default key parse (c ∷ v) = elim (parse (c ∷ v)) [
  | none ↦ err (invalid_value key)
  | some n ↦ ok n
]

abbrev second : ℕ
second = 1_000_000_000

module _ (parse_duration : Text → Option ℤ) where
  abbrev duration_env : Environ → Text → ℤ → Result EnvError ℤ
  duration_env env key default = parsed_or default key parse_duration (getenv env key)

  abbrev int_env : Environ → Text → ℤ → Result EnvError ℤ
  int_env env key default = parsed_or default key atoi (getenv env key)

  must_have : Environ → Text → Result EnvError Text
  must_have env key = if is_nil (getenv env key) then err (required key) else ok (getenv env key)

  from_environ : Environ → Result EnvError Env
  unfolding parsed_or must_have
  from_environ env = do
    timeout ← duration_env env (codes "LLM_TIMEOUT") (pos (300 * second))
    poll ← duration_env env (codes "QUEUE_POLL_INTERVAL") (pos (2 * second))
    lease ← duration_env env (codes "QUEUE_LEASE_TTL") (pos (900 * second))
    workers ← int_env env (codes "QUEUE_WORKERS") (pos 2)
    attempts ← int_env env (codes "QUEUE_MAX_ATTEMPTS") (pos 5)
    url ← must_have env (codes "DATABASE_URL")
    secret ← must_have env (codes "GITHUB_WEBHOOK_SECRET")
    app ← must_have env (codes "GITHUB_APP_ID")
    id ← parsed_or (pos 0) (codes "GITHUB_APP_ID") atoi app
    ok (record {
      port = env_or (codes "8080") env (codes "PORT");
      log_level = env_or (codes "info") env (codes "LOG_LEVEL");
      database_url = url;
      github_app_id = id;
      github_app_private_key = getenv env (codes "GITHUB_APP_PRIVATE_KEY");
      github_app_client_id = getenv env (codes "GITHUB_APP_CLIENT_ID");
      github_webhook_secret = secret;
      bot_login = getenv env (codes "BOT_LOGIN");
      llm_base_url = env_or (codes "https://api.deepseek.com") env (codes "LLM_BASE_URL");
      llm_api_key = getenv env (codes "LLM_API_KEY");
      llm_model = env_or (codes "deepseek-v4-flash") env (codes "LLM_MODEL");
      llm_reasoning_effort = env_or (codes "high") env (codes "LLM_REASONING_EFFORT");
      llm_timeout = timeout;
      queue_workers = workers;
      queue_poll_interval = poll;
      queue_max_attempts = attempts;
      queue_lease_ttl = lease;
    })

  abbrev loaded : Result EnvError (Unit {0}) × Environ → Result EnvError Env
  loaded (err e, env) = err e
  loaded (ok done, env) = from_environ env

  unfoldable pub load : (Text → EnvFile) → Environ → Result EnvError Env
  unfolding from_environ
  load files env = loaded (load_dotenv files env)

-- strings.ReplaceAll of a backslash and an n by a line feed.
unescape_newlines : Text → Text
unescape_newlines [] = []
unescape_newlines (c ∷ []) = c ∷ []
unescape_newlines (c ∷ d ∷ s) =
    let replaced = unescape_newlines s in
    let kept = unescape_newlines (d ∷ s) in
    if c == b'\\' && d == b'n' then b'\n' ∷ replaced else c ∷ kept

abbrev is_pem : Text → Bool
is_pem t = has_prefix (trim_space t) (codes "-----BEGIN")

abbrev joined : List Text → Text
joined [] = []
joined (w ∷ ws) = w ++ joined ws

decoded_or : Option Text → Option Text → Option Text
decoded_or file none = file
decoded_or file (some pem) = if is_pem pem then some pem else file

-- The decoder of base64 and the file that a path names.
unfoldable pub private_key_pem : (Text → Option Text) → (Text → Option Text) → Env → Option Text
unfolding unescape_newlines decoded_or
private_key_pem decode read_file e =
    let raw = e.github_app_private_key in
    let unescaped = unescape_newlines raw in
    if is_pem unescaped
    then some unescaped
    else decoded_or (read_file raw) (decode (joined (fields raw)))

abbrev redact : Text → Text
redact [] = []
redact (c ∷ s) = codes "<redacted>"

-- What `Redacted` formats.
unfoldable pub redacted : Env → Env
redacted e = record e {
  github_app_private_key = redact e.github_app_private_key;
  github_webhook_secret = redact e.github_webhook_secret;
  llm_api_key = redact e.llm_api_key;
}
