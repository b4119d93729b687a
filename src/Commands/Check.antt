-- ===== src/Commands/Check.antt =====
-- cmd/codepeer/check.go: `runCheck`. What the probed parts answer is a record; a line of the report is a check with
-- its outcome, or a remark. The line that names the model and the last line are left out.
use arcticworks_codepeer.Base.{
  ℕ, ◌≡◌, ◌↔◌, refl, Bool, true, false, not, ◌&&◌, Option, none, some, List, [], ◌∷◌, ◌++◌, All,
  length, ltb, ◌==◌, if◌then◌else◌, is_nil, is_some, String, arith,
}
use arcticworks_codepeer.Base.Text.{Text}
use arcticworks_codepeer.Base.Result.{Result, ok, err}
use arcticworks_codepeer.Config.Env.{Env}

-- The answers: of the clients, by whether they failed, and of GitHub, by what it returned.
record Answers : Type 0 where
  connects : Bool
  pings : Bool
  reads_migrations : Bool
  has_client : Bool
  installations : Option ℕ
  finds_login : Bool
  finds_info : Bool
  hook_url : Option Text
  pings_llm : Bool

pub data Line : Type 0 where
  check : String → Bool → Line
  remark : String → Line

data CheckError : Type 0 where
  bad_configuration preflight_failed : CheckError

database_lines : Answers → List Line
database_lines a =
    if not a.connects
    then check "postgres connect" false ∷ []
    else if not a.pings
    then check "postgres connect" false ∷ []
    else check "postgres connect" true ∷ check "migrations" a.reads_migrations ∷ []

secret_lines : Text → List Line
secret_lines secret =
    if ltb (length secret) 8
    then check "webhook secret" false ∷ []
    else check "webhook secret" true
      ∷ (if ltb (length secret) 16 then remark "short secret" ∷ [] else [])

-- A number of installations that is not known is 0.
abbrev or_zero : Option ℕ → ℕ
or_zero none = 0
or_zero (some n) = n

login_lines : Answers → List Line
login_lines a =
    if is_some a.installations && ltb 0 (or_zero a.installations)
    then check "bot self-login" a.finds_login ∷ []
    else []

info_lines : Answers → List Line
info_lines a =
    if not a.finds_info
    then check "github app info" false ∷ []
    else check "github app info" true
      ∷ (if or_zero a.installations == 0 then remark "no installations yet" ∷ [] else [])

hook_lines : Option Text → List Line
hook_lines none = check "github app webhook" false ∷ []
hook_lines (some url) = check "github app webhook" (not (is_nil url)) ∷ []

github_lines : Option Text → Answers → List Line
unfolding login_lines info_lines hook_lines
github_lines none a = []
github_lines (some key) a =
    check "github app client" a.has_client
    ∷ (if not a.has_client
        then []
        else check "github app auth (JWT)" (is_some a.installations)
          ∷ (login_lines a ++ info_lines a ++ hook_lines a.hook_url))

llm_lines : Bool → Answers → List Line
llm_lines include_llm a =
    (if include_llm then check "llm ping" a.pings_llm else remark "llm ping skipped") ∷ []

abbrev pub passes : Line → Bool
passes (check name done) = done
passes (remark name) = true

-- `ok` at the end.
abbrev all_pass : List Line → Bool
all_pass [] = true
all_pass (l ∷ ls) = passes l && all_pass ls

abbrev verdict : List Line → Result CheckError (Unit {0}) × List Line
verdict lines = (if all_pass lines then ok tt else err preflight_failed, lines)

report : Bool → Env → Option Text → Answers → List Line
unfolding database_lines secret_lines github_lines llm_lines
report include_llm env key a =
    check "config" true
    ∷ check "github app private key" (is_some key)
    ∷ (database_lines a
        ++ secret_lines env.github_webhook_secret
        ++ github_lines key a
        ++ llm_lines include_llm a)

-- `key` is what PrivateKeyPEM returns for the environment. The report, and the error of the command.
run_check :
    Bool → Option Env → (Env → Option Text) → Answers → Result CheckError (Unit {0}) × List Line
unfolding report
run_check include_llm none key a = (err bad_configuration, check "config" false ∷ [])
run_check include_llm (some env) key a = verdict (report include_llm env (key env) a)

all_pass_iff : (ls : List Line) → (all_pass ls ≡ true) ↔ All (λ l. passes l ≡ true) ls
all_pass_iff [] = (λ h. tt, λ h. refl)
all_pass_iff (l ∷ ls) = (
  λ h. (ground arith, (all_pass_iff ls).0 (ground arith)),
  λ h. ground (arith, (all_pass_iff ls).1 h.1),
)

verdict_iff :
    (ls : List Line) → ((verdict ls).0 ≡ ok tt) ↔ All (λ l. passes l ≡ true) (verdict ls).1
verdict_iff ls = (λ h. (all_pass_iff ls).0 (ground arith), λ h. rw ((all_pass_iff ls).1 h) refl)

-- For every environment and answers: the command succeeds exactly when no check of its report has failed.
run_check_iff :
    (include_llm : Bool) (env : Option Env) (key : Env → Option Text) (a : Answers)
    → ((run_check include_llm env key a).0 ≡ ok tt)
      ↔ All (λ l. passes l ≡ true) (run_check include_llm env key a).1
unfolding run_check
run_check_iff include_llm none key a = (λ h. absurd cc, λ h. absurd cc)
run_check_iff include_llm (some env) key a = verdict_iff (report include_llm env (key env) a)
