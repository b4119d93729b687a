-- ===== src/Config.antt =====
-- internal/config/codepeer.go: the overlay of `.codepeer.yml` on the defaults, and the tests of
-- package config on a repository's configuration.
pub mod Valid
pub mod Cache
pub mod Dotenv
pub mod Env
pub mod Paths
use arcticworks_codepeer.Base.{
  ℕ, String, Bool, true, false, not, ◌&&◌, ◌||◌, Option, none, some, List, [], ◌∷◌, if◌then◌else◌,
  is_nil, str_eq, any, ℤ, pos, ltb_ℤ, is_some,
}
use arcticworks_codepeer.Base.Text.{Text, codes, contains, to_lower}
use arcticworks_codepeer.Base.Result.{Result, ok, err, ◌>>=◌}
use arcticworks_codepeer.Domain.{RepoConfig, ReviewConfig, default_repo_config}

-- The decoded YAML: `none` for a key that is missing.
pub record RawRepoConfig : Type 0 where
  pub enabled : Option Bool
  pub mode : Option String
  pub strictness : Option String
  pub ignore_paths : Option (List Text)
  pub ignore_usernames : Option (List String)
  pub skip_title_keywords : Option (List Text)
  pub base_branches : Option (List String)
  pub max_findings : Option ℤ
  pub per_file_cap : Option ℤ
  pub include_nits : Option Bool
  pub custom_instructions : Option (List Text)
  pub instruction_files : Option (List Text)
  pub agents : Option (List String)

pub data ConfigError : Type 0 where
  bad_yaml : ConfigError
  invalid_mode invalid_strictness invalid_agent : String → ConfigError
  bad_max_findings bad_per_file_cap : ℤ → ConfigError

abbrev pub or_default {ℓ} : {A : Type ℓ} → Option A → A → A
or_default none d = d
or_default (some a) d = a

unfoldable pub valid_mode : String → Bool
valid_mode m = str_eq m "pr" || str_eq m "push" || str_eq m "both"

unfoldable pub valid_strictness : String → Bool
valid_strictness s = str_eq s "lenient" || str_eq s "balanced" || str_eq s "strict"

unfoldable pub valid_agent : String → Bool
valid_agent a =
    str_eq a "security"
    || str_eq a "correctness"
    || str_eq a "performance"
    || str_eq a "maintainability"
    || str_eq a "ux"

unfoldable pub check_mode : Option String → String → Result ConfigError String
check_mode none d = ok d
check_mode (some m) d = if valid_mode m then ok m else err (invalid_mode m)

unfoldable pub check_strictness : Option String → String → Result ConfigError String
check_strictness none d = ok d
check_strictness (some s) d = if valid_strictness s then ok s else err (invalid_strictness s)

unfoldable pub check_max_findings : Option ℤ → ℤ → Result ConfigError ℤ
check_max_findings none d = ok d
check_max_findings (some n) d =
    if ltb_ℤ n (pos 1) || ltb_ℤ (pos 50) n then err (bad_max_findings n) else ok n

unfoldable pub check_per_file_cap : Option ℤ → ℤ → Result ConfigError ℤ
check_per_file_cap none d = ok d
check_per_file_cap (some n) d =
    if ltb_ℤ n (pos 1) || ltb_ℤ (pos 10) n then err (bad_per_file_cap n) else ok n

-- The first agent that is not known is the error.
unfoldable pub first_invalid_agent : List String → Option String
first_invalid_agent [] = none
first_invalid_agent (a ∷ as') = if valid_agent a then first_invalid_agent as' else some a

unfoldable pub check_agents :
    Option (List String) → Option (List String) → Result ConfigError (Option (List String))
check_agents none d = ok d
check_agents (some as') d = elim (first_invalid_agent as') [
  | none ↦ ok (some as')
  | some a ↦ err (invalid_agent a)
]

-- `Parse` after the YAML is decoded. The checks come in the order of the source, which decides the
-- error where several fields are invalid.
unfoldable pub overlay : RawRepoConfig → Result ConfigError RepoConfig
overlay raw = do
  mode ← check_mode raw.mode default_repo_config.mode
  strictness ← check_strictness raw.strictness default_repo_config.strictness
  max_findings ← check_max_findings raw.max_findings default_repo_config.max_findings
  per_file_cap ← check_per_file_cap raw.per_file_cap default_repo_config.per_file_cap
  agents ← check_agents raw.agents default_repo_config.agents
  ok (record {
    enabled = or_default raw.enabled default_repo_config.enabled;
    mode = mode;
    strictness = strictness;
    ignore_paths = or_default raw.ignore_paths default_repo_config.ignore_paths;
    ignore_usernames = or_default raw.ignore_usernames default_repo_config.ignore_usernames;
    skip_title_keywords =
        or_default raw.skip_title_keywords default_repo_config.skip_title_keywords;
    base_branches = or_default raw.base_branches default_repo_config.base_branches;
    max_findings = max_findings;
    per_file_cap = per_file_cap;
    include_nits = or_default raw.include_nits default_repo_config.include_nits;
    custom_instructions =
        or_default raw.custom_instructions default_repo_config.custom_instructions;
    instruction_files = or_default raw.instruction_files default_repo_config.instruction_files;
    agents = agents;
  })

-- `Parse`, over the YAML decoder: `none` for an error other than the end of an empty file.
unfoldable pub parse : (Text → Option RawRepoConfig) → Text → Result ConfigError RepoConfig
parse decode content = elim (decode content) [ none ↦ err bad_yaml | some raw ↦ overlay raw ]

abbrev pub default_ignored_users : List String
default_ignored_users =
    "dependabot[bot]" ∷ "renovate[bot]" ∷ "dependabot-preview[bot]" ∷ "github-actions[bot]"
    ∷ "imgbot[bot]" ∷ []

-- UserIgnored; a nil configuration is `none`.
unfoldable pub user_ignored : Option RepoConfig → String → Bool
user_ignored cfg login =
    any (λ u. str_eq login u) default_ignored_users
    || elim cfg [ none ↦ false | some c ↦ any (λ u. str_eq login u) c.ignore_usernames ]

abbrev pub default_skip_keywords : List Text
default_skip_keywords =
    codes "WIP"
    ∷ codes "DRAFT"
    ∷ codes "[skip review]"
    ∷ codes "[skip ci-review]"
    ∷ codes "do not review"
    ∷ []

-- TitleSkipped
unfoldable pub title_skipped : Option RepoConfig → Text → Bool
title_skipped cfg title =
    any (λ k. contains (to_lower title) (to_lower k)) default_skip_keywords || elim cfg [
      | none ↦ false
      | some c ↦ any (λ k. contains (to_lower title) (to_lower k)) c.skip_title_keywords
    ]

-- BaseBranchAllowed
unfoldable pub base_branch_allowed : Option RepoConfig → String → Bool
base_branch_allowed none base_ref = true
base_branch_allowed (some c) base_ref =
    is_nil c.base_branches || any (λ b. str_eq base_ref b) c.base_branches

-- ModeAllows
unfoldable pub mode_allows : Option RepoConfig → String → Bool
mode_allows none mode = str_eq mode "pr"
mode_allows (some c) mode = str_eq c.mode mode || str_eq c.mode "both"

-- EffectiveReviewConfig
unfoldable pub effective_review_config : Option RepoConfig → ReviewConfig
effective_review_config cfg =
    let c = or_default cfg default_repo_config in
    record {
      strictness = c.strictness;
      max_findings = c.max_findings;
      per_file_cap = c.per_file_cap;
      include_nits = c.include_nits;
      custom_instructions = c.custom_instructions;
    }
