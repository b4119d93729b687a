-- ===== src/Domain/Config.antt =====
-- internal/domain/domain.go: the configuration of a repository, installations and repositories.
use arcticworks_codepeer.Base.{ℕ, String, ℤ, pos, Bool, true, false, Option, some, List, [], ◌∷◌}
use arcticworks_codepeer.Base.Text.{Text}

-- The parsed `.codepeer.yml`. `agents` is `none` where the Go slice is nil.
pub record RepoConfig : Type 0 where
  pub enabled : Bool
  pub mode : String
  pub strictness : String
  pub ignore_paths : List Text
  pub ignore_usernames : List String
  pub skip_title_keywords : List Text
  pub base_branches : List String
  pub max_findings : ℤ
  pub per_file_cap : ℤ
  pub include_nits : Bool
  pub custom_instructions : List Text
  pub instruction_files : List Text
  pub agents : Option (List String)

abbrev pub default_agents : List String
default_agents = "security" ∷ "correctness" ∷ "performance" ∷ "maintainability" ∷ "ux" ∷ []

abbrev pub default_repo_config : RepoConfig
default_repo_config = record {
  enabled = true;
  mode = "pr";
  strictness = "balanced";
  ignore_paths = [];
  ignore_usernames = [];
  skip_title_keywords = [];
  base_branches = [];
  max_findings = pos 10;
  per_file_cap = pos 3;
  include_nits = false;
  custom_instructions = [];
  instruction_files = [];
  agents = some default_agents;
}

pub record Installation : Type 0 where
  pub id : ℕ
  pub account_id : ℕ
  pub account_login : String
  pub account_type : String

pub record Repo : Type 0 where
  pub id : ℕ
  pub installation_id : ℕ
  pub owner : String
  pub name : String
  pub default_branch : String
  pub enabled : Bool
  pub config : Option RepoConfig

pub record PrState : Type 0 where
  pub repo_id : ℕ
  pub number : ℕ
  pub last_analyzed_sha : String
  pub review_id : ℕ
  pub check_run_id : ℕ
