-- ===== src/Domain/Review.antt =====
-- internal/domain/domain.go: findings, review results, changed files and review requests.
use arcticworks_codepeer.Base.{ℕ, String, ℤ, Bool, Option, List}
use arcticworks_codepeer.Base.Text.{Text}

-- An exact fix: the snippet before and after.
pub record Suggestion : Type 0 where
  pub old : Text
  pub new : Text

-- `confidence` is a float64 that the program compares with 0 and 1 and sets to one of these: a
-- number of millionths.
pub record Finding : Type 0 where
  pub id : String
  pub file : Text
  pub line : ℤ
  pub severity : String
  pub category : String
  pub title : Text
  pub body : Text
  pub suggestion : Option Suggestion
  pub confidence : ℤ
  pub actionable : Bool

abbrev pub status_approved : String
status_approved = "approved"

abbrev pub status_changes_requested : String
status_changes_requested = "changes_requested"

abbrev pub status_no_findings : String
status_no_findings = "no_findings"

pub record ReviewResult : Type 0 where
  pub summary : Text
  pub status : String
  pub findings : List Finding

-- The counts come from GitHub and are not negative.
pub record ChangedFile : Type 0 where
  pub path : Text
  pub status : String
  pub additions : ℕ
  pub deletions : ℕ
  pub patch : Text

pub record PrInfo : Type 0 where
  pub number : ℕ
  pub title : Text
  pub body : Text
  pub state : String
  pub draft : Bool
  pub head_sha : String
  pub base_ref : String
  pub head_ref : String
  pub user_login : String
  pub merged : Bool

pub record ReviewConfig : Type 0 where
  pub strictness : String
  pub max_findings : ℤ
  pub per_file_cap : ℤ
  pub include_nits : Bool
  pub custom_instructions : List Text

-- `context` is the map from paths to file contents.
pub record ReviewRequest : Type 0 where
  pub repo_owner : String
  pub repo_name : String
  pub pr_number : ℕ
  pub pr_title : Text
  pub pr_body : Text
  pub head_sha : String
  pub diff : Text
  pub files : List ChangedFile
  pub context : List (Text × Text)
  pub instructions : Text
  pub config : ReviewConfig
  pub focus : Text

pub record CompileInput : Type 0 where
  pub repo_owner : String
  pub repo_name : String
  pub pr_number : ℕ
  pub pr_title : Text
  pub pr_body : Text
  pub head_sha : String
  pub files : List ChangedFile
  pub candidates : List Finding
  pub config : ReviewConfig
