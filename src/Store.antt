-- ===== src/Store.antt =====
-- internal/store/store.go: the tables of the database, one operation per method. A row is the struct of
-- package domain that its columns are read into. A list of rows is in the order of the sequence that
-- numbers them, where one does. Of the errors of the database the model has those of its constraints.
pub mod Repos
pub mod Runs
pub mod Findings
pub mod Issues
pub mod Learnings
pub mod Audit
pub mod Migrate
pub mod Once
pub mod Saved
pub mod Weights
use arcticworks_codepeer.Base.{ℕ, String, ℤ, Bool, true, false, List, [], ◌∷◌, if◌then◌else◌}
use arcticworks_codepeer.Domain.{
  Installation, Repo, PrState, AnalysisRun, FindingRecord, IssueRecord, AuditEntry,
}

-- A row of learnings.
pub record Learning : Type 0 where
  pub repo_id : ℕ
  pub key : String
  pub signal : String
  pub weight : ℤ

-- The tables, and the next values of the sequences that number runs, findings and issues.
pub record Store : Type 0 where
  pub deliveries : List String
  pub installations : List Installation
  pub repos : List Repo
  pub pull_requests : List PrState
  pub runs : List AnalysisRun
  pub next_run : ℕ
  pub findings : List FindingRecord
  pub next_finding : ℕ
  pub issues : List IssueRecord
  pub next_issue : ℕ
  pub learnings : List Learning
  pub audit_log : List AuditEntry

abbrev pub empty_store : Store
empty_store = record {
  deliveries = [];
  installations = [];
  repos = [];
  pull_requests = [];
  runs = [];
  next_run = 1;
  findings = [];
  next_finding = 1;
  issues = [];
  next_issue = 1;
  learnings = [];
  audit_log = [];
}

-- The violations that the methods meet: ErrDuplicateRun, and a reference to a row that is not there.
pub data StoreError : Type 0 where
  duplicate_run no_parent no_rows : StoreError

-- UPDATE ... SET ... WHERE ...
unfoldable pub update_rows {ℓ} : {A : Type ℓ} → (A → Bool) → (A → A) → List A → List A
update_rows p f [] = []
update_rows p f (r ∷ rows) = (if p r then f r else r) ∷ update_rows p f rows
