-- ===== src/Posting/World.antt =====
-- What posting reads and writes: the store, and the calls of GitHub. GitHub is the parameter `Github`: its
-- answer to a call may depend on the calls before. The pauses between calls are left out.
use arcticworks_codepeer.Base.{ℕ, String, List, [], ◌∷◌, ◌++◌}
use arcticworks_codepeer.Base.Text.{Text}
use arcticworks_codepeer.Base.Result.{Result, ok, err}
use arcticworks_codepeer.Base.Action.{Action}
use arcticworks_codepeer.Domain.{Annotation, InlineComment, Reaction}
use arcticworks_codepeer.Store.{Store, StoreError}

pub record TreeEntry : Type 0 where
  pub path : Text
  pub sha : String

pub record CheckRun : Type 0 where
  pub head_sha : String
  pub conclusion : String
  pub summary : Text
  pub annotations : List Annotation

pub data Request : Type 0 where
  create_check_run : CheckRun → Request
  create_review : ℕ → String → Text → Request
  create_comment : ℕ → String → InlineComment → Request
  create_issue : Text → Text → List String → Request
  edit_issue : ℕ → String → Request
  add_issue_comment : ℕ → Text → Request
  get_reactions : ℕ → Request
  get_default_branch : Request
  get_branch_sha : String → Request
  get_commit_tree_sha : String → Request
  get_file : Text → String → Request
  create_blob : Text → Request
  create_tree : String → List TreeEntry → Request
  create_commit : Text → String → List String → Request
  create_branch : Text → String → Request
  create_pr : Text → Text → Text → String → Request

-- A request about a repository.
pub record Call : Type 0 where
  pub owner : String
  pub repo : String
  pub request : Request

-- The answers, by what they hold: an identifier or a number, a name, a file, reactions, or nothing.
pub record Github : Type 0 where
  pub self_login : String
  pub number : List Call → Call → Result Text ℕ
  pub name : List Call → Call → Result Text String
  pub content : List Call → Call → Result Text Text
  pub reactions : List Call → Call → Result Text (List Reaction)
  pub done : List Call → Call → Result Text (Unit {0})

pub record World : Type 0 where
  pub store : Store
  pub calls : List Call

pub data PostError : Type 0 where
  remote : Text → PostError
  database : StoreError → PostError
  no_rolling_issue : PostError

abbrev pub Posting : Type 0 → Type 0
Posting = Action World PostError

abbrev pub remote_result : {A : Type 0} → Result Text A → Result PostError A
remote_result (err e) = err (remote e)
remote_result (ok a) = ok a

-- A call, by the part of GitHub that answers it.
abbrev pub perform : {A : Type 0} → (List Call → Call → Result Text A) → Call → Posting A
perform answer c w = (remote_result (answer w.calls c), record w { calls = w.calls ++ c ∷ [] })

abbrev pub query : {A : Type 0} → (Store → A) → Posting A
query f w = (ok (f w.store), w)

-- A statement of the database that cannot fail, and one that can.
abbrev pub change : (Store → Store) → Posting (Unit {0})
change f w = (ok tt, record w { store = f w.store })

abbrev pub settled : World → Result StoreError Store → Result PostError (Unit {0}) × World
settled w (err e) = (err (database e), w)
settled w (ok s) = (ok tt, record w { store = s })

abbrev pub change_or_fail : (Store → Result StoreError Store) → Posting (Unit {0})
change_or_fail f w = settled w (f w.store)

abbrev pub database_result : {A : Type 0} → Result StoreError A → Result PostError A
database_result (err e) = err (database e)
database_result (ok a) = ok a

abbrev pub query_or_fail : {A : Type 0} → (Store → Result StoreError A) → Posting A
query_or_fail f w = (database_result (f w.store), w)
