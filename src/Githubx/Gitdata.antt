-- ===== src/Githubx/Gitdata.antt =====
-- internal/githubx/gitdata.go: the operations on the data of git, as those of Githubx/Operations.
use arcticworks_codepeer.Base.{ℕ, Option, none, some, List, [], ◌++◌, map, String}
use arcticworks_codepeer.Base.Text.{Text, codes}
use arcticworks_codepeer.Githubx.Client.{Call, get_branch_sha, create_branch}
use arcticworks_codepeer.Githubx.Operations.{Operation, with_client, request}
use arcticworks_codepeer.Githubx.Auth.{Issuer}

-- An entry of the code, and the bodies of requests as far as the code writes them.
record NewEntry : Type 0 where
  path : Text
  mode : String
  kind : String
  sha : String

record GitEntry : Type 0 where
  path : Option Text
  mode : Option String
  kind : Option String
  sha : Option String

git_entry : NewEntry → GitEntry
git_entry e = record {
  path = some e.path;
  mode = some e.mode;
  kind = some e.kind;
  sha = some e.sha;
}

record NewCommit : Type 0 where
  message : Text
  tree : String
  parents : List String

record NewPullRequest : Type 0 where
  title : Text
  body : Text
  head : Text
  base : String

-- What an operation passes on of an answer that may be nil.
abbrev or_empty : Option String → String
or_empty none = ""
or_empty (some sha) = sha

abbrev or_zero : Option ℕ → ℕ
or_zero none = 0
or_zero (some n) = n

-- A file and its blob. Content that cannot be decoded is empty.
abbrev file_or_empty : Option (Option Text × String) → Text × String
file_or_empty none = ([], "")
file_or_empty (some (none, sha)) = ([], sha)
file_or_empty (some (some content, sha)) = (content, sha)

module _ (app : Issuer) (now : ℕ) (bound : Option ℕ) (id : ℕ) where
  branch_sha : (Text → Call String) → Operation String
  branch_sha api = with_client app now bound id (λ token. get_branch_sha (api token))

  commit_tree_sha : (Text → Call (Option String)) → Operation String
  commit_tree_sha api = request app now bound id or_empty api

  file_with_sha : (Text → Call (Option (Option Text × String))) → Operation (Text × String)
  file_with_sha api = request app now bound id file_or_empty api

  create_blob : (Text → Text → Call (Option String)) → Text → Operation String
  create_blob api content = request app now bound id or_empty (λ token. api token content)

  create_tree :
      (Text → String → List GitEntry → Call (Option String))
      → String
      → List NewEntry
      → Operation String
  unfolding git_entry
  create_tree api base entries =
      request app now bound id or_empty (λ token. api token base (map git_entry entries))

  create_commit :
      (Text → NewCommit → Call (Option String)) → Text → String → List String → Operation String
  create_commit api message tree parents =
      request app now bound id or_empty
        (λ token. api token (record { message = message; tree = tree; parents = parents }))

  new_branch : (Text → Text → String → Call (Unit {0})) → Text → String → Operation (Unit {0})
  new_branch api name sha =
      with_client app now bound id
        (λ token. create_branch (api token (codes "refs/heads/" ++ name) sha))

  create_pr : (Text → NewPullRequest → Call (Option ℕ)) → Text → Text → Text → String → Operation ℕ
  create_pr api title body head base =
      request app now bound id or_zero
        (λ token. api token (record { title = title; body = body; head = head; base = base }))
