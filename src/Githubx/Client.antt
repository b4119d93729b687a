-- ===== src/Githubx/Client.antt =====
-- internal/githubx/client.go and internal/githubx/gitdata.go: the operations of the client that decide
-- something beyond their one call: the files of a pull request and of a push, the repositories of an
-- installation, a file, a branch, and what a check run, a review or a comment sends.
use Prim.Native.Char.{code}
use Prim.Native.String.{String}
use arcticworks_codepeer.Base.{
  ℕ, str_eq, Bool, true, false, not, ◌&&◌, Option, none, some, List, [], map, ◌==◌, if◌then◌else◌,
}
use arcticworks_codepeer.Base.Text.{Text}
use arcticworks_codepeer.Base.Result.{Result, ok, err}
use arcticworks_codepeer.Domain.{ChangedFile, Repo}
use arcticworks_codepeer.Githubx.Retry.{
  Reply, ClientError, failed, cancelled, out_of_pages, no_sha, do_with_retry,
}
use arcticworks_codepeer.Githubx.Pages.{list_pages}

-- A call of go-github: its answer to each attempt, and whether the context ends before the wait for one.
pub record Call (A : Type 0) : Type 0 where
  pub reply : ℕ → Reply A
  pub cancelled_before : ℕ → Bool

abbrev perform : {A : Type 0} → Call A → Result ClientError A
perform call = do_with_retry call.reply call.cancelled_before

unfoldable pub map_ok : {A B : Type 0} → (A → B) → Result ClientError A → Result ClientError B
map_ok f (err e) = err e
map_ok f (ok a) = ok (f a)

-- What the code reads of go-github's CommitFile and Repository.
pub record CommitFile : Type 0 where
  pub filename : Text
  pub status : String
  pub additions : ℕ
  pub deletions : ℕ
  pub patch : Text

pub record Repository : Type 0 where
  pub id : ℕ
  pub owner : String
  pub name : String
  pub default_branch : String
  pub archived : Bool

unfoldable pub changed_file : CommitFile → ChangedFile
changed_file f = record {
  path = f.filename;
  status = f.status;
  additions = f.additions;
  deletions = f.deletions;
  patch = f.patch;
}

unfoldable pub map_commit_files : List CommitFile → List ChangedFile
unfolding changed_file
map_commit_files files = map changed_file files

-- A page has as many files as `map_commit_files` gives.
unfoldable pub list_pr_files :
    (ℕ → Call (List CommitFile)) → ℕ → Result ClientError (List ChangedFile)
unfolding map_ok
list_pr_files call fuel = list_pages (λ page. map_ok map_commit_files (perform (call page))) fuel

installed_repo : ℕ → Repository → Repo
installed_repo installation r = record {
  id = r.id;
  installation_id = installation;
  owner = r.owner;
  name = r.name;
  default_branch = r.default_branch;
  enabled = not r.archived;
  config = none;
}

unfoldable pub list_installation_repos :
    (ℕ → Call (List Repository)) → ℕ → ℕ → Result ClientError (List Repo)
unfolding map_ok installed_repo
list_installation_repos call fuel installation =
    list_pages (λ page. map_ok (map (installed_repo installation)) (perform (call page))) fuel

is_code : ℕ → Option ℕ → Bool
is_code code none = false
is_code code (some n) = n == code

-- Whether a failure is an ErrorResponse with a status.
has_status : ℕ → ClientError → Bool
unfolding is_code
has_status code (failed e) = is_code code e.status
has_status code cancelled = false
has_status code out_of_pages = false
has_status code no_sha = false

missing_as_empty : Result ClientError (Option Text) → Result ClientError Text
missing_as_empty (ok none) = ok []
missing_as_empty (ok (some content)) = ok content
missing_as_empty (err e) = if has_status 404 e then ok [] else err e

-- The content of a file: none if the path is a folder. `GetContent` is part of the call.
unfoldable pub get_file : Call (Option Text) → Result ClientError Text
unfolding has_status missing_as_empty
get_file call = missing_as_empty (perform call)

existing_as_done : Result ClientError (Unit {0}) → Result ClientError (Unit {0})
existing_as_done (ok done) = ok done
existing_as_done (err e) = if has_status 422 e then ok tt else err e

unfoldable pub create_branch : Call (Unit {0}) → Result ClientError (Unit {0})
unfolding has_status existing_as_done
create_branch call = existing_as_done (perform call)

nonempty_sha : Result ClientError String → Result ClientError String
nonempty_sha (err e) = err e
nonempty_sha (ok sha) = if str_eq sha "" then err no_sha else ok sha

unfoldable pub get_branch_sha : Call String → Result ClientError String
unfolding nonempty_sha
get_branch_sha call = nonempty_sha (perform call)

abbrev only_zeros : String → Bool
only_zeros String.[] = true
only_zeros (String.◌∷◌ c s) = code c == 48 && only_zeros s

unfoldable pub is_zero_sha : String → Bool
is_zero_sha sha = not (str_eq sha "") && only_zeros sha

-- The calls for one commit and for the comparison of two.
unfoldable pub get_push_diff :
    Call (List CommitFile)
    → Call (List CommitFile)
    → String
    → String
    → Result ClientError (List ChangedFile)
unfolding map_ok
get_push_diff commit comparison before after =
    if str_eq before after
    then ok []
    else map_ok map_commit_files (perform (if is_zero_sha before then commit else comparison))
