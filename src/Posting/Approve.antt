-- ===== src/Posting/Approve.antt =====
-- internal/posting/approve.go: the commands `approve` and `deny` on an issue.
pub mod Quiet
pub mod Marks
pub mod Once
use arcticworks_codepeer.Base.{
  ℕ, suc, ◌+◌, String, Bool, true, false, not, ◌&&◌, ◌||◌, Option, none, some, List, [], ◌∷◌, ◌++◌,
  ltb, leb, if◌then◌else◌, is_nil, length, take, drop, map, str_eq,
}
use arcticworks_codepeer.Base.Text.{Text, codes, text_eq, trim_space, to_lower, index}
use arcticworks_codepeer.Base.Text.Decimal.{print_ℕ}
use arcticworks_codepeer.Base.Result.{Result, ok, err}
use arcticworks_codepeer.Base.Action.{pure, attempt, ◌>>=◌, ◌>>◌}
use arcticworks_codepeer.Domain.{IssueCommandPayload, FindingRecord, IssueRecord, Repo, Suggestion}
use arcticworks_codepeer.Store.Findings.{findings_for_issue}
use arcticworks_codepeer.Store.Issues.{close_issue, issue_by_number, set_issue_fix_pr}
use arcticworks_codepeer.Store.Repos.{get_repo}
use arcticworks_codepeer.Posting.Markdown.{dash, written}
use arcticworks_codepeer.Posting.World.{
  Github, Request, add_issue_comment, edit_issue, get_default_branch, get_branch_sha,
  get_commit_tree_sha, get_file, create_blob, create_tree, create_commit, create_branch, create_pr,
  TreeEntry, Call, World, PostError, Posting, perform, query, query_or_fail, change,
}

abbrev pub max_fix_files : ℕ
max_fix_files = 10

-- strings.Replace(content, old, new, 1), for an `old` that is at `i`.
abbrev replace_at : Text → ℕ → Suggestion → Text
replace_at content i s = take i content ++ (s.new ++ drop (i + length s.old) content)

abbrev joined_paths : List TreeEntry → Text
joined_paths [] = []
joined_paths (e ∷ []) = e.path
joined_paths (e ∷ f ∷ es) = e.path ++ (codes "\n- " ++ joined_paths (f ∷ es))

abbrev fix_title : ℕ → Text
fix_title n = codes "CodePeer: fix issue #" ++ print_ℕ n

abbrev fix_branch : ℕ → Text
fix_branch n = codes "codepeer/fix-issue-" ++ print_ℕ n

abbrev fix_body : ℕ → List TreeEntry → Text
fix_body n entries = written (
    codes "Fixes #"
    ∷ print_ℕ n
    ∷ codes "\n\nAutomated fix generated by CodePeer for analysis issue #"
    ∷ print_ℕ n
    ∷ codes ".\n\nFiles changed:\n- "
    ∷ joined_paths entries
    ∷ [])

-- The suggestion that can be applied: one with a snippet to replace.
abbrev usable_fix : Option Suggestion → Option Suggestion
usable_fix none = none
usable_fix (some s) = if is_nil s.old then none else some s

module _ (gh : Github) (payload : IssueCommandPayload) where
  abbrev issue_call : Request → Call
  issue_call r = record { owner = payload.repo_owner; repo = payload.repo_name; request = r }

  abbrev comment : ℕ → Text → Posting (Unit {0})
  comment number body = perform gh.done (issue_call (add_issue_comment number body))

  abbrev denied_text : Text
  denied_text =
      written
        (codes "Marked as resolved by @" ∷ codes payload.sender_login ∷ codes " (`deny`)." ∷ [])

  abbrev no_fix_text : Text
  no_fix_text = written (
      codes "Approved by @"
      ∷ codes payload.sender_login
      ∷ dash
      ∷ codes
          "no automated fix could be produced for the findings in this issue (suggestions missing or code changed since the analysis). No changes were made."
      ∷ [])

  abbrev fixed_text : ℕ → Text
  fixed_text pr_number = written (
      codes "Approved by @"
      ∷ codes payload.sender_login
      ∷ dash
      ∷ codes "fix PR opened: #"
      ∷ print_ℕ pr_number
      ∷ codes "."
      ∷ [])

  deny_issue : IssueRecord → Posting (Unit {0})
  deny_issue issue =
      attempt (comment issue.number denied_text)
      >> perform gh.done (issue_call (edit_issue issue.number "closed"))
      >> change (close_issue payload.repo_id issue.number)

  -- The entry for a file, if the blob is created.
  add_blob : FindingRecord → List TreeEntry → String → Posting (List TreeEntry)
  add_blob f entries sha = pure (entries ++ record { path = f.file; sha = sha } ∷ [])

  replace_in :
      FindingRecord → Suggestion → List TreeEntry → Text → Option ℕ → Posting (List TreeEntry)
  unfolding add_blob
  replace_in f s entries content none = pure entries
  replace_in f s entries content (some i) =
      perform gh.name (issue_call (create_blob (replace_at content i s))) >>= add_blob f entries

  -- A file that cannot be read is left out.
  fix_content :
      FindingRecord → Suggestion → List TreeEntry → Result PostError Text → Posting (List TreeEntry)
  unfolding replace_in
  fix_content f s entries (err e) = pure entries
  fix_content f s entries (ok content) = replace_in f s entries content (index content s.old)

  fix_suggestion :
      String → FindingRecord → List TreeEntry → Option Suggestion → Posting (List TreeEntry)
  unfolding fix_content
  fix_suggestion base f entries none = pure entries
  fix_suggestion base f entries (some s) =
      attempt (perform gh.content (issue_call (get_file f.file base))) >>= fix_content f s entries

  -- The body of the loop; after its `break` it does nothing.
  fix_file : String → FindingRecord → List TreeEntry → Posting (List TreeEntry)
  unfolding fix_suggestion
  fix_file base f entries =
      if leb max_fix_files (length entries)
      then pure entries
      else fix_suggestion base f entries (usable_fix f.suggestion)

  pub fix_files : String → List FindingRecord → List TreeEntry → Posting (List TreeEntry)
  unfolding fix_file
  fix_files base [] entries = pure entries
  fix_files base (f ∷ fs) entries = fix_file base f entries >>= fix_files base fs

  no_fix : ℕ → Posting (Unit {0})
  no_fix number = comment number no_fix_text

  -- After CreatePR: the issue is marked.
  mark_fixed : ℕ → ℕ → Posting (Unit {0})
  mark_fixed number pr_number =
      attempt (comment number (fixed_text pr_number))
      >> change (set_issue_fix_pr payload.repo_id number pr_number)

  -- The commit and its branch.
  push_fix : ℕ → String → String → List TreeEntry → Posting (Unit {0})
  push_fix number base tree entries =
      perform gh.name (issue_call (create_tree tree entries))
      >>= (λ new_tree.
          perform gh.name (issue_call (create_commit (fix_title number) new_tree (base ∷ []))))
      >>= λ commit. perform gh.done (issue_call (create_branch (fix_branch number) commit))

  open_fix : ℕ → String → String → String → List TreeEntry → Posting (Unit {0})
  unfolding no_fix push_fix mark_fixed
  open_fix number branch base tree entries =
      if is_nil entries
      then no_fix number
      else push_fix number base tree entries
        >> perform gh.number (
            issue_call
              (create_pr (fix_title number) (fix_body number entries) (fix_branch number) branch))
        >>= mark_fixed number

  default_branch : Repo → Posting String
  default_branch repo =
      if str_eq repo.default_branch ""
      then perform gh.name (issue_call get_default_branch)
      else pure repo.default_branch

  fix_on : ℕ → List FindingRecord → String → Posting (Unit {0})
  unfolding fix_files open_fix
  fix_on number findings branch = perform gh.name (issue_call (get_branch_sha branch)) >>= λ base.
      perform gh.name (issue_call (get_commit_tree_sha base)) >>= λ tree.
      fix_files base findings [] >>= open_fix number branch base tree

  approve_issue : IssueRecord → Posting (Unit {0})
  unfolding default_branch fix_on
  approve_issue issue =
      if ltb 0 issue.fix_pr_number
      then pure tt
      else query (findings_for_issue payload.repo_id payload.issue_number) >>= λ findings.
          query_or_fail (get_repo payload.repo_id)
          >>= default_branch
          >>= fix_on issue.number findings

  command_on : Option IssueRecord → Posting (Unit {0})
  unfolding deny_issue approve_issue
  command_on none = pure tt
  command_on (some issue) =
      let command = to_lower (trim_space payload.command) in
      if not (str_eq issue.status "open")
      then pure tt
      else if text_eq command (codes "deny")
      then deny_issue issue
      else if text_eq command (codes "approve")
      then approve_issue issue
      else pure tt

  unfoldable pub handle_issue_command : Posting (Unit {0})
  unfolding command_on
  handle_issue_command = query (issue_by_number payload.repo_id payload.issue_number) >>= command_on
