-- ===== src/Posting/Approve/Once.antt =====
-- An issue has at most one fix PR, however often it is approved.
use arcticworks_codepeer.Base.{
  ℕ, ◌+◌, ◌≤◌, ◌<◌, ◌≡◌, String, Option, none, some, List, [], ◌∷◌, ◌++◌, arith,
}
use arcticworks_codepeer.Base.Text.{Text}
use arcticworks_codepeer.Base.Result.{ok}
use arcticworks_codepeer.Domain.{IssueCommandPayload, IssueRecord}
use arcticworks_codepeer.Store.Issues.{issue_by_number}
use arcticworks_codepeer.Posting.World.{Github, Call, World}
use arcticworks_codepeer.Posting.Trace.{succeeded}
use arcticworks_codepeer.Posting.Approve.{handle_issue_command}
use arcticworks_codepeer.Posting.Approve.Quiet.{prs_in, mark_of, mark, Quiet-refl}
use arcticworks_codepeer.Posting.Approve.Marks.{
  Marks, Quiet-Marks, Marks-trans, handle_issue_command-Marks,
}

-- Commands on one issue, each with its sender, one after the other.
abbrev pub run_commands : Github → IssueCommandPayload → List (Text × String) → World → World
run_commands gh payload [] w = w
run_commands gh payload ((command, sender) ∷ commands) w =
    run_commands gh payload commands
      (handle_issue_command gh (record payload { command = command; sender_login = sender }) w).1

mark-le : (repo_id number : ℕ) (o : Option IssueRecord) → mark_of repo_id number o ≤ 1
mark-le repo_id number none = ground arith
mark-le repo_id number (some i) = ground arith

run_commands-Marks :
    (gh : Github) (positive : (h : List Call) (c : Call) (n : ℕ) → gh.number h c ≡ ok n → 0 < n)
    (payload : IssueCommandPayload) (commands : List (Text × String)) (w : World)
    → Marks gh positive payload w (run_commands gh payload commands w)
run_commands-Marks gh positive payload [] w = Quiet-Marks gh positive payload w w (Quiet-refl gh w)
run_commands-Marks gh positive payload ((command, sender) ∷ commands) w =
    let p = record payload { command = command; sender_login = sender } in
    let v = (handle_issue_command gh p w).1 in
    Marks-trans gh positive payload w v (run_commands gh payload commands v)
      (handle_issue_command-Marks gh positive p w)
      (run_commands-Marks gh positive payload commands v)

-- If GitHub's numbers are not 0: whatever commands are given on an issue, in any order and however often,
-- and whatever GitHub answers, the fix PRs that are opened for the issue are at most one, and there are
-- none if the issue has one at the start.
pub run_commands_open_one :
    (gh : Github) (positive : (h : List Call) (c : Call) (n : ℕ) → gh.number h c ≡ ok n → 0 < n)
    (payload : IssueCommandPayload) (commands : List (Text × String)) (w : World)
    → (cs : List Call) × ((run_commands gh payload commands w).calls ≡ w.calls ++ cs)
      × (succeeded gh prs_in w.calls cs + mark payload.repo_id payload.issue_number w.store ≤ 1)
run_commands_open_one gh positive payload commands w =
    let (cs, e, x) = run_commands-Marks gh positive payload commands w in
    let w' = run_commands gh payload commands w in
    (
      cs,
      e,
      omega (
        arith,
        x,
        mark-le payload.repo_id payload.issue_number
            (issue_by_number payload.repo_id payload.issue_number w'.store),
      ),
    )
