-- ===== src/Posting/Approve/Marks.antt =====
-- A command on an issue opens a fix PR only as it marks the issue.
use arcticworks_codepeer.Base.{
  ℕ, ◌+◌, ◌<◌, ◌≡◌, refl, sym, subst, ap, ◌∙◌, String, Option, none, some, inl, inr, List, [], ◌∷◌,
  ◌++◌, append-nil, arith, Bool-cases, ltb, is_nil, str_eq,
}
use arcticworks_codepeer.Base.Text.{Text, codes, text_eq, trim_space, to_lower}
use arcticworks_codepeer.Base.Result.{Result, ok, err}
use arcticworks_codepeer.Base.Action.{resume, attempt, ◌>>=◌}
use arcticworks_codepeer.Domain.{IssueCommandPayload, FindingRecord, IssueRecord, Repo}
use arcticworks_codepeer.Store.{Store}
use arcticworks_codepeer.Store.Issues.{is_issue, close_issue, issue_by_number, set_issue_fix_pr}
use arcticworks_codepeer.Store.Repos.{get_repo}
use arcticworks_codepeer.Store.Findings.{findings_for_issue}
use arcticworks_codepeer.Posting.World.{
  Github, create_pr, add_issue_comment, create_tree, create_commit, create_branch,
  get_default_branch, get_branch_sha, get_commit_tree_sha, edit_issue, TreeEntry, Call, World,
  PostError, Posting, perform, remote_result, query_or_fail, change,
}
use arcticworks_codepeer.Posting.Trace.{succeeded}
use arcticworks_codepeer.Posting.Approve.{
  fix_title, fix_branch, fix_body, issue_call, denied_text, fixed_text, no_fix_text, deny_issue,
  fix_files, no_fix, mark_fixed, push_fix, open_fix, default_branch, fix_on, approve_issue,
  command_on, handle_issue_command,
}
use arcticworks_codepeer.Posting.Approve.Quiet.{
  prs_in, find-true, mark_of, mark, mark-close_issue, mark-set_issue_fix_pr, Quiet, Quiet-refl,
  succeeded-both, performed-Quiet, then-Quiet, fix_files-Quiet,
}

module _ (gh : Github)
    (positive : (h : List Call) (c : Call) (n : ℕ) → gh.number h c ≡ ok n → 0 < n)
    (payload : IssueCommandPayload) where
  abbrev pub mark_in : World → ℕ
  mark_in w = mark payload.repo_id payload.issue_number w.store

  -- The fix PRs that are opened are the marks that are set.
  abbrev pub Marks : World → World → Type 0
  Marks w w' =
      (cs : List Call) × (w'.calls ≡ w.calls ++ cs)
      × (succeeded gh prs_in w.calls cs + mark_in w ≡ mark_in w')

  pub Quiet-Marks : (w v : World) → Quiet gh w v → Marks w v
  Quiet-Marks w v (s, (cs, e, x)) =
      (cs, e, omega (arith, x, ap (mark payload.repo_id payload.issue_number) s))

  pub Marks-trans : (u v w : World) → Marks u v → Marks v w → Marks u w
  Marks-trans u v w (cs, e, x) (ds, f, y) =
      let (g, z) = succeeded-both gh u.calls v.calls w.calls cs ds e f in
      (cs ++ ds, g, omega (arith, z, x, y))

  Quiet-trans-Marks : (u v w : World) → Quiet gh u v → Marks v w → Marks u w
  Quiet-trans-Marks u v w q m = Marks-trans u v w (Quiet-Marks u v q) m

  then-Marks :
      {A B : Type 0} (w : World) (rest : A → Posting B) (o : Result PostError A × World)
      → Quiet gh w o.1
      → ((a : A) (x : World) → x.store ≡ w.store → Marks x (rest a x).1)
      → Marks w (resume rest o).1
  then-Marks w rest (err e, v) q k = Quiet-Marks w v q
  then-Marks w rest (ok a, v) q k = Quiet-trans-Marks w v (rest a v).1 q (k a v q.0)

  module _ (issue : IssueRecord) (same : issue.number ≡ payload.issue_number) where
    -- The issue is in the store, without a fix PR.
    abbrev IsOpen : Store → Type 0
    IsOpen s =
        (issue_by_number payload.repo_id payload.issue_number s ≡ some issue)
        × (mark payload.repo_id payload.issue_number s ≡ 0)

    deny_issue-Marks : (w : World) → Marks w (deny_issue gh payload issue w).1
    unfolding deny_issue
    deny_issue-Marks w =
        let said =
          issue_call gh payload (add_issue_comment issue.number (denied_text gh payload)) in
        let edit = issue_call gh payload (edit_issue issue.number "closed") in
        then-Marks w (λ _. change (close_issue payload.repo_id issue.number))
          (resume (λ _. perform gh.done edit) (attempt (perform gh.done said) w))
          (then-Quiet gh w (λ _. perform gh.done edit) (attempt (perform gh.done said) w)
            (performed-Quiet gh gh.done said w refl)
            (λ _ x. performed-Quiet gh gh.done edit x refl))
          (λ _ x _. (
            [],
            sym (append-nil x.calls),
            rw same (omega (arith, mark-close_issue payload.repo_id payload.issue_number x.store)),
          ))

    -- CreatePR and what follows it.
    mark_fixed-Marks :
        (c : Call) (w : World) (r : Result Text ℕ)
        → prs_in c.request ≡ 1
        → gh.number w.calls c ≡ r
        → IsOpen w.store
        → Marks w
            (resume
              (mark_fixed gh payload issue.number)
              (remote_result r, record w { calls = w.calls ++ c ∷ [] })).1
    unfolding mark_fixed
    mark_fixed-Marks c w (err e) one h (found, zero) = (c ∷ [], refl, rw h (ground arith))
    mark_fixed-Marks c w (ok n) one h (found, zero) =
        let said =
          issue_call gh payload (add_issue_comment issue.number (fixed_text gh payload n)) in
        let w1 = record w { calls = w.calls ++ c ∷ [] } in
        let w2 = (perform gh.done said w1).1 in
        let (s, (ds, f, y)) = performed-Quiet gh gh.done said w1 refl in
        let (g, z) = succeeded-both gh w.calls w1.calls w2.calls (c ∷ []) ds refl f in
        let first : succeeded gh prs_in w.calls (c ∷ []) ≡ 1 = rw (h, one) (ground arith) in
        let marked : mark payload.repo_id payload.issue_number
              (set_issue_fix_pr payload.repo_id issue.number n w.store)
            ≡ 1 =
          rw same (
            mark-set_issue_fix_pr payload.repo_id payload.issue_number w.store issue n found
              (positive w.calls c n h)) in
        (c ∷ [] ++ ds, g, omega (arith, z, y, zero, first, marked))

    pushed-Marks :
        (c : Call) (w : World) (o : Result PostError (Unit {0}) × World)
        → prs_in c.request ≡ 1
        → IsOpen w.store
        → Quiet gh w o.1
        → Marks w
            (resume (mark_fixed gh payload issue.number) (resume (λ _. perform gh.number c) o)).1
    pushed-Marks c w (err e, v) one state q = Quiet-Marks w v q
    pushed-Marks c w (ok _, v) one state q =
        Quiet-trans-Marks w v _ q
          (mark_fixed-Marks c v (gh.number v.calls c) one refl (rw q.0 state))

    abbrev commit_call : String → String → Call
    commit_call base new_tree =
        issue_call gh payload (create_commit (fix_title issue.number) new_tree (base ∷ []))

    abbrev branch_call : String → Call
    branch_call commit = issue_call gh payload (create_branch (fix_branch issue.number) commit)

    push_fix-Quiet :
        (base tree : String) (entries : List TreeEntry) (w : World)
        → Quiet gh w (push_fix gh payload issue.number base tree entries w).1
    unfolding push_fix
    push_fix-Quiet base tree entries w =
        let tree_call = issue_call gh payload (create_tree tree entries) in
        then-Quiet gh w (λ c. perform gh.done (branch_call c))
          (resume (λ t. perform gh.name (commit_call base t)) (perform gh.name tree_call w))
          (then-Quiet gh w (λ t. perform gh.name (commit_call base t)) (perform gh.name tree_call w)
            (performed-Quiet gh gh.name tree_call w refl)
            (λ t x. performed-Quiet gh gh.name (commit_call base t) x refl))
          (λ c x. performed-Quiet gh gh.done (branch_call c) x refl)

    open_fix-Marks :
        (branch base tree : String) (entries : List TreeEntry) (w : World)
        → IsOpen w.store
        → Marks w (open_fix gh payload issue.number branch base tree entries w).1
    unfolding open_fix no_fix
    open_fix-Marks branch base tree entries w state = elim (Bool-cases (is_nil entries)) [
      | inl e ↦ rw e (
          Quiet-Marks w _ (
            performed-Quiet gh gh.done
              (issue_call gh payload (add_issue_comment issue.number (no_fix_text gh payload))) w
              refl))
      | inr e ↦ rw e (
          pushed-Marks
            (issue_call gh payload (
              create_pr (fix_title issue.number) (fix_body issue.number entries)
                (fix_branch issue.number) branch))
            w (push_fix gh payload issue.number base tree entries w) refl state
            (push_fix-Quiet base tree entries w))
    ]

    fix_on-Marks :
        (findings : List FindingRecord) (branch : String) (w : World)
        → IsOpen w.store
        → Marks w (fix_on gh payload issue.number findings branch w).1
    unfolding fix_on
    fix_on-Marks findings branch w state =
        let sha_call = issue_call gh payload (get_branch_sha branch) in
        then-Marks w
          (λ base. perform gh.name (issue_call gh payload (get_commit_tree_sha base)) >>= λ tree.
            fix_files gh payload base findings []
            >>= open_fix gh payload issue.number branch base tree)
          (perform gh.name sha_call w) (performed-Quiet gh gh.name sha_call w refl)
          (λ base x s.
            then-Marks x
              (λ tree.
                fix_files gh payload base findings []
                >>= open_fix gh payload issue.number branch base tree)
              (perform gh.name (issue_call gh payload (get_commit_tree_sha base)) x)
              (performed-Quiet gh gh.name (issue_call gh payload (get_commit_tree_sha base)) x refl)
              (λ tree y t.
                then-Marks y (open_fix gh payload issue.number branch base tree)
                  (fix_files gh payload base findings [] y)
                  (fix_files-Quiet gh payload base findings [] y)
                  (λ entries z r.
                    open_fix-Marks branch base tree entries z
                      (subst IsOpen (sym (r ∙ (t ∙ s))) state))))

    default_branch-Quiet :
        (repo : Repo) (w : World) → Quiet gh w (default_branch gh payload repo w).1
    unfolding default_branch
    default_branch-Quiet repo w = elim (Bool-cases (str_eq repo.default_branch "")) [
      | inl e ↦ rw e (performed-Quiet gh gh.name (issue_call gh payload get_default_branch) w refl)
      | inr e ↦ rw e (Quiet-refl gh w)
    ]

    approve_issue-Marks :
        (w : World)
        → issue_by_number payload.repo_id payload.issue_number w.store ≡ some issue
        → Marks w (approve_issue gh payload issue w).1
    unfolding approve_issue default_branch
    approve_issue-Marks w found = elim (Bool-cases (ltb 0 issue.fix_pr_number)) [
      | inl e ↦ rw e (Quiet-Marks w w (Quiet-refl gh w))
      | inr e ↦ rw e (
          then-Marks w
            (fix_on gh payload issue.number
              (findings_for_issue payload.repo_id payload.issue_number w.store))
            (resume (default_branch gh payload) (query_or_fail (get_repo payload.repo_id) w))
            (then-Quiet gh w (default_branch gh payload)
              (query_or_fail (get_repo payload.repo_id) w) (Quiet-refl gh w) default_branch-Quiet)
            (λ branch x s.
              fix_on-Marks (findings_for_issue payload.repo_id payload.issue_number w.store) branch
                x
                (subst IsOpen (sym s)
                  (found, ap (mark_of payload.repo_id payload.issue_number) found ∙ rw e refl))))
    ]

  found-number :
      (w : World) (issue : IssueRecord)
      → issue_by_number payload.repo_id payload.issue_number w.store ≡ some issue
      → issue.number ≡ payload.issue_number
  unfolding issue_by_number
  found-number w issue h =
      let is = find-true (is_issue payload.repo_id payload.issue_number) w.store.issues issue h in
      ground arith

  command_on-Marks :
      (o : Option IssueRecord) (w : World)
      → issue_by_number payload.repo_id payload.issue_number w.store ≡ o
      → Marks w (command_on gh payload o w).1
  unfolding command_on
  command_on-Marks none w h = Quiet-Marks w w (Quiet-refl gh w)
  command_on-Marks (some issue) w h =
      let same = found-number w issue h in
      let command = to_lower (trim_space payload.command) in
      elim (Bool-cases (str_eq issue.status "open")) [
        | inr e ↦ rw e (Quiet-Marks w w (Quiet-refl gh w))
        | inl e ↦ rw e (elim (Bool-cases (text_eq command (codes "deny"))) [
          | inl f ↦ rw f (deny_issue-Marks issue same w)
          | inr f ↦ rw f (elim (Bool-cases (text_eq command (codes "approve"))) [
            | inl g ↦ rw g (approve_issue-Marks issue same w h)
            | inr g ↦ rw g (Quiet-Marks w w (Quiet-refl gh w))
          ])
        ])
      ]

  pub handle_issue_command-Marks : (w : World) → Marks w (handle_issue_command gh payload w).1
  unfolding handle_issue_command
  handle_issue_command-Marks w =
      command_on-Marks (issue_by_number payload.repo_id payload.issue_number w.store) w refl
