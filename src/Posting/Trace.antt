-- ===== src/Posting/Trace.antt =====
-- The calls that an action makes: how many comments and new issues, and whether they are within limits.
use arcticworks_codepeer.Base.{
  ℕ, ◌+◌, ◌≤◌, ◌≡◌, refl, sym, ap, ◌∙◌, Bool, true, false, inl, inr, List, [], ◌∷◌, ◌++◌,
  append_assoc, append-nil, arith, Bool-cases, if◌then◌else◌, length, All, All-append,
}
use arcticworks_codepeer.Base.Text.{Text}
use arcticworks_codepeer.Base.Result.{Result, ok, err}
use arcticworks_codepeer.Base.Action.{resume}
use arcticworks_codepeer.Posting.World.{
  Github, Request, create_check_run, create_review, create_comment, create_issue, Call, World,
  PostError, Posting, perform,
}

abbrev pub is_ok : Result Text ℕ → Bool
is_ok (err e) = false
is_ok (ok n) = true

-- What a request counts as an inline comment, and as an issue, if it succeeds.
abbrev pub comments_in : Request → ℕ
comments_in (create_comment n sha c) = 1
comments_in _ = 0

abbrev pub issues_in : Request → ℕ
issues_in (create_issue t b l) = 1
issues_in _ = 0

-- A request is within the limits.
abbrev pub IsBounded : Request → Type 0
IsBounded (create_check_run c) = length c.annotations ≤ 50
IsBounded (create_review n sha body) = length body ≤ 65015
IsBounded (create_comment n sha c) = length c.body ≤ 30000
IsBounded (create_issue title body labels) = (length title ≤ 200) × (length body ≤ 30000)
IsBounded _ = Unit

abbrev pub comments : List Call → ℕ
comments [] = 0
comments (c ∷ cs) = comments_in c.request + comments cs

comments-append : (cs ds : List Call) → comments (cs ++ ds) ≡ comments cs + comments ds
comments-append [] ds = ground arith
comments-append (c ∷ cs) ds = ground (arith, comments-append cs ds)

module _ (gh : Github) (weight : Request → ℕ) where
  -- What some calls after the calls `h` count for, those that fail left out.
  abbrev pub succeeded : List Call → List Call → ℕ
  succeeded h [] = 0
  succeeded h (c ∷ cs) =
      (if is_ok (gh.number h c) then weight c.request else 0) + succeeded (h ++ c ∷ []) cs

  pub succeeded-append :
      (h cs ds : List Call) → succeeded h (cs ++ ds) ≡ succeeded h cs + succeeded (h ++ cs) ds
  succeeded-append h [] ds = rw (append-nil h) (ground arith)
  succeeded-append h (c ∷ cs) ds =
      let h1 = h ++ c ∷ [] in
      let same : succeeded h1 (cs ++ ds) ≡ succeeded h1 cs + succeeded (h ++ c ∷ cs) ds =
        succeeded-append h1 cs ds
        ∙ ap (λ x. succeeded h1 cs + succeeded x ds) (append_assoc h (c ∷ []) cs) in
      omega (arith, same)

module _ (gh : Github) where
  -- The number of issues that are opened by some calls after the calls `h`.
  abbrev pub opened : List Call → List Call → ℕ
  opened = succeeded gh issues_in

  -- From `w` to `w'` there are at most `c` comments and `i` new issues, all within the limits.
  abbrev pub Posts : ℕ → ℕ → World → World → Type 0
  Posts c i w w' =
      (cs : List Call) × (w'.calls ≡ w.calls ++ cs)
      × (comments cs ≤ c)
      × (opened w.calls cs ≤ i)
      × All (λ (x : Call). IsBounded x.request) cs

  pub Posts-refl : (w w' : World) → w'.calls ≡ w.calls → Posts 0 0 w w'
  Posts-refl w w' e = ([], e ∙ sym (append-nil w.calls), ground arith, ground arith, tt)

  pub Posts-trans :
      (u v w : World) (c d i j : ℕ) → Posts c i u v → Posts d j v w → Posts (c + d) (i + j) u w
  Posts-trans u v w c d i j (cs, e, few, new, bounded) (ds, f, fewer, newer, bound) = (
    cs ++ ds,
    f ∙ (ap (λ x. x ++ ds) e ∙ append_assoc u.calls cs ds),
    omega (arith, comments-append cs ds),
    omega (arith, succeeded-append gh issues_in u.calls cs ds, ap (λ x. opened x ds) e),
    All-append (λ (x : Call). IsBounded x.request) cs ds bounded bound,
  )

  pub Posts-le : (u v : World) (c d i j : ℕ) → c ≤ d → i ≤ j → Posts c i u v → Posts d j u v
  Posts-le u v c d i j h k (cs, e, few, new, bounded) = (cs, e, omega arith, omega arith, bounded)

  -- One call.
  pub performed :
      {A : Type 0} (answer : List Call → Call → Result Text A) (c : Call) (w : World)
      → IsBounded c.request
      → Posts (comments_in c.request) (issues_in c.request) w (perform answer c w).1
  performed answer c w b = elim (Bool-cases (is_ok (gh.number w.calls c))) [
    | inl e ↦ (c ∷ [], refl, ground arith, rw e (ground arith), (b, tt))
    | inr e ↦ (c ∷ [], refl, ground arith, rw e (ground arith), (b, tt))
  ]

  -- An action, and what follows it.
  pub then-Posts :
      {A B : Type 0} (c d i j : ℕ) (w : World) (rest : A → Posting B)
      (o : Result PostError A × World)
      → Posts c i w o.1
      → ((a : A) (x : World) → Posts d j x (rest a x).1)
      → Posts (c + d) (i + j) w (resume rest o).1
  then-Posts c d i j w rest (err e, v) p k =
      Posts-le w v c (c + d) i (i + j) (ground arith) (ground arith) p
  then-Posts c d i j w rest (ok a, v) p k = Posts-trans w v (rest a v).1 c d i j p (k a v)
