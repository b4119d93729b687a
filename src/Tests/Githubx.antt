-- ===== src/Tests/Githubx.antt =====
-- The client of GitHub: a call that is answered at its second attempt, and a pull request of two files.
use arcticworks_codepeer.Base.{
  none, inl, ℕ, zero, suc, ◌≡◌, refl, ◌≤◌, ◌<◌, ◌++◌, take, false, some, List, [], ◌∷◌, All, arith,
  length, pos, ◌+◌,
}
use arcticworks_codepeer.Base.Text.{Text, codes}
use arcticworks_codepeer.Base.Result.{ok, err}
use arcticworks_codepeer.Githubx.Retry.{Reply, is_retryable, do_with_retry, do_with_delays}
use arcticworks_codepeer.Githubx.Pages.{per_page, served}
use arcticworks_codepeer.Githubx.Client.{Call, CommitFile, map_commit_files, list_pr_files}
use arcticworks_codepeer.Githubx.Served.{list_pr_files-served}
use arcticworks_codepeer.Githubx.Auth.{
  Issuer, Tokens, IsFrom, installation_token, installation_token_kept,
}
use arcticworks_codepeer.Githubx.Operations.{refused_or, client_for, with_client}
use arcticworks_codepeer.Githubx.Operations.Isolated.{with_client-uses_own_token}
use arcticworks_codepeer.Githubx.Attempts.{IsDelay, Failed, IsEnd, do_with_retry_contract}

-- The server is busy, and asks for a wait of three seconds, at the first attempt.
abbrev second_time : {A : Type 0} → A → ℕ → Reply A
second_time a zero = (
  some (record { status_code = 503; retry_after = codes "3" }),
  err (record { is_rate_limit = false; status = some 503 }),
)
second_time a (suc n) = (some (record { status_code = 200; retry_after = [] }), ok a)

abbrev slow_seven : ℕ → Reply ℕ
slow_seven = second_time 7

abbrev sample_file : CommitFile
sample_file = record {
  filename = codes "a.go";
  status = "modified";
  additions = 1;
  deletions = 0;
  patch = [];
}

abbrev two_files : List CommitFile
two_files = sample_file ∷ sample_file ∷ []

abbrev sample_call : ℕ → Call (List CommitFile)
sample_call page = record {
  reply = second_time (served two_files page);
  cancelled_before = λ n. false;
}

sample_call-answers :
    (page : ℕ)
    → do_with_retry (sample_call page).reply (sample_call page).cancelled_before
      ≡ ok (served two_files page)
unfolding do_with_retry is_retryable
sample_call-answers page = refl

do_with_retry_contract_example :
    (k : ℕ) × (k ≤ 2)
    × (length (do_with_delays slow_seven (λ n. false)).1 ≡ k)
    × All IsDelay (do_with_delays slow_seven (λ n. false)).1
    × ((m : ℕ) → m < k → Failed slow_seven (λ n. false) m)
    × IsEnd slow_seven (λ n. false) 2 k (do_with_retry slow_seven (λ n. false))
do_with_retry_contract_example = do_with_retry_contract slow_seven (λ n. false)

list_pr_files-served_example :
    (length two_files < per_page → list_pr_files sample_call 2 ≡ ok (map_commit_files two_files))
    × (per_page ≤ length two_files
        → list_pr_files sample_call 2
          ≡ ok (take per_page (map_commit_files two_files) ++ map_commit_files two_files))
list_pr_files-served_example =
    list_pr_files-served sample_call two_files 1 sample_call-answers (omega arith)

-- An app that has no token yet, and its token for installation 5.
abbrev sample_issuer : Issuer
sample_issuer = record {
  app_id = pos 1;
  client_id = codes "app";
  sign = λ claims. some (codes "jwt");
  create =
      λ jwt i. record { reply = second_time (codes "token", none); cancelled_before = λ n. false };
  answered_at = 900_000_000_000;
}

abbrev no_tokens : Tokens
no_tokens = record { jwt_token = []; jwt_expiry = 0; tokens = λ i. none }

abbrev first_tokens : Tokens
first_tokens = (installation_token sample_issuer 800_000_000_000 5 no_tokens).1

token_returned :
    installation_token sample_issuer 800_000_000_000 5 no_tokens
    ≡ (ok (codes "token"), first_tokens)
unfolding installation_token do_with_retry is_retryable
token_returned = refl

installation_token_kept_example :
    (e : ℕ) × (first_tokens.tokens 5 ≡ some (record { token = codes "token"; expires_at = e }))
    × ((j : ℕ) → ¬ (5 ≡ j) → first_tokens.tokens j ≡ none)
    × IsFrom sample_issuer 800_000_000_000 5 no_tokens first_tokens (codes "token") e
    × ((app' : Issuer) (later : ℕ)
        → later + 300_000_000_000 < e
        → installation_token app' later 5 first_tokens ≡ (ok (codes "token"), first_tokens))
installation_token_kept_example =
    installation_token_kept sample_issuer 800_000_000_000 5 no_tokens first_tokens (codes "token")
      token_returned

-- The operation of a client that is set up for installation 1, in a context for installation 5.
asked :
    with_client sample_issuer 800_000_000_000 (some 5) 1 (λ token. ok (length token)) no_tokens
    ≡ (ok 5, first_tokens)
unfolding with_client client_for installation_token do_with_retry is_retryable
asked = refl

with_client-uses_own_token_example :
    (token : Text) × (e : ℕ) × (first_tokens.tokens 5
      ≡ some (record { token = token; expires_at = e }))
    × (refused_or (ok (length token)) ≡ ok 5)
    × ((j : ℕ) → ¬ (5 ≡ j) → first_tokens.tokens j ≡ none)
with_client-uses_own_token_example =
    with_client-uses_own_token sample_issuer 800_000_000_000 (some 5) 1 5
      (λ token. ok (length token)) (ok 5) no_tokens first_tokens (inl refl) asked
