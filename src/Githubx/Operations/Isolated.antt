-- ===== src/Githubx/Operations/Isolated.antt =====
-- The token that an operation of Githubx/Operations uses.
use arcticworks_codepeer.Base.{ℕ, ◌≡◌, refl, sym, ap, ◌∙◌, ◌⊎◌, inl, inr, Option, none, some}
use arcticworks_codepeer.Base.Text.{Text}
use arcticworks_codepeer.Base.Result.{Result, ok, err}
use arcticworks_codepeer.Githubx.Retry.{ClientError}
use arcticworks_codepeer.Githubx.Auth.{
  Issuer, Tokens, AuthError, installation_token, installation_token_kept,
}
use arcticworks_codepeer.Githubx.Operations.{bound_or, client_for, refused_or, called, with_client}

called-authorized :
    {A : Type 0} (api : Text → Result ClientError A) (o : Result AuthError Text × Tokens)
    (r : Result ClientError A) (s' : Tokens)
    → called api o ≡ (refused_or r, s')
    → (token : Text) × (o ≡ (ok token, s')) × (refused_or (api token) ≡ refused_or r)
unfolding called
called-authorized api (err e, s) (err f) s' h = absurd cc
called-authorized api (err e, s) (ok a) s' h = absurd cc
called-authorized api (ok token, s) r s' h = (token, ap (λ o. (ok token, o.1)) h, ap (λ o. o.0) h)

-- The installation of a call: the one that the context is bound to, or else the client's own.
abbrev pub IsOwn : Option ℕ → ℕ → ℕ → Type 0
IsOwn bound id i = (bound ≡ some i) ⊎ ((bound ≡ none) × (id ≡ i))

bound_or-IsOwn : (bound : Option ℕ) (id i : ℕ) → IsOwn bound id i → bound_or bound id ≡ i
bound_or-IsOwn bound id i (inl e) = rw e refl
bound_or-IsOwn bound id i (inr (e, f)) = rw e f

-- For every call that is made through with_client, as the operations of client.go and gitdata.go are, and
-- whatever GitHub answers: the call is made with the token that is kept then for the installation that the
-- context is bound to, or else for the client's own; and the tokens of all other installations are as
-- before.
pub with_client-uses_own_token :
    {A : Type 0} (app : Issuer) (now : ℕ) (bound : Option ℕ) (id i : ℕ)
    (api : Text → Result ClientError A) (r : Result ClientError A) (s s' : Tokens)
    → IsOwn bound id i
    → with_client app now bound id api s ≡ (refused_or r, s')
    → (token : Text) × (e : ℕ) × (s'.tokens i ≡ some (record { token = token; expires_at = e }))
      × (refused_or (api token) ≡ refused_or r)
      × ((j : ℕ) → ¬ (i ≡ j) → s'.tokens j ≡ s.tokens j)
unfolding with_client client_for
with_client-uses_own_token app now bound id i api r s s' own h =
    let same = bound_or-IsOwn bound id i own in
    let (token, issued, answer) =
      called-authorized api (installation_token app now i s) r s'
        (ap (λ n. called api (installation_token app now n s)) (sym same) ∙ h) in
    let (e, kept, others, from, later) = installation_token_kept app now i s s' token issued in
    (token, e, kept, answer, others)
