-- ===== src/Config/Valid.antt =====
-- Which `.codepeer.yml` files are accepted, and what an accepted one gives.
use arcticworks_codepeer.Base.{
  String, ◌≡◌, ◌↔◌, refl, true, Option, none, some, List, [], ◌∷◌, arith, All, ℤ, pos, ◌≤ℤ◌, inl,
  inr, Option-cases, sym, ◌∙◌, ap, subst,
}
use arcticworks_codepeer.Base.Result.{ok, >>=-eq-ok}
use arcticworks_codepeer.Domain.{RepoConfig, default_repo_config, default_agents}
use arcticworks_codepeer.Config.{
  RawRepoConfig, or_default, valid_mode, valid_strictness, valid_agent, check_mode,
  check_strictness, check_max_findings, check_per_file_cap, first_invalid_agent, check_agents,
  overlay,
}

abbrev AgentsValid : Option (List String) → Type 0
AgentsValid none = Unit
AgentsValid (some as') = All (λ a. valid_agent a ≡ true) as'

-- What the rest of the program may rely on.
pub record IsValid (c : RepoConfig) : Type 0 where
  pub mode : valid_mode c.mode ≡ true
  pub strictness : valid_strictness c.strictness ≡ true
  pub max_findings : (pos 1 ≤ℤ c.max_findings) × (c.max_findings ≤ℤ pos 50)
  pub per_file_cap : (pos 1 ≤ℤ c.per_file_cap) × (c.per_file_cap ≤ℤ pos 10)
  pub agents : AgentsValid c.agents

abbrev IfSet {ℓ} : {A : Type ℓ} → (A → Type 0) → Option A → Type 0
IfSet P none = Unit
IfSet P (some a) = P a

-- Each field of the file is missing or has one of the values that its comment allows.
pub record IsAcceptable (raw : RawRepoConfig) : Type 0 where
  pub mode : IfSet (λ m. valid_mode m ≡ true) raw.mode
  pub strictness : IfSet (λ s. valid_strictness s ≡ true) raw.strictness
  pub max_findings : IfSet (λ n. (pos 1 ≤ℤ n) × (n ≤ℤ pos 50)) raw.max_findings
  pub per_file_cap : IfSet (λ n. (pos 1 ≤ℤ n) × (n ≤ℤ pos 10)) raw.per_file_cap
  pub agents : AgentsValid raw.agents

first_invalid_agent-none :
    (as' : List String) → first_invalid_agent as' ≡ none → All (λ a. valid_agent a ≡ true) as'
unfolding first_invalid_agent
first_invalid_agent-none [] h = tt
first_invalid_agent-none (a ∷ as') h = ground (arith, first_invalid_agent-none as')

none-first_invalid_agent :
    (as' : List String) → All (λ a. valid_agent a ≡ true) as' → first_invalid_agent as' ≡ none
unfolding first_invalid_agent
none-first_invalid_agent [] h = refl
none-first_invalid_agent (a ∷ as') h = ground (arith, none-first_invalid_agent as')

abbrev agents_or : Option (List String) → Option (List String)
agents_or none = some default_agents
agents_or (some as') = some as'

-- What an acceptable file gives: its fields, and the defaults for those that it leaves out.
abbrev pub overlaid : RawRepoConfig → RepoConfig
overlaid raw = record {
  enabled = or_default raw.enabled default_repo_config.enabled;
  mode = or_default raw.mode default_repo_config.mode;
  strictness = or_default raw.strictness default_repo_config.strictness;
  ignore_paths = or_default raw.ignore_paths default_repo_config.ignore_paths;
  ignore_usernames = or_default raw.ignore_usernames default_repo_config.ignore_usernames;
  skip_title_keywords = or_default raw.skip_title_keywords default_repo_config.skip_title_keywords;
  base_branches = or_default raw.base_branches default_repo_config.base_branches;
  max_findings = or_default raw.max_findings default_repo_config.max_findings;
  per_file_cap = or_default raw.per_file_cap default_repo_config.per_file_cap;
  include_nits = or_default raw.include_nits default_repo_config.include_nits;
  custom_instructions = or_default raw.custom_instructions default_repo_config.custom_instructions;
  instruction_files = or_default raw.instruction_files default_repo_config.instruction_files;
  agents = agents_or raw.agents;
}

check_mode_ok :
    (r : Option String) (d m : String)
    → check_mode r d ≡ ok m
    → IfSet (λ x. valid_mode x ≡ true) r × (m ≡ or_default r d)
unfolding check_mode
check_mode_ok none d m h = ground arith
check_mode_ok (some x) d m h = ground arith

check_strictness_ok :
    (r : Option String) (d m : String)
    → check_strictness r d ≡ ok m
    → IfSet (λ x. valid_strictness x ≡ true) r × (m ≡ or_default r d)
unfolding check_strictness
check_strictness_ok none d m h = ground arith
check_strictness_ok (some x) d m h = ground arith

check_max_findings_ok :
    (r : Option ℤ) (d m : ℤ)
    → check_max_findings r d ≡ ok m
    → IfSet (λ n. (pos 1 ≤ℤ n) × (n ≤ℤ pos 50)) r × (m ≡ or_default r d)
unfolding check_max_findings
check_max_findings_ok none d m h = ground arith
check_max_findings_ok (some x) d m h = ground arith

check_per_file_cap_ok :
    (r : Option ℤ) (d m : ℤ)
    → check_per_file_cap r d ≡ ok m
    → IfSet (λ n. (pos 1 ≤ℤ n) × (n ≤ℤ pos 10)) r × (m ≡ or_default r d)
unfolding check_per_file_cap
check_per_file_cap_ok none d m h = ground arith
check_per_file_cap_ok (some x) d m h = ground arith

check_agents_ok :
    (r m : Option (List String))
    → check_agents r (some default_agents) ≡ ok m
    → AgentsValid r × (m ≡ agents_or r)
unfolding check_agents
check_agents_ok none m h = ground arith
check_agents_ok (some x) m h = elim (Option-cases (first_invalid_agent x)) [
  | inl e ↦ (first_invalid_agent-none x e, ground arith)
  | inr e ↦ ground arith
]

check_agents_total :
    (r : Option (List String))
    → AgentsValid r
    → check_agents r (some default_agents) ≡ ok (agents_or r)
unfolding check_agents
check_agents_total none h = refl
check_agents_total (some x) h = rw (none-first_invalid_agent x h, check_agents)

check_mode_total :
    (r : Option String) (d : String)
    → IfSet (λ x. valid_mode x ≡ true) r
    → check_mode r d ≡ ok (or_default r d)
unfolding check_mode
check_mode_total none d h = refl
check_mode_total (some x) d h = ground arith

check_strictness_total :
    (r : Option String) (d : String)
    → IfSet (λ x. valid_strictness x ≡ true) r
    → check_strictness r d ≡ ok (or_default r d)
unfolding check_strictness
check_strictness_total none d h = refl
check_strictness_total (some x) d h = ground arith

check_max_findings_total :
    (r : Option ℤ) (d : ℤ)
    → IfSet (λ n. (pos 1 ≤ℤ n) × (n ≤ℤ pos 50)) r
    → check_max_findings r d ≡ ok (or_default r d)
unfolding check_max_findings
check_max_findings_total none d h = refl
check_max_findings_total (some x) d h = ground arith

check_per_file_cap_total :
    (r : Option ℤ) (d : ℤ)
    → IfSet (λ n. (pos 1 ≤ℤ n) × (n ≤ℤ pos 10)) r
    → check_per_file_cap r d ≡ ok (or_default r d)
unfolding check_per_file_cap
check_per_file_cap_total none d h = refl
check_per_file_cap_total (some x) d h = ground arith

module _ (raw : RawRepoConfig) where
  overlay_rejects : {c : RepoConfig} → overlay raw ≡ ok c → IsAcceptable raw × (c ≡ overlaid raw)
  unfolding overlay
  overlay_rejects h =
      let (m, em, h1) = >>=-eq-ok (check_mode raw.mode "pr") _ h in
      let (s, es, h2) = >>=-eq-ok (check_strictness raw.strictness "balanced") _ h1 in
      let (n, en, h3) = >>=-eq-ok (check_max_findings raw.max_findings (pos 10)) _ h2 in
      let (p, ep, h4) = >>=-eq-ok (check_per_file_cap raw.per_file_cap (pos 3)) _ h3 in
      let (a, ea, h5) = >>=-eq-ok (check_agents raw.agents (some default_agents)) _ h4 in
      let (vm, qm) = check_mode_ok raw.mode "pr" m em in
      let (vs, qs) = check_strictness_ok raw.strictness "balanced" s es in
      let (vn, qn) = check_max_findings_ok raw.max_findings (pos 10) n en in
      let (vp, qp) = check_per_file_cap_ok raw.per_file_cap (pos 3) p ep in
      let (va, qa) = check_agents_ok raw.agents a ea in
      (
        record { mode = vm; strictness = vs; max_findings = vn; per_file_cap = vp; agents = va },
        ground arith,
      )

  -- An acceptable file is accepted.
  overlay_accepts : IsAcceptable raw → overlay raw ≡ ok (overlaid raw)
  unfolding overlay
  overlay_accepts v = rw (
    check_mode_total raw.mode "pr" v.mode,
    check_strictness_total raw.strictness "balanced" v.strictness,
    check_max_findings_total raw.max_findings (pos 10) v.max_findings,
    check_per_file_cap_total raw.per_file_cap (pos 3) v.per_file_cap,
    check_agents_total raw.agents v.agents,
  )

or_default-keeps :
    {A : Type 0} (P : A → Type 0) (r : Option A) (d : A) → IfSet P r → P d → P (or_default r d)
or_default-keeps P none d h k = k
or_default-keeps P (some a) d h k = h

agents_or-AgentsValid : (r : Option (List String)) → AgentsValid r → AgentsValid (agents_or r)
unfolding valid_agent
agents_or-AgentsValid none h = (refl, (refl, (refl, (refl, (refl, tt)))))
agents_or-AgentsValid (some x) h = h

overlaid-IsValid : (raw : RawRepoConfig) → IsAcceptable raw → IsValid (overlaid raw)
unfolding valid_mode valid_strictness valid_agent
overlaid-IsValid raw v = record {
  mode = or_default-keeps (λ m. valid_mode m ≡ true) raw.mode "pr" v.mode refl;
  strictness =
      or_default-keeps (λ s. valid_strictness s ≡ true) raw.strictness "balanced" v.strictness refl;
  max_findings =
      or_default-keeps (λ n. (pos 1 ≤ℤ n) × (n ≤ℤ pos 50)) raw.max_findings (pos 10) v.max_findings
        (omega arith, omega arith);
  per_file_cap =
      or_default-keeps (λ n. (pos 1 ≤ℤ n) × (n ≤ℤ pos 10)) raw.per_file_cap (pos 3) v.per_file_cap
        (omega arith, omega arith);
  agents = agents_or-AgentsValid raw.agents v.agents;
}

-- A decoded `.codepeer.yml` is accepted exactly when every field that it sets is allowed; it then gives
-- its fields over the defaults, and that configuration is valid.
pub overlay_iff :
    (raw : RawRepoConfig) (c : RepoConfig)
    → ((overlay raw ≡ ok c) ↔ (IsAcceptable raw × (c ≡ overlaid raw)))
      × (overlay raw ≡ ok c → IsValid c)
overlay_iff raw c = (
  (λ h. overlay_rejects raw h, λ (v, e). overlay_accepts raw v ∙ ap ok (sym e)),
  λ h. let (v, e) = overlay_rejects raw h in subst IsValid (sym e) (overlaid-IsValid raw v),
)
