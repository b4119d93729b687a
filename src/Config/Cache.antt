-- ===== src/Config/Cache.antt =====
-- internal/config/codepeer.go: `RepoConfigCache`. Times are numbers of nanoseconds; `Get` reads the
-- clock when it looks the entry up, and again when it stores one.
use arcticworks_codepeer.Base.{
  ℕ, ◌+◌, ◌≤◌, ◌<◌, ◌≡◌, String, Option, none, some, [], ◌∷◌, ◌++◌, arith, ltb, leb, if◌then◌else◌,
}
use arcticworks_codepeer.Base.Text.{Text, codes}
use arcticworks_codepeer.Base.Text.Order.{text_eq_refl}
use arcticworks_codepeer.Base.Assoc.{Assoc, lookup, insert, lookup-insert}
use arcticworks_codepeer.Base.Result.{Result, ok, err}
use arcticworks_codepeer.Domain.{RepoConfig, default_repo_config}
use arcticworks_codepeer.Config.{RawRepoConfig, ConfigError, parse}

pub record CacheEntry : Type 0 where
  pub cfg : RepoConfig
  pub expires : ℕ

pub record RepoConfigCache : Type 0 where
  pub ttl : ℕ
  pub items : Assoc CacheEntry

abbrev pub default_ttl : ℕ
default_ttl = 300_000_000_000

-- NewRepoConfigCache; a lifetime of zero or less, here zero, falls back to five minutes.
unfoldable pub new_cache : ℕ → RepoConfigCache
new_cache ttl = record { ttl = if leb ttl 0 then default_ttl else ttl; items = [] }

abbrev pub cache_key : String → String → Text
cache_key owner repo = codes owner ++ (b'/' ∷ codes repo)

-- The entry of a key, if it has not expired.
unfoldable pub fresh : RepoConfigCache → Text → ℕ → Option RepoConfig
fresh c key now = elim (lookup key c.items) [
  | none ↦ none
  | some e ↦ if ltb now e.expires then some e.cfg else none
]

parsed_or_default : Result ConfigError RepoConfig → RepoConfig
parsed_or_default (ok cfg) = cfg
parsed_or_default (err e) = default_repo_config

-- An empty file and an invalid one give the defaults.
unfoldable pub config_of : (Text → Option RawRepoConfig) → Text → RepoConfig
unfolding parsed_or_default
config_of decode [] = default_repo_config
config_of decode (c ∷ content) = parsed_or_default (parse decode (c ∷ content))

store_fetched :
    (Text → Option RawRepoConfig)
    → RepoConfigCache
    → Text
    → Result Text Text
    → ℕ
    → Result Text RepoConfig × RepoConfigCache
store_fetched decode c key (err e) later = (err e, c)
store_fetched decode c key (ok content) later =
    let cfg = config_of decode content in
    (
      ok cfg,
      record c { items = insert key (record { cfg = cfg; expires = later + c.ttl }) c.items },
    )

-- `fetched` is what the callback returns if it is called, `later` the clock when the entry is stored.
unfoldable pub cache_get :
    (Text → Option RawRepoConfig)
    → RepoConfigCache
    → String
    → String
    → ℕ
    → Result Text Text
    → ℕ
    → Result Text RepoConfig × RepoConfigCache
unfolding store_fetched
cache_get decode c owner repo now fetched later = elim (fresh c (cache_key owner repo) now) [
  | some cfg ↦ (ok cfg, c)
  | none ↦ store_fetched decode c (cache_key owner repo) fetched later
]

module _ (decode : Text → Option RawRepoConfig) (c : RepoConfigCache) (owner repo : String) where
  -- After a fetch at a time when there is no fresh entry: until the lifetime has passed, `Get` returns
  -- the configuration of the fetched content and changes nothing, whatever a new fetch would return;
  -- from then on it fetches again. A failed fetch stores nothing.
  pub cache_get_lifetime :
      (now later : ℕ) (content : Text)
      → fresh c (cache_key owner repo) now ≡ none
      → let c' = (cache_get decode c owner repo now (ok content) later).1 in
        ((t t' : ℕ) (again : Result Text Text)
          → t < later + c.ttl
          → cache_get decode c' owner repo t again t' ≡ (ok (config_of decode content), c'))
        × ((t t' : ℕ) (e : Text)
            → later + c.ttl ≤ t
            → cache_get decode c' owner repo t (err e) t' ≡ (err e, c'))
  unfolding cache_get fresh
  cache_get_lifetime now later content h =
      let k = cache_key owner repo in
      let cfg = config_of decode content in
      let stored = lookup-insert k k (record { cfg = cfg; expires = later + c.ttl }) c.items in
      (
        λ t t' again lt. ground (arith, stored, text_eq_refl k),
        λ t t' e le. ground (arith, stored, text_eq_refl k),
      )
