-- ===== src/Tests/Config.antt =====
-- A `.codepeer.yml` that sets two fields, and the cache after a fetch.
use arcticworks_codepeer.Base.{◌≡◌, ◌≤◌, ◌<◌, ◌+◌, ◌↔◌, ℕ, Option, none, some, pos, [], ◌∷◌, refl}
use arcticworks_codepeer.Base.Text.{Text, codes}
use arcticworks_codepeer.Base.Assoc
use arcticworks_codepeer.Base.Result.{Result, ok, err}
use arcticworks_codepeer.Config.{RawRepoConfig, overlay}
use arcticworks_codepeer.Config.Valid.{IsValid, IsAcceptable, overlaid, overlay_iff}
use arcticworks_codepeer.Config.Cache.{
  RepoConfigCache, new_cache, cache_key, fresh, config_of, cache_get, cache_get_lifetime,
}

abbrev sample_raw : RawRepoConfig
sample_raw = record {
  enabled = none;
  mode = some "both";
  strictness = none;
  ignore_paths = none;
  ignore_usernames = none;
  skip_title_keywords = none;
  base_branches = none;
  max_findings = some (pos 20);
  per_file_cap = none;
  include_nits = none;
  custom_instructions = none;
  instruction_files = none;
  agents = some ("security" ∷ []);
}

overlay_iff_example :
    ((overlay sample_raw ≡ ok (overlaid sample_raw))
      ↔ (IsAcceptable sample_raw × (overlaid sample_raw ≡ overlaid sample_raw)))
    × (overlay sample_raw ≡ ok (overlaid sample_raw) → IsValid (overlaid sample_raw))
overlay_iff_example = overlay_iff sample_raw (overlaid sample_raw)

abbrev pub sample_decode : Text → Option RawRepoConfig
sample_decode t = some sample_raw

abbrev pub empty_cache : RepoConfigCache
empty_cache = new_cache 10

nothing_fresh : fresh empty_cache (cache_key "o" "r") 100 ≡ none
unfolding fresh new_cache Assoc.lookup
nothing_fresh = refl

abbrev filled : RepoConfigCache
filled = (cache_get sample_decode empty_cache "o" "r" 100 (ok (codes "mode: both")) 101).1

cache_get_lifetime_example :
    ((t t' : ℕ) (again : Result Text Text)
      → t < 101 + empty_cache.ttl
      → cache_get sample_decode filled "o" "r" t again t'
        ≡ (ok (config_of sample_decode (codes "mode: both")), filled))
    × ((t t' : ℕ) (e : Text)
        → 101 + empty_cache.ttl ≤ t
        → cache_get sample_decode filled "o" "r" t (err e) t' ≡ (err e, filled))
cache_get_lifetime_example =
    cache_get_lifetime sample_decode empty_cache "o" "r" 100 101 (codes "mode: both") nothing_fresh
