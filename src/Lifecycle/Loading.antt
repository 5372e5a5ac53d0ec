-- ===== src/Lifecycle/Loading.antt =====
-- What `load` of abi/src/lifecycle.rs returns, and how it meets the limits of the configuration.
use skylet.Prelude.{
  ◌≡◌, ◌↔◌, ◌⊎◌, refl, true, false, not, ◌&&◌, ◌||◌, none, is_ok, ok, err, arith, Result, ltb,
}
use skylet.Prelude.Lists.{length}
use skylet.AbiCompat.{new_abi}
use skylet.AbiCompat.Range.{AtLeast, check_compatible_iff}
use skylet.Lifecycle.{
  PluginLoadConfig, PluginLoadResult, Timings, LoadedPlugin, PlatformLoaderError, load,
  check_loaded, load_result, abi_or_default, load_symbol_count, failed_stage,
}
use skylet.Lifecycle.Metrics.{validate_against_limits}

-- A plugin that the platform's loader could load is accepted exactly when the interface is not
-- checked strictly, or the loader has the major version of the plugin and is no older than 2.0.0. A
-- version of the plugin that does not parse counts as 2.0.0.
pub load_iff :
    (c : PluginLoadConfig) (t : Timings) (p : LoadedPlugin)
    → (is_ok (load c t (ok p)) ≡ true) ↔ (
        (c.strict_abi_checking ≡ false)
        ⊎ (((abi_or_default p.abi_version).major ≡ c.loader_version.major)
            × AtLeast (new_abi 2 0 0) c.loader_version))
unfolding load check_loaded
load_iff c t p =
    ground
      (arith, check_compatible_iff (abi_or_default p.abi_version) (new_abi 2 0 0) c.loader_version)

load-ok :
    (c : PluginLoadConfig) (t : Timings) (l : Result LoadedPlugin PlatformLoaderError)
    (r : PluginLoadResult)
    → load c t l ≡ ok r
    → (p : LoadedPlugin) × (l ≡ ok p) × (r ≡ load_result p t)
unfolding load check_loaded
load-ok c t (err e) r h = ground arith
load-ok c t (ok p) r h = (p, refl, ground arith)

-- What is loaded reports three stages that all succeeded, the whole time, and no symbols: they are
-- counted among those that were resolved, and none is resolved when they are counted.
pub load-reports :
    (c : PluginLoadConfig) (t : Timings) (l : Result LoadedPlugin PlatformLoaderError)
    (r : PluginLoadResult)
    → load c t l ≡ ok r
    → (length r.stages ≡ 3)
      × (failed_stage r ≡ none)
      × (r.total_ms ≡ t.whole_ms)
      × (r.symbol_count ≡ 0)
unfolding failed_stage load_symbol_count
load-reports c t l r h =
    let (p, e, same) = load-ok c t l r h in
    rw same (refl, refl, refl, unfold load_symbol_count in refl)

-- Enforcing a memory limit on what was loaded does not depend on the plugin: it fails exactly where
-- the limit is positive and below 64 kilobytes, or the load took longer than a positive time limit.
pub validate-load :
    (c d : PluginLoadConfig) (t : Timings) (l : Result LoadedPlugin PlatformLoaderError)
    (r : PluginLoadResult)
    → load c t l ≡ ok r
    → is_ok (validate_against_limits d r)
      ≡ not (
          (d.enforce_memory_limits && (ltb 0 d.max_memory_kb && ltb d.max_memory_kb 64))
          || (ltb 0 d.max_load_time_ms && ltb d.max_load_time_ms t.whole_ms))
unfolding validate_against_limits
validate-load c d t l r h = let reports = load-reports c t l r h in ground (arith, reports)
