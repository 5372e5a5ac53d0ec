-- ===== src/Lifecycle/Metrics.antt =====
-- The measures that abi/src/lifecycle.rs takes of a loaded plugin, and the limits that it checks. The
-- measures in floating point are left out.
use Prim.Native.Nat.{max}
use skylet.Prelude.{
  ℕ, ◌*◌, ◌/◌, ◌%◌, Bool, ◌&&◌, Option, none, some, List, ltb, leb, if◌then◌else◌, Result, ok, err,
  u64_mod,
}
use skylet.Prelude.Lists.{find?}
use skylet.Lifecycle.{
  LifecycleStage, LifecycleError, PipelineStageResult, PluginLoadResult, PluginLoadConfig,
  binary_load, symbol_resolution, abi_compatibility, internal, memory_exceeded, time_exceeded,
  new_error, stage_eq,
}

pub record PerformanceMetrics : Type 0 where
  pub total_time_ms : ℕ
  pub binary_load_time_ms : ℕ
  pub symbol_resolution_time_ms : ℕ
  pub abi_check_time_ms : ℕ
  pub estimated_memory_kb : ℕ
  pub peak_memory_kb : ℕ
  pub symbol_count : ℕ

abbrev elapsed_or_zero : Option PipelineStageResult → ℕ
elapsed_or_zero none = 0
elapsed_or_zero (some s) = s.elapsed_ms

unfoldable pub stage_time : LifecycleStage → List PipelineStageResult → ℕ
stage_time stage stages = elapsed_or_zero (find? (λ s. stage_eq s.stage stage) stages)

unfoldable pub from_result : PluginLoadResult → PerformanceMetrics
unfolding stage_time
from_result result = record {
  total_time_ms = result.total_ms;
  binary_load_time_ms = stage_time binary_load result.stages;
  symbol_resolution_time_ms = stage_time symbol_resolution result.stages;
  abi_check_time_ms = stage_time abi_compatibility result.stages;
  estimated_memory_kb = max (result.symbol_count * 8 % u64_mod / 1024) 1;
  peak_memory_kb = max (result.symbol_count * 16 % u64_mod / 1024) 64;
  symbol_count = result.symbol_count;
}

unfoldable pub is_acceptable : ℕ → PerformanceMetrics → Bool
is_acceptable max_total_ms m = leb m.total_time_ms max_total_ms

unfoldable pub slowest_stage_ms : PerformanceMetrics → ℕ
slowest_stage_ms m = max (max m.binary_load_time_ms m.symbol_resolution_time_ms) m.abi_check_time_ms

unfoldable pub is_memory_acceptable : ℕ → PerformanceMetrics → Bool
is_memory_acceptable max_kb m = leb m.peak_memory_kb max_kb

unfoldable pub validate_against_limits :
    PluginLoadConfig → PluginLoadResult → Result (Unit {0}) LifecycleError
unfolding from_result
validate_against_limits c result =
    let peak = (from_result result).peak_memory_kb in
    if c.enforce_memory_limits && (ltb 0 c.max_memory_kb && ltb c.max_memory_kb peak)
    then err (new_error binary_load internal (memory_exceeded peak c.max_memory_kb))
    else if ltb 0 c.max_load_time_ms && ltb c.max_load_time_ms result.total_ms
    then err (new_error binary_load internal (time_exceeded result.total_ms c.max_load_time_ms))
    else ok tt
