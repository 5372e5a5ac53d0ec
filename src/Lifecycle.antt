-- ===== src/Lifecycle.antt =====
-- abi/src/lifecycle.rs: the pipeline that loads a plugin, and what is done when a stage of it fails.
-- The platform's loader is not part of it: what it returns is an argument, and so are the elapsed
-- times. Messages are kept as the values that they print.
pub mod Metrics
pub mod Recovery
pub mod Loading
use skylet.Prelude.{
  ℕ, ◌+◌, ◌*◌, ◌%◌, ◌<◌, Bool, true, false, not, Option, none, some, List, [], ◌∷◌, ◌++◌, ◌==◌,
  if◌then◌else◌, Result, ok, err, is_ok, u64_mod,
}
use skylet.Prelude.Lists.{length, filter, find?}
use skylet.Prelude.Texts.{Text, codes}
use skylet.AbiCompat.{
  SemanticVersion, AbiVersionError, new_abi, parse_abi, new_compatibility, check_compatible,
}
use skylet.Symbols.{
  FunctionSignature, new_signature, optional, new_symbols, register_expected_batch, all_symbols,
}

pub data PluginLifecycleState : Type 0 where
  unloaded binary_loaded symbols_resolving abi_checking ready_for_init initialized error_state
        unloading_state unloaded_again :
      PluginLifecycleState

pub data LifecycleStage : Type 0 where
  binary_load symbol_resolution abi_compatibility initialization state_transfer unloading :
      LifecycleStage

-- The derived `PartialEq`: the same constructor, by its position.
abbrev pub stage_index : LifecycleStage → ℕ
stage_index binary_load = 0
stage_index symbol_resolution = 1
stage_index abi_compatibility = 2
stage_index initialization = 3
stage_index state_transfer = 4
stage_index unloading = 5

abbrev pub stage_eq : LifecycleStage → LifecycleStage → Bool
stage_eq a b = stage_index a == stage_index b

pub data LifecycleErrorType : Type 0 where
  binary_not_found binary_validation_failed symbol_resolution_failed abi_compatibility_failed
        initialization_failed already_loaded not_loaded state_serialization_failed
        state_deserialization_failed state_version_mismatch state_checksum_failed internal :
      LifecycleErrorType

-- What the platform's loader reports: two of its errors are told apart, the others are one.
pub data PlatformLoaderError : Type 0 where
  file_missing : Text → PlatformLoaderError
  file_invalid : Text → PlatformLoaderError
  other_failure : Text → PlatformLoaderError

pub data Message : Type 0 where
  of_loader : PlatformLoaderError → Message
  of_abi : AbiVersionError → Message
  memory_exceeded : ℕ → ℕ → Message
  time_exceeded : ℕ → ℕ → Message
  literal : Text → Message

pub record LifecycleError : Type 0 where
  pub stage : LifecycleStage
  pub error_type : LifecycleErrorType
  pub message : Message
  pub recoverable : Bool

abbrev pub new_error : LifecycleStage → LifecycleErrorType → Message → LifecycleError
new_error stage error_type message = record {
  stage = stage;
  error_type = error_type;
  message = message;
  recoverable = true;
}

abbrev pub unrecoverable : LifecycleError → LifecycleError
unrecoverable e = record e { recoverable = false }

pub data RecoveryAction : Type 0 where
  retry skip rollback abort : RecoveryAction

pub record RecoveryStrategy : Type 0 where
  pub max_retries : ℕ
  pub skip_optional_stages : Bool
  pub auto_rollback_on_critical : Bool
  pub default_recovery_action : RecoveryAction

abbrev pub new_recovery : RecoveryStrategy
new_recovery = record {
  max_retries = 3;
  skip_optional_stages = true;
  auto_rollback_on_critical = true;
  default_recovery_action = retry;
}

abbrev pub with_max_retries : ℕ → RecoveryStrategy → RecoveryStrategy
with_max_retries retries s = record s { max_retries = retries }

abbrev pub with_skip_optional_stages : Bool → RecoveryStrategy → RecoveryStrategy
with_skip_optional_stages b s = record s { skip_optional_stages = b }

abbrev pub with_auto_rollback : Bool → RecoveryStrategy → RecoveryStrategy
with_auto_rollback b s = record s { auto_rollback_on_critical = b }

pub record PluginLoadConfig : Type 0 where
  pub loader_version : SemanticVersion
  pub strict_abi_checking : Bool
  pub allow_missing_optional_symbols : Bool
  pub init_timeout_ms : ℕ
  pub auto_unload_on_error : Bool
  pub max_memory_kb : ℕ
  pub max_load_time_ms : ℕ
  pub enforce_memory_limits : Bool
  pub recovery_strategy : RecoveryStrategy

abbrev pub new_config : SemanticVersion → PluginLoadConfig
new_config loader_version = record {
  loader_version = loader_version;
  strict_abi_checking = true;
  allow_missing_optional_symbols = true;
  init_timeout_ms = 30000;
  auto_unload_on_error = true;
  max_memory_kb = 0;
  max_load_time_ms = 0;
  enforce_memory_limits = false;
  recovery_strategy = new_recovery;
}

abbrev pub default_config : PluginLoadConfig
default_config = new_config (new_abi 2 0 0)

abbrev pub allow_abi_mismatch : PluginLoadConfig → PluginLoadConfig
allow_abi_mismatch c = record c { strict_abi_checking = false }

abbrev pub with_init_timeout : ℕ → PluginLoadConfig → PluginLoadConfig
with_init_timeout ms c = record c { init_timeout_ms = ms }

abbrev pub with_max_memory_kb : ℕ → PluginLoadConfig → PluginLoadConfig
with_max_memory_kb kb c = record c { max_memory_kb = kb }

abbrev pub with_max_load_time_ms : ℕ → PluginLoadConfig → PluginLoadConfig
with_max_load_time_ms ms c = record c { max_load_time_ms = ms }

abbrev pub with_memory_limits : PluginLoadConfig → PluginLoadConfig
with_memory_limits c = record c { enforce_memory_limits = true }

abbrev pub with_recovery_strategy : RecoveryStrategy → PluginLoadConfig → PluginLoadConfig
with_recovery_strategy strategy c = record c { recovery_strategy = strategy }

pub record PipelineStageResult : Type 0 where
  pub stage : LifecycleStage
  pub success : Bool
  pub elapsed_ms : ℕ
  pub error : Option Message

-- A plugin as the loader hands it over, without its pointers.
pub record LoadedPlugin : Type 0 where
  pub name : Text
  pub version : Text
  pub abi_version : Text

-- The details say the plugin's name and versions and the symbol count, which stand in the result.
pub record PluginLoadResult : Type 0 where
  pub plugin_name : Text
  pub success : Bool
  pub stages : List PipelineStageResult
  pub total_ms : ℕ
  pub symbol_count : ℕ
  pub validated : LoadedPlugin

unfoldable pub failed_stage : PluginLoadResult → Option PipelineStageResult
failed_stage r = find? (λ s. not s.success) r.stages

-- The sum wraps around at 64 bits.
unfoldable pub sum_elapsed : List PipelineStageResult → ℕ
sum_elapsed [] = 0
sum_elapsed (s ∷ ss) = (s.elapsed_ms + sum_elapsed ss) % u64_mod

unfoldable pub successful_stages_time : PluginLoadResult → ℕ
unfolding sum_elapsed
successful_stages_time r = sum_elapsed (filter (λ s. s.success) r.stages)

abbrev pub passed : LifecycleStage → ℕ → PipelineStageResult
passed stage elapsed_ms = record {
  stage = stage;
  success = true;
  elapsed_ms = elapsed_ms;
  error = none;
}

-- The symbols that a plugin is expected to export.
abbrev pub expected_symbols : List FunctionSignature
expected_symbols =
    new_signature (codes "plugin_get_info") (codes "*const PluginInfoV2")
    ∷ new_signature (codes "plugin_init") (codes "PluginResultV2")
    ∷ new_signature (codes "plugin_shutdown") (codes "PluginResultV2")
    ∷ new_signature (codes "plugin_handle_request") (codes "PluginResultV2")
    ∷ optional (new_signature (codes "plugin_handle_event") (codes "PluginResultV2"))
    ∷ optional (new_signature (codes "plugin_health_check") (codes "HealthStatus"))
    ∷ optional (new_signature (codes "plugin_get_metrics") (codes "*const PluginMetrics"))
    ∷ []

-- The elapsed times of the three stages and of the whole.
pub record Timings : Type 0 where
  pub binary_ms : ℕ
  pub symbols_ms : ℕ
  pub abi_ms : ℕ
  pub whole_ms : ℕ

abbrev pub loader_error_type : PlatformLoaderError → LifecycleErrorType
loader_error_type (file_missing path) = binary_not_found
loader_error_type (file_invalid why) = binary_validation_failed
loader_error_type (other_failure why) = internal

abbrev pub abi_or_default : Text → SemanticVersion
abi_or_default s = elim (parse_abi s) [ ok v ↦ v | err _ ↦ new_abi 2 0 0 ]

unfoldable pub load_symbol_count : ℕ
unfolding all_symbols register_expected_batch
load_symbol_count = length (all_symbols (register_expected_batch expected_symbols new_symbols))

abbrev pub load_result : LoadedPlugin → Timings → PluginLoadResult
load_result p t = record {
  plugin_name = p.name;
  success = true;
  stages =
      passed binary_load t.binary_ms
      ∷ passed symbol_resolution t.symbols_ms
      ∷ passed abi_compatibility t.abi_ms
      ∷ [];
  total_ms = t.whole_ms;
  symbol_count = load_symbol_count;
  validated = p;
}

-- The stages behind the loading of the binary. Where an error is returned, the stage results that
-- were collected are dropped with it.
unfoldable pub check_loaded :
    PluginLoadConfig → Timings → LoadedPlugin → Result PluginLoadResult LifecycleError
check_loaded c t p =
    elim (check_compatible (new_compatibility (abi_or_default p.abi_version) (new_abi 2 0 0))
      c.loader_version) [
        | ok _ ↦ ok (load_result p t)
        | err e ↦
            if c.strict_abi_checking
            then err (new_error abi_compatibility abi_compatibility_failed (of_abi e))
            else ok (load_result p t)
      ]

unfoldable pub load :
    PluginLoadConfig
    → Timings
    → Result LoadedPlugin PlatformLoaderError
    → Result PluginLoadResult LifecycleError
unfolding check_loaded
load c t (ok p) = check_loaded c t p
load c t (err e) = err (unrecoverable (new_error binary_load (loader_error_type e) (of_loader e)))
