-- ===== src/Examples/Plugins.antt =====
-- The loading of plugins (abi/src/lifecycle.rs, symbols.rs and abi_compat.rs) at sample values.
use skylet.Prelude.{
  ◌≡◌, ◌⊎◌, ◌↔◌, refl, true, false, not, ◌&&◌, ◌||◌, [], ◌∷◌, ltb, is_ok, ok, arith,
}
use skylet.Prelude.Texts.{Text, text_eq, codes, split}
use skylet.Version.Number.{print_u64, print_digits, parse_u64, parse_digits}
use skylet.Prelude.Dict
use skylet.AbiCompat.{new_abi, parse_abi, to_string_version, check_compatible}
use skylet.AbiCompat.Range.{parse_abi-to_string_version, AtLeast}
use skylet.Symbols.{
  FunctionSignature, SymbolRegistry, new_signature, new_symbol, new_symbols,
  register_expected_batch, is_complete, admit,
}
use skylet.Symbols.Completeness.{register_times, register_times-is_complete}
use skylet.Lifecycle.{
  LoadedPlugin, PluginLoadConfig, PluginLoadResult, Timings, default_config, load, load_result,
  with_memory_limits, with_max_memory_kb, abi_or_default,
}
use skylet.Lifecycle.Metrics.{validate_against_limits}
use skylet.Lifecycle.Loading.{load_iff, validate-load}

abbrev mail_plugin : LoadedPlugin
mail_plugin = record { name = codes "mail"; version = codes "0.3.1"; abi_version = codes "2.1.0" }

abbrev timings : Timings
timings = record { binary_ms = 12; symbols_ms = 3; abi_ms = 1; whole_ms = 17 }

abbrev limited : PluginLoadConfig
limited = with_memory_limits (with_max_memory_kb 32 default_config)

abbrev loaded : PluginLoadResult
loaded = load_result mail_plugin timings

abbrev init_signature : FunctionSignature
init_signature = new_signature (codes "plugin_init") (codes "PluginResultV2")

abbrev two_expected : SymbolRegistry
two_expected =
    register_expected_batch
      (init_signature ∷ new_signature (codes "plugin_shutdown") (codes "PluginResultV2") ∷ [])
      new_symbols

parse_abi-to_string_version_example : parse_abi (codes "2.1.40") ≡ ok (new_abi 2 1 40)
unfolding to_string_version print_u64 print_digits
parse_abi-to_string_version_example =
    parse_abi-to_string_version (new_abi 2 1 40)
      (record { major = ground arith; minor = ground arith; patch = ground arith })

load_iff_example : (is_ok (load default_config timings (ok mail_plugin)) ≡ true) ↔ (
    (true ≡ false)
    ⊎ (((abi_or_default mail_plugin.abi_version).major ≡ 2)
        × AtLeast (new_abi 2 0 0) (new_abi 2 0 0)))
load_iff_example = load_iff default_config timings mail_plugin

validate-load_example :
    is_ok (validate_against_limits limited loaded)
    ≡ not (
        (limited.enforce_memory_limits
          && (ltb 0 limited.max_memory_kb && ltb limited.max_memory_kb 64))
        || (ltb 0 limited.max_load_time_ms && ltb limited.max_load_time_ms timings.whole_ms))
unfolding load check_compatible parse_abi split parse_u64 parse_digits
validate-load_example = validate-load default_config limited timings (ok mail_plugin) loaded refl

register_times-is_complete_example :
    (is_complete
        (register_times 2 (new_symbol (codes "plugin_init") init_signature 4096) two_expected)
      ≡ true)
    × ((name : Text)
        → text_eq (codes "plugin_init") name ≡ false
        → Dict.lookup name
            (register_times 2
              (new_symbol (codes "plugin_init") init_signature 4096)
              two_expected).symbols
          ≡ Dict.lookup name two_expected.symbols)
unfolding admit Dict.lookup register_expected_batch Dict.insert text_eq
register_times-is_complete_example =
    register_times-is_complete 2 (new_symbol (codes "plugin_init") init_signature 4096) two_expected
      refl refl (ground arith)
