-- ===== src/Security/Sandbox.antt =====
-- `PluginSandboxPolicy` and `SandboxEnforcer` of abi/src/security.rs.
use Prim.Native.Nat.{bit_and}
use skylet.Prelude.{
  ℕ, Bool, true, false, not, ◌||◌, Option, none, some, List, [], ◌∷◌, ltb, ◌==◌, if◌then◌else◌,
  Result, ok, err,
}
use skylet.Prelude.Lists.{any}
use skylet.Prelude.Texts.{Text, text_eq, codes, starts_with, has_text}
use skylet.Prelude.Dict
use skylet.Prelude.Dict.{Dict}
use skylet.Security.{SecurityError, input_too_long, pointer_validation_failed}

abbrev pub read_config : ℕ
read_config = 1

abbrev pub network_outbound : ℕ
network_outbound = 16

abbrev pub file_read : ℕ
file_read = 32

abbrev pub file_write : ℕ
file_write = 64

pub record PluginSandboxPolicy : Type 0 where
  pub plugin_id : Text
  pub allowed_capabilities : ℕ
  pub max_memory : ℕ
  pub max_cpu_time : ℕ
  pub max_bandwidth : ℕ
  pub allowed_paths : List Text
  pub allowed_ports : List ℕ
  pub allowed_env_vars : List Text
  pub allow_child_processes : Bool
  pub max_fds : ℕ
  pub use_seccomp : Bool

abbrev pub permissive : Text → PluginSandboxPolicy
permissive plugin_id = record {
  plugin_id = plugin_id;
  allowed_capabilities = 4294967295;
  max_memory = 2147483648;
  max_cpu_time = 300000;
  max_bandwidth = 104857600;
  allowed_paths = [];
  allowed_ports = [];
  allowed_env_vars = [];
  allow_child_processes = true;
  max_fds = 1024;
  use_seccomp = false;
}

abbrev pub restrictive : Text → PluginSandboxPolicy
restrictive plugin_id = record {
  plugin_id = plugin_id;
  allowed_capabilities = read_config;
  max_memory = 134217728;
  max_cpu_time = 5000;
  max_bandwidth = 1048576;
  allowed_paths = codes "/tmp" ∷ [];
  allowed_ports = [];
  allowed_env_vars = codes "PATH" ∷ codes "HOME" ∷ [];
  allow_child_processes = false;
  max_fds = 128;
  use_seccomp = true;
}

abbrev pub is_nil {ℓ} : {A : Type ℓ} → List A → Bool
is_nil [] = true
is_nil (x ∷ xs) = false

unfoldable pub has_capability : PluginSandboxPolicy → ℕ → Bool
has_capability p capability = not (bit_and p.allowed_capabilities capability == 0)

unfoldable pub can_access_path : PluginSandboxPolicy → Text → Bool
can_access_path p path =
    if is_nil p.allowed_paths
    then false
    else if has_text (codes "..") path || has_text (codes "./") path
    then false
    else any (λ allowed. starts_with allowed path) p.allowed_paths

unfoldable pub can_use_port : PluginSandboxPolicy → ℕ → Bool
can_use_port p port =
    if is_nil p.allowed_ports then false else any (λ allowed. port == allowed) p.allowed_ports

unfoldable pub can_access_env_var : PluginSandboxPolicy → Text → Bool
can_access_env_var p var =
    if is_nil p.allowed_env_vars then false else any (λ v. text_eq v var) p.allowed_env_vars

-- `SandboxEnforcer`: the policies by the ids of the plugins.
abbrev pub Policies : Type 0
Policies = Dict PluginSandboxPolicy

unfoldable pub register_policy : PluginSandboxPolicy → Policies → Policies
register_policy policy policies = Dict.insert policy.plugin_id policy policies

abbrev pub with_policy_of :
    Option PluginSandboxPolicy
    → (PluginSandboxPolicy → Result (Unit {0}) SecurityError)
    → Result (Unit {0}) SecurityError
with_policy_of none check = err pointer_validation_failed
with_policy_of (some p) check = check p

unfoldable pub file_check : Text → Bool → PluginSandboxPolicy → Result (Unit {0}) SecurityError
unfolding has_capability can_access_path
file_check path write p =
    if not (has_capability p (if write then file_write else file_read))
    then err pointer_validation_failed
    else if not (can_access_path p path)
    then err pointer_validation_failed
    else ok tt

unfoldable pub check_file_access : Text → Text → Bool → Policies → Result (Unit {0}) SecurityError
unfolding file_check
check_file_access plugin_id path write policies =
    with_policy_of (Dict.lookup plugin_id policies) (file_check path write)

unfoldable pub network_check : ℕ → PluginSandboxPolicy → Result (Unit {0}) SecurityError
unfolding has_capability can_use_port
network_check port p =
    if not (has_capability p network_outbound)
    then err pointer_validation_failed
    else if not (can_use_port p port)
    then err pointer_validation_failed
    else ok tt

-- The host is not looked at.
unfoldable pub check_network_access : Text → Text → ℕ → Policies → Result (Unit {0}) SecurityError
unfolding network_check
check_network_access plugin_id host port policies =
    with_policy_of (Dict.lookup plugin_id policies) (network_check port)

unfoldable pub check_memory_limit : Text → ℕ → Policies → Result (Unit {0}) SecurityError
check_memory_limit plugin_id requested_bytes policies =
    with_policy_of (Dict.lookup plugin_id policies)
      (λ p. if ltb p.max_memory requested_bytes then err input_too_long else ok tt)
