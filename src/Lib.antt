-- ===== src/Lib.antt =====
-- A verification library for the Rust program skylet, a plugin platform: a shallow embedding of its
-- dependency management, its failover, its permissions, its approval workflow, its loading pipeline,
-- its audit trail, its sandbox, its memory and its cluster, with the theorems that make them correct.
--
-- The parts, and the code that each file models (paths from the root of the repository):
-- * Version and its children: abi/src/dependencies/version.rs. `parse_version`, `print_version`,
--   `cmp_version` and `eq_version` are `Version::parse`, `Display`, `Ord` and the derived `PartialEq`;
--   Version/Number is what the program uses of the standard library's decimal numbers.
-- * Constraint and its child: abi/src/dependencies/constraints.rs. `matches` is
--   `VersionConstraint::matches`, `req_matches` is `VersionReq::matches`.
-- * Graph and its children: abi/src/dependencies/graph.rs. The state is the record `DependencyGraph`
--   with the node map, the edge list and the reverse index, as in the source; `detect_cycles` and
--   `topological_sort` (Kahn's algorithm) are the methods of that name.
-- * Resolver and its children: abi/src/dependencies/resolver.rs. `resolve` sorts the graph, collects
--   the requirements of the edges, and selects a version for each plugin in that order. It uses
--   Version for the order of versions, Constraint for matching and Graph for the sort.
-- * Loading and its children: src/plugin_manager/dependency_resolver.rs. Manifests become a graph of
--   Graph, which `resolve_loading_order` sorts. Loading/Edges has the edges of that graph and
--   Loading/Registered what is known of the registered plugins.
-- * Failover and its children: src/plugin_manager/failover.rs. `CircuitBreaker` with
--   `record_success`, `record_failure` and `should_allow_request`, and `call_with_failover`.
--   Failover/Breaker and Failover/Recovery are about calls that do not overlap, Failover/Overlap is
--   about those that do.
-- * Authz and its children: permissions/src/types.rs and permissions/src/authz.rs. `has_permission`
--   with its cache, resource grants, and the audit log. Authz/Overlap lets the steps of calls
--   interleave.
-- * Policy and its children: abi/src/security_rfc/policy.rs, with the capability types of
--   abi/src/security_rfc/capabilities.rs. The requests for capabilities, their approval, denial,
--   revocation and expiry. Policy/Overlap has requests that overlap.
-- * AbiCompat and its child: abi/src/abi_compat.rs. `check_compatible` decides which loaders a plugin
--   runs under.
-- * Symbols and its child: abi/src/symbols.rs. `SymbolRegistry` with its two counters.
-- * Lifecycle and its children: abi/src/lifecycle.rs. `load` is `PluginLoader::load` behind the
--   platform's loader, and uses AbiCompat and Symbols; Lifecycle/Metrics has the limits,
--   Lifecycle/Recovery the recovery actions and the delays of retries.
-- * Audit and its children: abi/src/audit.rs. `InMemoryAuditLog` with `write`, `read`, `count` and
--   `purge_before`; Audit/Queries has the combined filters and the text search, Audit/Series the
--   aggregation, Audit/Signing the signatures, and Audit/Registry the names of the backends.
-- * Security and its children: abi/src/security.rs. Security/Sandbox has the policies that confine a
--   plugin, Security/Validation the validators of inputs, Security/Capacity the count of the loaded
--   plugins, Security/Roles what a role may do, Security/Credentials the `PluginAuthenticator`, and
--   Security/Renewal the rotation of its credentials.
-- * Enforcers and its children: abi/src/security_rfc/filesystem.rs and network.rs. `check_access` is
--   `FilesystemEnforcer::check_access`, `check_host` is `NetworkEnforcer::check_access`.
-- * Memory and its children: src/memory/mod.rs, arena.rs and pool.rs. `alloc` is a test (`has_room`)
--   and an addition (`commit`), between which Memory/Races lets other threads act.
--   Memory/Accounts keeps the allocations in use beside the arena, since `reset` forgets them and does not free them.
-- * Cluster and its children: abi/src/clustering.rs. The registry of a node, with the version vectors and
--   `sync_from_remote_services`; Cluster/Conflicts says when two vectors are in conflict.
-- * Prelude and its children: tests, lists, strings, dictionaries, sets and orders that the parts
--   share. Examples and its children: sample values, and the theorems at them.
--
-- Conventions. Strings are lists of Unicode scalar values (`Text`). A `HashMap<String, V>` is an
-- association list: the order of its entries stands for the order of iteration, which Rust leaves
-- open, and the theorems hold for each. Stateful methods are functions from the state to the new
-- state and the result. Methods that read a clock take the readings as arguments. A method that
-- takes several locks, or a lock and an atomic, is one function, which is what it does while no
-- other call overlaps it; a theorem about a sequence of such calls is about calls that do not
-- overlap. Calls that do overlap are modelled where a property of them is stated: there the steps
-- between which other threads may act are functions of their own, and interleavings are sequences of
-- them, in Failover/Overlap (`record_success` and `record_failure`), Authz/Overlap
-- (`has_permission`), Policy/Overlap (`request_approval`) and Memory/Races (`alloc`). Machine words
-- have 64 bits, and additions on them wrap around where the source does not test. Panics are `none`
-- (Authz/Audit, Audit/Series, Enforcers/Network).
--
-- Parameters. HMAC-SHA256 (Audit/Signing), the Unicode tables of `to_lowercase` (Audit/Queries and
-- Enforcers/Network) and of characters (Security/Validation), the values that a registry holds
-- (Audit/Registry), the result of the platform's loader (Lifecycle) and the pointers of the system's
-- allocator (Memory) are arguments. What the theorems assume of them stands among their hypotheses.
--
-- Bounds and fuel. `detect_cycles_dfs` recurses on fuel: one more than the number of names in the
-- graph is given, and each call visits one name more, so it suffices for every graph. `kahn` recurses
-- on fuel: the number of counters is given, and each plugin enters the queue once, so it suffices for
-- every graph that `add_plugin` built. `closure` gives the loop over `to_visit` as much fuel as there
-- are names to put on its queue. `None` of these functions also stands for a counter that would
-- fall below zero, and it does not occur on such graphs.
--
-- Not modelled: the FFI layer and the loading of plugins (raw pointers and dynamic libraries), ciphers
-- and key files, files, networks and processes, databases, the command line tools, numbers in floating
-- point (percentages, throughput), the second factors, the secrets provider and the notifications of
-- abi/src/security.rs, the backends and the replication of abi/src/audit.rs that do input or output,
-- the services (jobs, caches, routing, discovery), and the texts of error messages where
-- they are `Display` implementations.
pub mod AbiCompat
pub mod Audit
pub mod Authz
pub mod Cluster
pub mod Constraint
pub mod Enforcers
pub mod Examples
pub mod Failover
pub mod Graph
pub mod Lifecycle
pub mod Loading
pub mod Memory
pub mod Policy
pub mod Prelude
pub mod Resolver
pub mod Security
pub mod Symbols
pub mod Version
