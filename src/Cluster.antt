-- ===== src/Cluster.antt =====
-- abi/src/clustering.rs: the registry of services that the nodes of a cluster share. Clock readings are
-- arguments; each operation holds the locks that it takes until its end.
pub mod Vectors
pub mod Conflicts
pub mod Syncing
use skylet.Prelude.{
  ℕ, ◌+◌, ◌-◌, ◌%◌, Bool, true, false, not, ◌&&◌, ◌||◌, Option, none, some, List, [], ◌∷◌, ◌++◌,
  ltb, leb, ◌==◌, if◌then◌else◌, u64_mod,
}
use skylet.Prelude.Lists.{length, filter, all}
use skylet.Prelude.Texts.{Text, text_eq}
use skylet.Prelude.Dict
use skylet.Prelude.Dict.{Dict}

pub data HealthStatus : Type 0 where
  healthy unhealthy unknown : HealthStatus

abbrev pub is_healthy : HealthStatus → Bool
is_healthy healthy = true
is_healthy _ = false

pub record ServiceNode : Type 0 where
  pub node_id : Text
  pub address : Text
  pub port : ℕ
  pub health_status : HealthStatus
  pub last_heartbeat : ℕ
  pub replication_lag_ms : ℕ

abbrev pub new_node : ℕ → Text → Text → ℕ → ServiceNode
new_node now node_id address port = record {
  node_id = node_id;
  address = address;
  port = port;
  health_status = unknown;
  last_heartbeat = now;
  replication_lag_ms = 0;
}

unfoldable pub update_heartbeat : ℕ → ServiceNode → ServiceNode
update_heartbeat now n = record n { last_heartbeat = now; health_status = healthy }

-- The difference wraps around where the heartbeat is ahead of the clock.
unfoldable pub is_timed_out : ℕ → ℕ → ServiceNode → Bool
is_timed_out now timeout_secs n = ltb timeout_secs ((now + (u64_mod - n.last_heartbeat)) % u64_mod)

abbrev pub VersionVector : Type 0
VersionVector = Dict ℕ

pub record ClusterService : Type 0 where
  pub service_id : Text
  pub name : Text
  pub version : Text
  pub node_id : Text
  pub address : Text
  pub port : ℕ
  pub metadata : Dict Text
  pub registered_at : ℕ
  pub version_vector : VersionVector

abbrev pub new_service : ℕ → Text → Text → Text → Text → Text → ℕ → ClusterService
new_service now service_id name version node_id address port = record {
  service_id = service_id;
  name = name;
  version = version;
  node_id = node_id;
  address = address;
  port = port;
  metadata = [];
  registered_at = now;
  version_vector = [];
}

unfoldable pub service_metadata : Text → Text → ClusterService → ClusterService
service_metadata key value s = record s { metadata = Dict.insert key value s.metadata }

pub data ConsensusType : Type 0 where
  raft eventual_consistency : ConsensusType

pub record ServiceCluster : Type 0 where
  pub local_node_id : Text
  pub nodes : Dict ServiceNode
  pub services : Dict ClusterService
  pub quorum_size : ℕ
  pub consensus_type : ConsensusType
  pub health_check_timeout_secs : ℕ

abbrev pub new_cluster : Text → ConsensusType → ℕ → ServiceCluster
new_cluster local_node_id consensus_type quorum_size = record {
  local_node_id = local_node_id;
  nodes = [];
  services = [];
  quorum_size = quorum_size;
  consensus_type = consensus_type;
  health_check_timeout_secs = 30;
}

unfoldable pub add_node : ServiceNode → ServiceCluster → ServiceCluster
add_node node c = record c { nodes = Dict.insert node.node_id node c.nodes }

unfoldable pub register_shared : ClusterService → ServiceCluster → ServiceCluster
register_shared service c = record c {
  services = Dict.insert service.service_id service c.services;
}

unfoldable pub deregister_shared : Text → ServiceCluster → ServiceCluster
deregister_shared service_id c = record c { services = Dict.remove service_id c.services }

unfoldable pub discover_services : Text → ServiceCluster → List ClusterService
discover_services name c = filter (λ s. text_eq s.name name) (Dict.values c.services)

unfoldable pub get_service : Text → ServiceCluster → Option ClusterService
get_service service_id c = Dict.lookup service_id c.services

unfoldable pub list_services : ServiceCluster → List ClusterService
list_services c = Dict.values c.services

abbrev pub checked_node : ℕ → ℕ → ServiceNode → ServiceNode
checked_node now timeout_secs n =
    if is_timed_out now timeout_secs n then record n { health_status = unhealthy } else n

-- The loop over the values.
abbrev pub checked_nodes : ℕ → ℕ → Dict ServiceNode → Dict ServiceNode
checked_nodes now timeout_secs [] = []
checked_nodes now timeout_secs ((id, n) ∷ ns) =
    (id, checked_node now timeout_secs n) ∷ checked_nodes now timeout_secs ns

unfoldable pub health_check : ℕ → ServiceCluster → ServiceCluster
unfolding is_timed_out
health_check now c = record c { nodes = checked_nodes now c.health_check_timeout_secs c.nodes }

unfoldable pub get_healthy_nodes : ServiceCluster → List ServiceNode
get_healthy_nodes c = filter (λ n. is_healthy n.health_status) (Dict.values c.nodes)

pub record ClusterStatus : Type 0 where
  pub total_nodes : ℕ
  pub healthy_nodes : ℕ
  pub total_services : ℕ
  pub consensus : ConsensusType

unfoldable pub get_cluster_status : ServiceCluster → ClusterStatus
get_cluster_status c = record {
  total_nodes = length c.nodes;
  healthy_nodes = length (filter (λ n. is_healthy n.health_status) (Dict.values c.nodes));
  total_services = length c.services;
  consensus = c.consensus_type;
}

-- `get(key).copied().unwrap_or(0)`.
abbrev pub value_at : Text → VersionVector → ℕ
value_at k v = elim (Dict.lookup k v) [ none ↦ 0 | some n ↦ n ]

-- The loop over the keys.
unfoldable pub dominates_on : List Text → VersionVector → VersionVector → Bool → Bool
dominates_on [] a b strictly_greater = strictly_greater
dominates_on (k ∷ ks) a b strictly_greater =
    if ltb (value_at k a) (value_at k b)
    then false
    else dominates_on ks a b (strictly_greater || ltb (value_at k b) (value_at k a))

unfoldable pub version_vector_dominates : VersionVector → VersionVector → Bool
unfolding dominates_on
version_vector_dominates a b = dominates_on (Dict.keys a ++ Dict.keys b) a b false

abbrev pub has_value : ℕ → Option ℕ → Bool
has_value n none = false
has_value n (some m) = n == m

-- The equality of two maps.
unfoldable pub eq_vector : VersionVector → VersionVector → Bool
eq_vector a b =
    (length a == length b) && all (λ (kv : Text × ℕ). has_value kv.1 (Dict.lookup kv.0 b)) a

unfoldable pub detect_version_conflict_static :
    VersionVector → VersionVector → Option (VersionVector × VersionVector)
unfolding version_vector_dominates eq_vector
detect_version_conflict_static local remote =
    if not (version_vector_dominates local remote)
      && (not (version_vector_dominates remote local) && not (eq_vector local remote))
    then some (local, remote)
    else none

pub record ServiceConflict : Type 0 where
  pub conflict_id : Text
  pub vector_a : VersionVector
  pub vector_b : VersionVector

unfoldable pub detect_version_conflict : ClusterService → ServiceCluster → Option ServiceConflict
unfolding detect_version_conflict_static
detect_version_conflict remote c = elim (Dict.lookup remote.service_id c.services) [
  | none ↦ none
  | some local ↦ elim (detect_version_conflict_static local.version_vector remote.version_vector) [
    | none ↦ none
    | some (a, b) ↦ some (record { conflict_id = remote.service_id; vector_a = a; vector_b = b })
  ]
]

unfoldable pub resolve_conflict_last_write_wins : ClusterService → ClusterService → ClusterService
resolve_conflict_last_write_wins local remote =
    if leb local.registered_at remote.registered_at then remote else local

-- One service of a remote node.
unfoldable pub sync_one : ClusterService → Dict ClusterService → Dict ClusterService
unfolding detect_version_conflict_static resolve_conflict_last_write_wins
sync_one remote services = elim (Dict.lookup remote.service_id services) [
  | none ↦ Dict.insert remote.service_id remote services
  | some local ↦ elim (detect_version_conflict_static local.version_vector remote.version_vector) [
    | none ↦ services
    | some _ ↦
        let resolved = resolve_conflict_last_write_wins local remote in
        Dict.insert resolved.service_id resolved services
  ]
]

unfoldable pub sync_all : List ClusterService → Dict ClusterService → Dict ClusterService
unfolding sync_one
sync_all [] services = services
sync_all (remote ∷ remotes) services = sync_all remotes (sync_one remote services)

unfoldable pub sync_from_remote_services : List ClusterService → ServiceCluster → ServiceCluster
unfolding sync_all
sync_from_remote_services remotes c = record c { services = sync_all remotes c.services }
