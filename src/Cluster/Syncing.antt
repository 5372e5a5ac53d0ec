-- ===== src/Cluster/Syncing.antt =====
-- What a node of abi/src/clustering.rs takes over from another one.
use skylet.Prelude.{
  ◌≡◌, ◌⊎◌, refl, sym, ap, ◌∙◌, true, false, none, some, List, [], ◌∷◌, leb, arith, Bool-cases,
  Option-cases, inl, inr,
}
use skylet.Prelude.Lists.{All}
use skylet.Prelude.Texts.{Text, text_eq, text_eq_iff}
use skylet.Prelude.Dict
use skylet.Prelude.Dict.{Dict, lookup-insert}
use skylet.Cluster.{
  ClusterService, ServiceCluster, version_vector_dominates, detect_version_conflict_static,
  resolve_conflict_last_write_wins, sync_one, sync_from_remote_services, get_service,
}

-- A service of another name, or one whose vector dominates the local one or is dominated by it.
abbrev pub IsOrdered : ClusterService → ClusterService → Type 0
IsOrdered local remote =
    (text_eq remote.service_id local.service_id ≡ false)
    ⊎ ((version_vector_dominates remote.version_vector local.version_vector ≡ true)
        ⊎ (version_vector_dominates local.version_vector remote.version_vector ≡ true))

-- The services are stored under their names.
abbrev pub Named : Dict ClusterService → Type 0
Named services =
    (id : Text) (s : ClusterService) → Dict.lookup id services ≡ some s → s.service_id ≡ id

dominated-detect :
    (local remote : ClusterService)
    → (version_vector_dominates remote.version_vector local.version_vector ≡ true)
      ⊎ (version_vector_dominates local.version_vector remote.version_vector ≡ true)
    → detect_version_conflict_static local.version_vector remote.version_vector ≡ none
unfolding detect_version_conflict_static
dominated-detect local remote (inl h) = ground (arith, h)
dominated-detect local remote (inr h) = ground (arith, h)

resolve-service_id :
    (local remote : ClusterService)
    → local.service_id ≡ remote.service_id
    → (resolve_conflict_last_write_wins local remote).service_id ≡ remote.service_id
unfolding resolve_conflict_last_write_wins
resolve-service_id local remote h =
    elim (Bool-cases (leb local.registered_at remote.registered_at)) [
      | inl e ↦ rw e refl
      | inr e ↦ rw e h
    ]

-- Another name is not touched.
sync_one-other :
    (remote : ClusterService) (id : Text) (services : Dict ClusterService)
    → Named services
    → text_eq remote.service_id id ≡ false
    → Dict.lookup id (sync_one remote services) ≡ Dict.lookup id services
unfolding sync_one
sync_one-other remote id services named h =
    elim (Option-cases (Dict.lookup remote.service_id services)) [
      | inl n ↦
          rw (sync_one, n) (ground (arith, h, lookup-insert remote.service_id id remote services))
      | inr (local, e) ↦
          elim (Option-cases
            (detect_version_conflict_static local.version_vector remote.version_vector)) [
              | inl d ↦ rw (sync_one, e, d) refl
              | inr (both, d) ↦
                  let resolved = resolve_conflict_last_write_wins local remote in
                  let name = resolve-service_id local remote (named remote.service_id local e) in
                  rw (sync_one, e, d)
                    (lookup-insert resolved.service_id id resolved services
                      ∙ ground (arith, h, name))
            ]
    ]

insert-Named :
    (s : ClusterService) (services : Dict ClusterService)
    → Named services
    → Named (Dict.insert s.service_id s services)
insert-Named s services named id t h = elim (Bool-cases (text_eq s.service_id id)) [
  | inl e ↦
      ground (arith, e, h, text_eq_iff s.service_id id, lookup-insert s.service_id id s services)
  | inr e ↦ named id t (ground (arith, e, h, lookup-insert s.service_id id s services))
]

sync_one-Named :
    (remote : ClusterService) (services : Dict ClusterService)
    → Named services
    → Named (sync_one remote services)
unfolding sync_one
sync_one-Named remote services named =
    elim (Option-cases (Dict.lookup remote.service_id services)) [
      | inl n ↦ rw (sync_one, n) (insert-Named remote services named)
      | inr (local, e) ↦
          elim (Option-cases
            (detect_version_conflict_static local.version_vector remote.version_vector)) [
              | inl d ↦ rw (sync_one, e, d) named
              | inr (both, d) ↦
                  rw (sync_one, e, d)
                    (insert-Named (resolve_conflict_last_write_wins local remote) services named)
            ]
    ]

sync_one-keeps :
    (remote local : ClusterService) (services : Dict ClusterService)
    → Named services
    → IsOrdered local remote
    → Dict.lookup local.service_id services ≡ some local
    → Dict.lookup local.service_id (sync_one remote services) ≡ some local
unfolding sync_one
sync_one-keeps remote local services named (inl other) here =
    sync_one-other remote local.service_id services named other ∙ here
sync_one-keeps remote local services named (inr o) here =
    elim (Bool-cases (text_eq remote.service_id local.service_id)) [
      | inr other ↦ sync_one-other remote local.service_id services named other ∙ here
      | inl same ↦
          let known : Dict.lookup remote.service_id services ≡ some local =
            ap (λ id. Dict.lookup id services)
              ((text_eq_iff remote.service_id local.service_id).0 same)
            ∙ here in
          rw (sync_one, known, dominated-detect local remote o) here
    ]

-- In a registry that keeps services under their names, a service that a node knows stays as it is, whatever another node sends, if every service of its name
-- has a vector that dominates the local one or is dominated by it: a version that is newer by its vector
-- never arrives.
pub sync_from_remote_services-keeps :
    (remotes : List ClusterService) (local : ClusterService) (c : ServiceCluster)
    → Named c.services
    → All (IsOrdered local) remotes
    → get_service local.service_id c ≡ some local
    → get_service local.service_id (sync_from_remote_services remotes c) ≡ some local
unfolding sync_from_remote_services get_service
sync_from_remote_services-keeps [] local c named h here = here
sync_from_remote_services-keeps (remote ∷ remotes) local c named h here =
    sync_from_remote_services-keeps remotes local
      (record c { services = sync_one remote c.services }) (sync_one-Named remote c.services named)
      h.1 (sync_one-keeps remote local c.services named h.0 here)

-- A service in conflict that was registered no later is replaced.
taken :
    (remote local : ClusterService) (services : Dict ClusterService)
    → remote.service_id ≡ local.service_id
    → local.registered_at ≡ remote.registered_at
    → detect_version_conflict_static local.version_vector remote.version_vector
      ≡ some (local.version_vector, remote.version_vector)
    → Dict.lookup local.service_id services ≡ some local
    → Dict.lookup local.service_id (sync_one remote services) ≡ some remote
unfolding sync_one resolve_conflict_last_write_wins
taken remote local services same at conflict here =
    let known : Dict.lookup remote.service_id services ≡ some local =
      ap (λ id. Dict.lookup id services) same ∙ here in
    let wins : resolve_conflict_last_write_wins local remote ≡ remote = ground (arith, at) in
    rw (sync_one, known, conflict, wins)
      (ground (
        arith,
        (text_eq_iff remote.service_id local.service_id).1 same,
        lookup-insert remote.service_id local.service_id remote services,
      ))

-- Two nodes that registered a service in the same second, with vectors in conflict, exchange it: each
-- takes over the version of the other one, and they differ as before.
pub sync_from_remote_services-swaps :
    (a b : ClusterService) (c d : ServiceCluster)
    → a.service_id ≡ b.service_id
    → a.registered_at ≡ b.registered_at
    → detect_version_conflict_static a.version_vector b.version_vector
      ≡ some (a.version_vector, b.version_vector)
    → detect_version_conflict_static b.version_vector a.version_vector
      ≡ some (b.version_vector, a.version_vector)
    → get_service a.service_id c ≡ some a
    → get_service a.service_id d ≡ some b
    → (get_service a.service_id (sync_from_remote_services (b ∷ []) c) ≡ some b)
      × (get_service a.service_id (sync_from_remote_services (a ∷ []) d) ≡ some a)
unfolding sync_from_remote_services get_service
sync_from_remote_services-swaps a b c d same at conflict conflict' here there = (
  taken b a c.services (sym same) at conflict here,
  ap (λ id. Dict.lookup id (sync_one a d.services)) same
      ∙ taken a b d.services same (sym at) conflict'
          (ap (λ id. Dict.lookup id d.services) (sym same) ∙ there),
)
