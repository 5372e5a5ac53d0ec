-- ===== src/Examples/Clusters.antt =====
-- The registry of a cluster (abi/src/clustering.rs) at sample values.
use skylet.Prelude.{
  ◌≡◌, ◌⊎◌, ◌↔◌, refl, sym, ap, ◌∙◌, true, some, [], ◌∷◌, inl, inr, arith, Bool-cases,
}
use skylet.Prelude.Texts.{codes, text_eq, text_eq_iff}
use skylet.Prelude.Dict
use skylet.Cluster.{
  ClusterService, ServiceCluster, VersionVector, new_service, new_cluster, eventual_consistency,
  get_service, detect_version_conflict_static, version_vector_dominates, sync_from_remote_services,
}
use skylet.Cluster.Vectors.{Exceeds, SameValues}
use skylet.Cluster.Conflicts.{ZeroEntry, detect_version_conflict_static_iff}
use skylet.Cluster.Syncing.{Named, sync_from_remote_services-keeps, sync_from_remote_services-swaps}

abbrev left_vector : VersionVector
left_vector = (codes "n1", 2) ∷ (codes "n2", 1) ∷ []

abbrev right_vector : VersionVector
right_vector = (codes "n1", 1) ∷ (codes "n2", 3) ∷ []

abbrev mail : VersionVector → ClusterService
mail v =
    record (new_service 100 (codes "mail") (codes "mail") (codes "1.0") (codes "n1") (codes "h")
      25) { version_vector = v }

abbrev node : VersionVector → ServiceCluster
node v = record (new_cluster (codes "n1") eventual_consistency 2) {
  services = (codes "mail", mail v) ∷ [];
}

detect_version_conflict_static_iff_example :
    (detect_version_conflict_static left_vector right_vector ≡ some (left_vector, right_vector)) ↔ (
      (Exceeds left_vector right_vector × Exceeds right_vector left_vector)
      ⊎ (SameValues left_vector right_vector
          × (ZeroEntry left_vector right_vector ⊎ ZeroEntry right_vector left_vector)))
unfolding text_eq
detect_version_conflict_static_iff_example =
    detect_version_conflict_static_iff left_vector right_vector (refl, (refl, tt))
      (refl, (refl, tt))

node_Named : Named (node left_vector).services
unfolding Dict.lookup
node_Named id s h = elim (Bool-cases (text_eq (codes "mail") id)) [
  | inl e ↦ ap (λ t. t.service_id) (sym (found e)) ∙ (text_eq_iff (codes "mail") id).0 e
  | inr e ↦ absurd (ground (arith, h, e))
]
  where
    found : text_eq (codes "mail") id ≡ true → mail left_vector ≡ s
    found e = ground (arith, h, e)

sync_from_remote_services-keeps_example :
    get_service (codes "mail") (
      sync_from_remote_services
        (mail ((codes "n1", 2) ∷ (codes "n2", 9) ∷ []) ∷ [])
        (node left_vector))
    ≡ some (mail left_vector)
unfolding version_vector_dominates Dict.lookup text_eq get_service
sync_from_remote_services-keeps_example =
    sync_from_remote_services-keeps (mail ((codes "n1", 2) ∷ (codes "n2", 9) ∷ []) ∷ [])
      (mail left_vector) (node left_vector) node_Named (inr (inl refl), tt) refl

sync_from_remote_services-swaps_example :
    (get_service
        (codes "mail")
        (sync_from_remote_services (mail right_vector ∷ []) (node left_vector))
      ≡ some (mail right_vector))
    × (get_service
          (codes "mail")
          (sync_from_remote_services (mail left_vector ∷ []) (node right_vector))
        ≡ some (mail left_vector))
unfolding detect_version_conflict_static Dict.lookup text_eq get_service
sync_from_remote_services-swaps_example =
    sync_from_remote_services-swaps (mail left_vector) (mail right_vector) (node left_vector)
      (node right_vector) refl refl refl refl refl refl
