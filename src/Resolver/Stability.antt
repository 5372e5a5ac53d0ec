-- ===== src/Resolver/Stability.antt =====
-- A resolver that does not include pre-releases (abi/src/dependencies/resolver.rs) never picks one.
use skylet.Prelude.{
  ◌≡◌, refl, sym, ap, ◌∙◌, true, false, Option, none, some, List, [], ◌∷◌, arith, Result, ok, err,
}
use skylet.Prelude.Lists.{In, In-filter}
use skylet.Prelude.Texts.{Text, contains}
use skylet.Prelude.Dict
use skylet.Prelude.Dict.{Dict, lookup-insert}
use skylet.Version.{Version, is_stable, is_prerelease}
use skylet.Graph.{PluginNode, DependencyGraph}
use skylet.Graph.Building.{IsWellFormed}
use skylet.Resolver.{
  ConflictRequirement, ResolvedPlugin, Resolved, ResolutionError, DependencyResolver,
  select_version, or_no_reqs, collect_requirements, candidates_of, store, resolve_plugin,
  resolve_all, unresolved, resolve, versions_or,
}
use skylet.Resolver.Resolution.{resolve_steps, resolve-IsResolved}
use skylet.Resolver.Selection.{select_version-IsSelection}

-- The candidates of a resolver without pre-releases are stable.
candidates_of-stable :
    (r : DependencyResolver) (a : Text) (node : PluginNode) (v : Version)
    → r.include_prerelease ≡ false
    → In v (candidates_of r a node)
    → is_stable v ≡ true
unfolding candidates_of
candidates_of-stable r a node v e i =
    (In-filter is_stable (versions_or (node.version ∷ []) (Dict.lookup a r.available))
      (rw e at i)).1

store_warnings :
    (a : Text) (reqs : List ConflictRequirement) (v : Version) (res : Resolved)
    → is_stable v ≡ true
    → (store a reqs v res).warnings ≡ res.warnings
unfolding store is_stable is_prerelease
store_warnings a reqs v res h = ground arith

resolve_plugin-no_warning :
    (r : DependencyResolver) (reqs : Dict (List ConflictRequirement)) (a : Text)
    (res res' : Resolved)
    → r.include_prerelease ≡ false
    → res.warnings ≡ []
    → resolve_plugin r reqs a res ≡ ok res'
    → res'.warnings ≡ []
unfolding resolve_plugin
resolve_plugin-no_warning r reqs a res res' e w h = go (Dict.lookup a res.graph.nodes) refl
  where
    chosen :
        (node : PluginNode) (s : Result Version ResolutionError)
        → Dict.lookup a res.graph.nodes ≡ some node
        → select_version r (candidates_of r a node) (or_no_reqs (Dict.lookup a reqs)) ≡ s
        → res'.warnings ≡ []
    chosen node (err x) n k = ground (arith, h, n, k)
    chosen node (ok v) n k =
        let candidates = candidates_of r a node in
        let q = or_no_reqs (Dict.lookup a reqs) in
        let stable =
          candidates_of-stable r a node v e
            (select_version-IsSelection r candidates q v k).candidate in
        let same : store a q v res ≡ res' = ground (arith, h, n, k) in
        ap (λ (x : Resolved). x.warnings) (sym same) ∙ store_warnings a q v res stable ∙ w

    go : (n : Option PluginNode) → Dict.lookup a res.graph.nodes ≡ n → res'.warnings ≡ []
    go none n = ground (arith, h, n)
    go (some node) n =
        chosen node (select_version r (candidates_of r a node) (or_no_reqs (Dict.lookup a reqs))) n
          refl

resolve_all-no_warning :
    (r : DependencyResolver) (reqs : Dict (List ConflictRequirement)) (order : List Text)
    (res res' : Resolved)
    → r.include_prerelease ≡ false
    → res.warnings ≡ []
    → resolve_all r reqs order res ≡ ok res'
    → res'.warnings ≡ []
unfolding resolve_all
resolve_all-no_warning r reqs [] res res' e w h = ground arith
resolve_all-no_warning r reqs (a ∷ order) res res' e w h =
    go (resolve_plugin r reqs a res) refl (λ mid k.
      resolve_all-no_warning r reqs order mid res' e
        (resolve_plugin-no_warning r reqs a res mid e w k))
  where
    go :
        (s : Result Resolved ResolutionError)
        → resolve_plugin r reqs a res ≡ s
        → ((mid : Resolved)
            → resolve_plugin r reqs a res ≡ ok mid
            → resolve_all r reqs order mid ≡ ok res'
            → res'.warnings ≡ [])
        → res'.warnings ≡ []
    go (err x) k rec = ground (arith, h, k)
    go (ok mid) k rec = rec mid k (ground (arith, h, k))

-- A resolver that does not include pre-releases resolves every plugin of a well-formed graph to a
-- stable version, and gives no warning.
pub resolve-stable :
    (r : DependencyResolver) (g : DependencyGraph) (res : Resolved) (a : Text) (p : ResolvedPlugin)
    → IsWellFormed g
    → r.include_prerelease ≡ false
    → resolve r g ≡ some (ok res)
    → contains a (Dict.keys g.nodes) ≡ true
    → Dict.lookup a res.plugins ≡ some p
    → (is_stable p.version ≡ true) × (res.warnings ≡ [])
resolve-stable r g res a p wf e h i found =
    let (order, sorted, done) = resolve_steps r g res h in
    let resolved = resolve-IsResolved r g res a wf h i in
    let same : resolved.plugin ≡ p = ground (arith, found, resolved.is_plugin) in
    (
      rw same at (
          candidates_of-stable r a resolved.node resolved.plugin.version e
            resolved.selection.candidate),
      resolve_all-no_warning r (collect_requirements g) order (unresolved g) res e refl done,
    )
