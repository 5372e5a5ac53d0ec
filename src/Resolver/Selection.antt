-- ===== src/Resolver/Selection.antt =====
-- Which version `select_version` of abi/src/dependencies/resolver.rs picks.
use skylet.Prelude.{◌≡◌, refl, sym, ap, ◌∙◌, Bool, true, List, [], ◌∷◌, arith, ok, is_ok}
use skylet.Prelude.Sets.{is_some}
use skylet.Prelude.Lists.{any, filter, In, In-filter, filter-In}
use skylet.Version.{Version}
use skylet.Resolver.{
  ConflictRequirement, VersionConflict, ResolutionStrategy, DependencyResolver, newest, oldest,
  close_to_target, meets, is_satisfied_by, find_satisfying_version, choose, select_version,
  choose_or_fail,
}
use skylet.Resolver.Extremes.{IsExtreme, at_most, at_least, max_from_lem, min_from_lem}

-- What the strategy prefers.
abbrev pub prefers : ResolutionStrategy → Version → Version → Bool
prefers newest = at_most
prefers oldest = at_least
prefers close_to_target = at_most

choose_lem :
    (s : ResolutionStrategy) (v : Version) (vs : List Version)
    → IsExtreme (prefers s) (choose s v vs) (v ∷ vs)
unfolding choose
choose_lem newest v vs = max_from_lem v vs
choose_lem oldest v vs = min_from_lem v vs
choose_lem close_to_target v vs = max_from_lem v vs

-- What it means to have selected a version for some requirements: it is a candidate, it meets them,
-- and every candidate that meets them is no better by the strategy.
pub record IsSelection (r : DependencyResolver) (candidates : List Version)
    (reqs : List ConflictRequirement) (v : Version) : Type 0 where
  pub candidate : In v candidates
  pub met : meets reqs v ≡ true
  pub best : (w : Version) → In w candidates → meets reqs w ≡ true → prefers r.strategy w v ≡ true

of_filtered :
    (r : DependencyResolver) (candidates : List Version) (reqs : List ConflictRequirement)
    (v : Version)
    → IsExtreme (prefers r.strategy) v (filter (meets reqs) candidates)
    → IsSelection r candidates reqs v
of_filtered r candidates reqs v x =
    let (i, m) = In-filter (meets reqs) candidates x.member in
    record {
      candidate = i;
      met = m;
      best = λ w j k. x.bound w (filter-In (meets reqs) candidates j k);
    }

-- A version that `select_version` returns is a candidate that meets all requirements, and no
-- candidate that meets them is greater, for the strategies Newest and CloseToTarget, or less, for
-- Oldest.
pub select_version-IsSelection :
    (r : DependencyResolver) (candidates : List Version) (reqs : List ConflictRequirement)
    (v : Version)
    → select_version r candidates reqs ≡ ok v
    → IsSelection r candidates reqs v
unfolding select_version
select_version-IsSelection r [] reqs v h = ground arith
select_version-IsSelection r (c ∷ cs) reqs v h = go (filter (meets reqs) (c ∷ cs)) refl
  where
    is_chosen :
        (w : Version) (ws : List Version)
        → choose_or_fail r (c ∷ cs) reqs (w ∷ ws) ≡ ok v
        → v ≡ choose r.strategy w ws
    is_chosen w ws k = ground arith

    go : (l : List Version) → filter (meets reqs) (c ∷ cs) ≡ l → IsSelection r (c ∷ cs) reqs v
    go [] e = ground (arith, h, e)
    go (w ∷ ws) e = of_filtered r (c ∷ cs) reqs v (
        rw (e, is_chosen w ws (ap (choose_or_fail r (c ∷ cs) reqs) (sym e) ∙ h))
          (choose_lem r.strategy w ws))

-- `select_version` succeeds exactly when some candidate meets all requirements.
pub select_version-any :
    (r : DependencyResolver) (candidates : List Version) (reqs : List ConflictRequirement)
    → is_ok (select_version r candidates reqs) ≡ any (meets reqs) candidates
unfolding select_version
select_version-any r [] reqs = refl
select_version-any r (c ∷ cs) reqs = go (c ∷ cs)
  where
    go :
        (l : List Version)
        → is_ok (choose_or_fail r (c ∷ cs) reqs (filter (meets reqs) l)) ≡ any (meets reqs) l
    go [] = refl
    go (v ∷ l) = ground (arith, go l)

-- The first candidate that satisfies a conflict is found: there is none exactly when no candidate
-- meets all of its requirements.
pub find_satisfying_version-is_some :
    (c : VersionConflict) (candidates : List Version)
    → is_some (find_satisfying_version c candidates) ≡ any (meets c.requirements) candidates
unfolding find_satisfying_version is_satisfied_by
find_satisfying_version-is_some c [] = refl
find_satisfying_version-is_some c (v ∷ vs) = ground (arith, find_satisfying_version-is_some c vs)
