-- ===== src/Constraint/Ranges.antt =====
-- What the matching of abi/src/dependencies/constraints.rs accepts, as half-open ranges.
use skylet.Prelude.{
  ◌+◌, ◌≡◌, refl, ◌↔◌, ◌≢◌, true, false, not, ◌&&◌, List, [], ◌∷◌, arith, ltb, if◌then◌else◌,
}
use skylet.Prelude.Lists.{All, all_iff, all-append}
use skylet.Version.{Version, cmp_version, base_version, new_version}
use skylet.Version.Order.{cmp_version_flips}
use skylet.Constraint.{
  VersionConstraint, VersionReq, version_lt, version_le, matches_caret, matches_tilde, matches,
  req_matches, with_constraint,
}

-- The first release that `^c` excludes.
pub caret_bound : Version → Version
caret_bound c =
    if ltb 0 c.major
    then new_version (c.major + 1) 0 0
    else if ltb 0 c.minor
    then new_version 0 (c.minor + 1) 0
    else new_version 0 0 (c.patch + 1)

-- The first release that `~c` excludes.
pub tilde_bound : Version → Version
tilde_bound c = new_version c.major (c.minor + 1) 0

-- `^c` accepts exactly the versions from `c` on whose release comes before the bound: the next
-- version in the leftmost part of `c` that is not zero.
pub matches_caret_iff :
    (c v : Version)
    → (matches_caret c v ≡ true)
      ↔ ((version_lt v c ≡ false) × (version_lt (base_version v) (caret_bound c) ≡ true))
unfolding matches_caret version_lt base_version caret_bound cmp_version
matches_caret_iff c v = ground arith

-- `~c` accepts exactly the versions from `c` on whose release comes before the next minor version.
pub matches_tilde_iff :
    (c v : Version)
    → (matches_tilde c v ≡ true)
      ↔ ((version_lt v c ≡ false) × (version_lt (base_version v) (tilde_bound c) ≡ true))
unfolding matches_tilde version_lt base_version tilde_bound cmp_version
matches_tilde_iff c v = ground arith

-- Whatever `~c` accepts, `^c` accepts too, unless `c` is a version 0.0.z.
pub matches_caret-of_tilde :
    (c v : Version) → c.major + c.minor ≢ 0 → matches_tilde c v ≡ true → matches_caret c v ≡ true
unfolding matches_caret matches_tilde
matches_caret-of_tilde c v parts h = ground arith

-- `a < b` is the negation of `b <= a`.
pub version_lt-eq-not_le : (a b : Version) → version_lt a b ≡ not (version_le b a)
unfolding version_lt version_le
version_lt-eq-not_le a b = ground (arith, cmp_version_flips a b)

-- A version meets a requirement exactly when it meets each of its constraints.
pub req_matches_iff :
    (r : VersionReq) (v : Version)
    → (req_matches r v ≡ true) ↔ All (λ c. matches c v ≡ true) r.constraints
req_matches_iff r v = go r.constraints
  where
    go :
        (cs : List VersionConstraint)
        → (req_matches (record { constraints = cs }) v ≡ true) ↔ All (λ c. matches c v ≡ true) cs
    go [] = unfold req_matches in ((λ h. tt), (λ h. refl))
    go (c ∷ cs) = unfold req_matches in all_iff (λ d. matches d v) (c ∷ cs)

-- One more constraint narrows a requirement to the versions that meet both.
pub req_matches-with_constraint :
    (r : VersionReq) (c : VersionConstraint) (v : Version)
    → req_matches (with_constraint r c) v ≡ (req_matches r v && matches c v)
unfolding req_matches with_constraint
req_matches-with_constraint r c v =
    ground (arith, all-append (λ d. matches d v) r.constraints (c ∷ []))
