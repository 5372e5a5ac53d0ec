-- ===== src/Examples/Versions.antt =====
-- Versions and constraints (abi/src/dependencies/version.rs and constraints.rs) at sample values.
use skylet.Prelude.{◌≡◌, ◌↔◌, refl, true, false, some, none, [], ◌∷◌, arith, ok}
use skylet.Prelude.Texts.{codes, trim_end}
use skylet.Version.{
  numeric, alpha, Version, new_version, parse_version, print_version, base_version,
}
use skylet.Version.RoundTrip.{IsValid, parse_version-print_version}
use skylet.Constraint.{VersionConstraint, VersionReq, caret, greater_eq, matches_caret, version_lt}
use skylet.Constraint.Ranges.{caret_bound, matches_caret_iff}

-- 1.2.3-alpha.1
abbrev pub alpha_release : Version
alpha_release = record {
  major = 1;
  minor = 2;
  patch = 3;
  pre = some (record { identifiers = alpha (codes "alpha") ∷ numeric 1 ∷ [] });
  build = none;
}

-- 1.2.3-alpha.1+build.5
abbrev pub alpha_build : Version
alpha_build = record alpha_release { build = some (codes "build.5") }

abbrev pub release : Version
release = new_version 1 2 3

abbrev pub next_minor : Version
next_minor = new_version 1 3 0

alpha_build-IsValid : IsValid alpha_build
alpha_build-IsValid = record {
  major = ground arith;
  minor = ground arith;
  patch = ground arith;
  pre = ((λ e. ground arith), (((λ e. ground arith), refl, refl), (ground arith, tt)));
  build = ((λ e. ground arith), unfold trim_end in refl);
}

parse_version-print_version_example : parse_version (print_version alpha_build) ≡ ok alpha_build
parse_version-print_version_example = parse_version-print_version alpha_build alpha_build-IsValid

matches_caret_iff_example : (matches_caret release next_minor ≡ true) ↔ (
    (version_lt next_minor release ≡ false)
    × (version_lt (base_version next_minor) (caret_bound release) ≡ true))
matches_caret_iff_example = matches_caret_iff release next_minor

abbrev pub caret_release : VersionConstraint
caret_release = record { comparator = caret; version = release }

abbrev pub from_next_minor : VersionConstraint
from_next_minor = record { comparator = greater_eq; version = next_minor }

abbrev pub caret_req : VersionReq
caret_req = record { constraints = caret_release ∷ [] }
