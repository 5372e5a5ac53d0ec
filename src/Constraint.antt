-- ===== src/Constraint.antt =====
-- abi/src/dependencies/constraints.rs: version constraints and requirements.
pub mod Ranges
use skylet.Prelude.{
  ℕ, ◌≡◌, Bool, true, false, ◌&&◌, ◌||◌, not, Option, none, some, List, [], ◌∷◌, ◌++◌, map,
  Ordering, ltb, ◌==◌, if◌then◌else◌, Result, ok, err, ◌>>=◌, map_err,
}
use skylet.Prelude.Lists.{all}
use skylet.Prelude.Texts.{
  Text, codes, text_eq, trim, trim_start, split, join, strip_prefix, ends_with,
}
use skylet.Version.{
  Version, VersionError, new_version, parse_version, print_version, cmp_version, eq_version,
}

pub data Comparator : Type 0 where
  exact greater greater_eq less less_eq caret tilde wildcard : Comparator

pub record VersionConstraint : Type 0 where
  pub comparator : Comparator
  pub version : Version

pub record VersionReq : Type 0 where
  pub constraints : List VersionConstraint

pub data ConstraintError : Type 0 where
  empty_input : ConstraintError
  invalid_format : (input reason : Text) → ConstraintError
  invalid_version : (input : Text) (source : VersionError) → ConstraintError
  conflicting_constraints : Text → ConstraintError

-- The operators that Rust derives from `cmp`: `a < b` and `b <= a`.
unfoldable pub version_lt : Version → Version → Bool
version_lt a b = elim (cmp_version a b) [ Ordering.lt ↦ true | _ ↦ false ]

unfoldable pub version_le : Version → Version → Bool
version_le a b = elim (cmp_version a b) [ Ordering.gt ↦ false | _ ↦ true ]

-- `matches_caret`
unfoldable pub matches_caret : Version → Version → Bool
matches_caret c v =
    if version_lt v c
    then false
    else if ltb 0 c.major
    then v.major == c.major
    else if ltb 0 c.minor
    then (v.major == 0) && (v.minor == c.minor)
    else (v.major == 0) && (v.minor == 0) && (v.patch == c.patch)

-- `matches_tilde`
unfoldable pub matches_tilde : Version → Version → Bool
matches_tilde c v = if version_lt v c then false else (v.major == c.major) && (v.minor == c.minor)

-- `matches_wildcard`
unfoldable pub matches_wildcard : Version → Version → Bool
matches_wildcard c v =
    if (c.major == 0) && (c.minor == 0) && (c.patch == 0)
    then true
    else if (c.minor == 0) && (c.patch == 0)
    then v.major == c.major
    else if c.patch == 0
    then (v.major == c.major) && (v.minor == c.minor)
    else version_le c v

abbrev matches_by : Comparator → Version → Version → Bool
matches_by exact c v = eq_version v c
matches_by greater c v = version_lt c v
matches_by greater_eq c v = version_le c v
matches_by less c v = version_lt v c
matches_by less_eq c v = version_le v c
matches_by caret c v = matches_caret c v
matches_by tilde c v = matches_tilde c v
matches_by wildcard c v = matches_wildcard c v

-- `VersionConstraint::matches`
unfoldable pub matches : VersionConstraint → Version → Bool
unfolding matches_caret matches_tilde matches_wildcard version_lt version_le cmp_version eq_version
matches c v = matches_by c.comparator c.version v

-- `VersionReq::matches`
unfoldable pub req_matches : VersionReq → Version → Bool
req_matches r v = elim r.constraints [ [] ↦ true | c ∷ cs ↦ all (λ d. matches d v) (c ∷ cs) ]

abbrev first_operator : List (Text × Comparator) → Text → Option (Comparator × Text)
first_operator [] s = none
first_operator ((p, c) ∷ ops) s = elim (strip_prefix p s) [
  | none ↦ first_operator ops s
  | some rest ↦ some (c, trim rest)
]

-- The operators in the order of the tests: those of two characters come first.
abbrev operators : List (Text × Comparator)
operators =
    (codes ">=", greater_eq)
    ∷ (codes "<=", less_eq)
    ∷ (codes "^", caret)
    ∷ (codes "~", tilde)
    ∷ (codes "=", exact)
    ∷ (codes ">", greater)
    ∷ (codes "<", less)
    ∷ []

-- `parse_comparator`: no operator means caret.
unfoldable pub parse_comparator : Text → Comparator × Text
unfolding strip_prefix trim
parse_comparator input =
    let s = trim_start input in elim (first_operator operators s) [ none ↦ (caret, s) | some r ↦ r ]

-- `VersionConstraint::parse`
unfoldable pub parse_constraint : Text → Result VersionConstraint ConstraintError
unfolding trim text_eq parse_comparator parse_version ends_with
parse_constraint input0 =
    let input = trim input0 in
    if text_eq input []
    then err empty_input
    else if text_eq input (codes "*")
    then ok (record { comparator = wildcard; version = new_version 0 0 0 })
    else do
      let parts = parse_comparator input
      version ← map_err (invalid_version input) (parse_version parts.1)
      ok (record {
        comparator = if ends_with parts.1 (codes ".*") then wildcard else parts.0;
        version = version;
      })

-- The loop over the parts between commas; empty parts are skipped.
unfoldable pub parse_parts : List Text → Result (List VersionConstraint) ConstraintError
unfolding trim text_eq parse_constraint
parse_parts [] = ok []
parse_parts (p ∷ ps) =
    let rest = parse_parts ps in
    let part = trim p in
    if text_eq part [] then rest else do c ← parse_constraint part; cs ← rest; ok (c ∷ cs)

-- `VersionReq::any`, the requirement of no constraint.
abbrev pub any_req : VersionReq
any_req = record { constraints = [] }

-- `VersionReq::parse`
unfoldable pub parse_req : Text → Result VersionReq ConstraintError
unfolding trim text_eq split parse_parts
parse_req input0 =
    let input = trim input0 in
    if text_eq input [] || text_eq input (codes "*")
    then ok any_req
    else do cs ← parse_parts (split 44 input); ok (record { constraints = cs })

unfoldable pub is_any : VersionReq → Bool
is_any r = elim r.constraints [ [] ↦ true | _ ∷ _ ↦ false ]

-- `VersionReq::with_constraint`
unfoldable pub with_constraint : VersionReq → VersionConstraint → VersionReq
with_constraint r c = record { constraints = r.constraints ++ c ∷ [] }

abbrev operator : Comparator → Text
operator exact = codes "="
operator greater = codes ">"
operator greater_eq = codes ">="
operator less = codes "<"
operator less_eq = codes "<="
operator caret = codes "^"
operator tilde = codes "~"
operator wildcard = codes "*"

-- `Display`
unfoldable pub print_constraint : VersionConstraint → Text
unfolding print_version
print_constraint c = operator c.comparator ++ print_version c.version

unfoldable pub print_req : VersionReq → Text
unfolding join print_constraint
print_req r = elim r.constraints [
  | [] ↦ codes "*"
  | c ∷ cs ↦ join (codes ", ") (map print_constraint (c ∷ cs))
]
