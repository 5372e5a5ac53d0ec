-- ===== src/Symbols.antt =====
-- abi/src/symbols.rs: the functions that a plugin must export, and the registry of those it does.
pub mod Completeness
use skylet.Prelude.{
  ℕ, suc, ◌+◌, Bool, true, false, not, ◌&&◌, ◌||◌, Option, none, some, List, [], ◌∷◌, ◌++◌, leb,
  ◌==◌, if◌then◌else◌, Result, ok, err, map,
}
use skylet.Prelude.Lists.{length, filter}
use skylet.Prelude.Texts.{Text, text_eq, codes, join}
use skylet.Prelude.Dict
use skylet.Prelude.Dict.{Dict}

pub record FunctionSignature : Type 0 where
  pub name : Text
  pub return_type : Text
  pub params : List Text
  pub is_optional : Bool

abbrev pub new_signature : Text → Text → FunctionSignature
new_signature name return_type = record {
  name = name;
  return_type = return_type;
  params = [];
  is_optional = false;
}

abbrev pub with_param : Text → FunctionSignature → FunctionSignature
with_param param_type s = record s { params = s.params ++ param_type ∷ [] }

abbrev pub optional : FunctionSignature → FunctionSignature
optional s = record s { is_optional = true }

unfoldable pub signature_string : FunctionSignature → Text
signature_string s =
    s.name ++ (codes "(" ++ (join (codes ", ") s.params ++ (codes ") -> " ++ s.return_type)))

pub data SignatureError : Type 0 where
  name_mismatch : Text → Text → SignatureError
  return_type_mismatch : Text → Text → SignatureError
  parameter_count_mismatch : ℕ → ℕ → SignatureError
  parameter_type_mismatch : ℕ → Text → Text → SignatureError

-- The loop over the pairs of parameters, from the index `i` on.
unfoldable pub validate_params : ℕ → List Text → List Text → Result (Unit {0}) SignatureError
validate_params i (expected ∷ es) (found ∷ fs) =
    if text_eq expected found
    then validate_params (suc i) es fs
    else err (parameter_type_mismatch i expected found)
validate_params i _ _ = ok tt

unfoldable pub validate : FunctionSignature → FunctionSignature → Result (Unit {0}) SignatureError
unfolding validate_params
validate s other =
    if not (text_eq s.name other.name)
    then err (name_mismatch s.name other.name)
    else if not (text_eq s.return_type other.return_type)
    then err (return_type_mismatch s.return_type other.return_type)
    else if not (length s.params == length other.params)
    then err (parameter_count_mismatch (length s.params) (length other.params))
    else validate_params 0 s.params other.params

pub record ResolvedSymbol : Type 0 where
  pub name : Text
  pub signature : FunctionSignature
  pub address : ℕ
  pub is_required : Bool
  pub is_resolved : Bool

abbrev pub new_symbol : Text → FunctionSignature → ℕ → ResolvedSymbol
new_symbol name signature address = record {
  name = name;
  signature = signature;
  address = address;
  is_required = true;
  is_resolved = true;
}

abbrev pub optional_symbol : ResolvedSymbol → ResolvedSymbol
optional_symbol s = record s { is_required = false }

abbrev pub unresolved : Text → FunctionSignature → ResolvedSymbol
unresolved name signature = record {
  name = name;
  signature = signature;
  address = 0;
  is_required = true;
  is_resolved = false;
}

pub record SymbolRegistry : Type 0 where
  pub symbols : Dict ResolvedSymbol
  pub expected_signatures : Dict FunctionSignature
  pub required_count : ℕ
  pub resolved_count : ℕ

abbrev pub new_symbols : SymbolRegistry
new_symbols = record {
  symbols = [];
  expected_signatures = [];
  required_count = 0;
  resolved_count = 0;
}

-- The message of a failed validation is kept as the error that it prints.
pub data SymbolRegistryError : Type 0 where
  signature_validation_failed : Text → SignatureError → SymbolRegistryError
  unexpected_symbol : Text → SymbolRegistryError

unfoldable pub register_expected : FunctionSignature → SymbolRegistry → SymbolRegistry
register_expected signature r = record r {
  required_count = if signature.is_optional then r.required_count else r.required_count + 1;
  expected_signatures = Dict.insert signature.name signature r.expected_signatures;
}

unfoldable pub register_expected_batch : List FunctionSignature → SymbolRegistry → SymbolRegistry
unfolding register_expected
register_expected_batch [] r = r
register_expected_batch (s ∷ ss) r = register_expected_batch ss (register_expected s r)

-- Whether a symbol may be registered.
unfoldable pub admit :
    ResolvedSymbol → Option FunctionSignature → Result (Unit {0}) SymbolRegistryError
unfolding validate
admit symbol none = if symbol.is_required then err (unexpected_symbol symbol.name) else ok tt
admit symbol (some expected) = elim (validate expected symbol.signature) [
  | ok _ ↦ ok tt
  | err e ↦ err (signature_validation_failed symbol.name e)
]

abbrev pub store_symbol : ResolvedSymbol → SymbolRegistry → SymbolRegistry
store_symbol symbol r = record r {
  resolved_count = if symbol.is_resolved then r.resolved_count + 1 else r.resolved_count;
  symbols = Dict.insert symbol.name symbol r.symbols;
}

-- The registry is as before where the registration fails.
unfoldable pub register_resolved :
    ResolvedSymbol → SymbolRegistry → SymbolRegistry × Result (Unit {0}) SymbolRegistryError
unfolding admit
register_resolved symbol r = elim (admit symbol (Dict.lookup symbol.name r.expected_signatures)) [
  | ok _ ↦ (store_symbol symbol r, ok tt)
  | err e ↦ (r, err e)
]

unfoldable pub is_complete : SymbolRegistry → Bool
is_complete r = leb r.required_count r.resolved_count

pub record SymbolResolutionStatus : Type 0 where
  pub total_expected : ℕ
  pub required_symbols : ℕ
  pub resolved_symbols : ℕ
  pub complete : Bool

unfoldable pub resolution_status : SymbolRegistry → SymbolResolutionStatus
unfolding is_complete
resolution_status r = record {
  total_expected = length r.expected_signatures;
  required_symbols = r.required_count;
  resolved_symbols = r.resolved_count;
  complete = is_complete r;
}

unfoldable pub all_symbols : SymbolRegistry → List ResolvedSymbol
all_symbols r = Dict.values r.symbols

abbrev pub lacks : Option ResolvedSymbol → Bool
lacks none = true
lacks (some s) = not s.is_resolved

abbrev pub is_absent : Option ResolvedSymbol → Bool
is_absent none = true
is_absent (some s) = false

unfoldable pub unresolved_symbols : SymbolRegistry → List Text
unresolved_symbols r =
    map (λ (s : FunctionSignature). s.name)
      (filter (λ s. not s.is_optional && lacks (Dict.lookup s.name r.symbols))
        (Dict.values r.expected_signatures))

unfoldable pub missing_symbols : SymbolRegistry → List Text
missing_symbols r =
    map (λ (s : FunctionSignature). s.name)
      (filter (λ s. not s.is_optional && is_absent (Dict.lookup s.name r.symbols))
        (Dict.values r.expected_signatures))
