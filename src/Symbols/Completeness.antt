-- ===== src/Symbols/Completeness.antt =====
-- What the validation of a signature in abi/src/symbols.rs accepts, and what `is_complete` counts.
use skylet.Prelude.{
  ℕ, zero, suc, ◌+◌, ◌≤◌, ◌≡◌, ◌↔◌, refl, ap, ◌∙◌, true, false, List, [], ◌∷◌, is_ok, arith,
}
use skylet.Prelude.Lists.{length}
use skylet.Prelude.Texts.{Text, text_eq, text_eq_iff}
use skylet.Prelude.Dict
use skylet.Prelude.Dict.{lookup-insert}
use skylet.Symbols.{
  FunctionSignature, ResolvedSymbol, SymbolRegistry, validate, validate_params, admit,
  register_resolved, is_complete, store_symbol,
}

validate_params_iff :
    (i : ℕ) (es fs : List Text)
    → length es ≡ length fs
    → (is_ok (validate_params i es fs) ≡ true) ↔ (es ≡ fs)
unfolding validate_params
validate_params_iff i [] [] h = ground arith
validate_params_iff i [] (f ∷ fs) h = ground arith
validate_params_iff i (e ∷ es) [] h = ground arith
validate_params_iff i (e ∷ es) (f ∷ fs) h =
    ground (arith, text_eq_iff e f, validate_params_iff (suc i) es fs (omega arith))

-- A signature is accepted exactly when its name, its return type and all of its parameters are the
-- expected ones.
pub validate_iff :
    (s other : FunctionSignature)
    → (is_ok (validate s other) ≡ true)
      ↔ ((s.name ≡ other.name) × (s.return_type ≡ other.return_type) × (s.params ≡ other.params))
unfolding validate
validate_iff s other = (
  λ h. ground (
    arith,
    text_eq_iff s.name other.name,
    text_eq_iff s.return_type other.return_type,
    validate_params_iff 0 s.params other.params,
  ),
  λ k. ground (
    arith,
    text_eq_iff s.name other.name,
    text_eq_iff s.return_type other.return_type,
    validate_params_iff 0 s.params other.params,
    ap (length {0}) k.2,
  ),
)

-- A symbol is registered `n` times more.
unfoldable pub register_times : ℕ → ResolvedSymbol → SymbolRegistry → SymbolRegistry
register_times zero symbol r = r
register_times (suc n) symbol r = register_times n symbol (register_resolved symbol r).0

record Registered (n : ℕ) (symbol : ResolvedSymbol) (r r' : SymbolRegistry) : Type 0 where
  count : r'.resolved_count ≡ r.resolved_count + n
  required : r'.required_count ≡ r.required_count
  expected : r'.expected_signatures ≡ r.expected_signatures
  others :
      (name : Text)
      → text_eq symbol.name name ≡ false
      → Dict.lookup name r'.symbols ≡ Dict.lookup name r.symbols

register_times-Registered :
    (n : ℕ) (symbol : ResolvedSymbol) (r : SymbolRegistry)
    → symbol.is_resolved ≡ true
    → is_ok (admit symbol (Dict.lookup symbol.name r.expected_signatures)) ≡ true
    → Registered n symbol r (register_times n symbol r)
unfolding register_times register_resolved
register_times-Registered zero symbol r h k = record {
  count = omega arith;
  required = refl;
  expected = refl;
  others = λ name e. refl;
}
register_times-Registered (suc n) symbol r h k =
    let r' = (register_resolved symbol r).0 in
    let stored : r' ≡ store_symbol symbol r = ground (arith, k) in
    let rest =
      register_times-Registered n symbol r' h
        (rw (ap (λ (x : SymbolRegistry). x.expected_signatures) stored) k) in
    record {
      count =
          omega (arith, rest.count, ap (λ (x : SymbolRegistry). x.resolved_count) stored, counted);
      required = rest.required ∙ ap (λ (x : SymbolRegistry). x.required_count) stored;
      expected = rest.expected ∙ ap (λ (x : SymbolRegistry). x.expected_signatures) stored;
      others = λ name e.
          rest.others name e
          ∙ ap (λ (x : SymbolRegistry). Dict.lookup name x.symbols) stored
          ∙ ground (arith, e, lookup-insert symbol.name name symbol r.symbols);
    }
  where
    counted : (store_symbol symbol r).resolved_count ≡ r.resolved_count + 1
    counted = ground (arith, h)

-- As many registrations of one admitted symbol as there are required symbols make the registry
-- complete, whatever else was resolved: all other symbols are as before.
pub register_times-is_complete :
    (n : ℕ) (symbol : ResolvedSymbol) (r : SymbolRegistry)
    → symbol.is_resolved ≡ true
    → is_ok (admit symbol (Dict.lookup symbol.name r.expected_signatures)) ≡ true
    → r.required_count ≤ n
    → (is_complete (register_times n symbol r) ≡ true)
      × ((name : Text)
          → text_eq symbol.name name ≡ false
          → Dict.lookup name (register_times n symbol r).symbols ≡ Dict.lookup name r.symbols)
unfolding is_complete
register_times-is_complete n symbol r h k le =
    let done = register_times-Registered n symbol r h k in
    (ground (arith, done.count, done.required, le), done.others)
