-- ===== src/Audit/Paging.antt =====
-- Limits and offsets of the queries of abi/src/audit.rs.
use skylet.Prelude.{
  ℕ, zero, suc, ◌+◌, ◌≡◌, refl, sym, ap, ◌∙◌, Option, some, List, [], ◌∷◌, ◌++◌, arith,
}
use skylet.Prelude.Lists.{filter}
use skylet.Audit.{
  AuditEvent, AuditLogFilter, InMemoryAuditLog, drop, take, read, filter_matches, new_filter,
  skip_offset,
}
use skylet.Audit.Retention.{drop-drop}
use skylet.Audit.Queries.{FilterLogic, query_complex, logic_matches}

take-nil : (n : ℕ) → take n [] ≡ []
take-nil zero = refl
take-nil (suc n) = refl

take-add : (k j : ℕ) (es : List AuditEvent) → take k es ++ take j (drop k es) ≡ take (k + j) es
take-add zero j es = ap (λ n. take n es) (omega arith)
take-add (suc k) j [] = take-nil j ∙ sym (take-nil (suc k + j))
take-add (suc k) j (e ∷ es) = ap (λ l. e ∷ l) (take-add k j es) ∙ ap (λ n. take n (e ∷ es)) shift
  where
    shift : suc (k + j) ≡ suc k + j
    shift = omega arith

-- Two pages that follow one another are the page of both sizes.
pub read_pages :
    (f : AuditLogFilter) (l : InMemoryAuditLog) (o k j : ℕ)
    → read (record f { offset = some o; limit = some k }) l
        ++ read (record f { offset = some (o + k); limit = some j }) l
      ≡ read (record f { offset = some o; limit = some (k + j) }) l
unfolding read
read_pages f l o k j =
    let es = filter (filter_matches f) l.events in
    unfold filter_matches in
    (ap (λ fs. take k (drop o es) ++ take j fs) (sym (drop-drop k o es)) ∙ take-add k j (drop o es))

filter_true : (es : List AuditEvent) → filter (filter_matches new_filter) es ≡ es
unfolding filter_matches
filter_true [] = refl
filter_true (e ∷ es) = ap (λ l. e ∷ l) (filter_true es)

take-take : (n : ℕ) (es : List AuditEvent) → take n (take n es) ≡ take n es
take-take zero es = refl
take-take (suc n) [] = refl
take-take (suc n) (e ∷ es) = ap (λ l. e ∷ l) (take-take n es)

-- A query with a limit looks at the first events of the log alone, as many as the limit: the events
-- behind them are never found, whether or not those in front match.
pub query_complex-limit :
    (logic : FilterLogic) (n : ℕ) (offset : Option ℕ) (l : InMemoryAuditLog)
    → query_complex logic (some n) offset l
      ≡ query_complex logic (some n) offset (record l { events = take n l.events })
unfolding query_complex read
query_complex-limit logic n offset l =
    ap (λ es. take n (skip_offset offset (filter (λ e. logic_matches e logic) es)))
      (ap (take n) (filter_true l.events)
        ∙ sym (take-take n l.events)
        ∙ ap (take n) (sym (filter_true (take n l.events))))
