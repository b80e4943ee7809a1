-- ===== src/Filters/Scope.antt =====
-- What a selection clause selects.
use bulk_action_platform.Prelude.{
  ℕ, ◌≡◌, refl, sym, ap, ◌∙◌, inl, inr, Bool, true, false, not, ◌&&◌, ◌||◌, Option, none, some,
  List, [], ◌∷◌, ◌++◌, arith, ◌==◌,
}
use bulk_action_platform.Values.{get, is_null}
use bulk_action_platform.Models.{Filter}
use bulk_action_platform.Errors.{ok, Result-cases}
use bulk_action_platform.Entities.{EntityDescriptor}
use bulk_action_platform.Filters.{
  Predicate, Row, Holds, matches, build_predicates, scope_predicates, selection_clause,
}

pub matches-append :
    (holds : Holds) (ps qs : List Predicate) (r : Row)
    → matches holds (ps ++ qs) r ≡ (matches holds ps r && matches holds qs r)
unfolding matches
matches-append holds [] qs r = refl
matches-append holds (p ∷ ps) qs r = ground (arith, matches-append holds ps qs r)

-- A row counts as deleted if the entity has a soft-delete column and it is not NULL there.
abbrev pub is_deleted : EntityDescriptor → Row → Bool
is_deleted e r = elim e.soft_delete_column [
  | none ↦ false
  | some c ↦ not (is_null (get r.values c))
]

matches-scope :
    (holds : Holds) (e : EntityDescriptor) (account : ℕ) (include_deleted : Bool) (r : Row)
    → matches holds (scope_predicates e account include_deleted) r
      ≡ ((r.account_id == account) && (include_deleted || not (is_deleted e r)))
unfolding scope_predicates matches
matches-scope holds e account include_deleted r = ground arith

-- Whatever the database makes of the comparisons, the selection clause of a filter that compiles
-- selects a row exactly if the row belongs to the account, is not soft-deleted (unless deleted rows
-- are asked for), and satisfies the compiled filter.
pub selection_clause_scope :
    (holds : Holds) (e : EntityDescriptor) (account : ℕ) (f : Option Filter)
    (include_deleted : Bool) (ps : List Predicate)
    → build_predicates e f ≡ ok ps
    → (ws : List Predicate) × (selection_clause e account f include_deleted ≡ ok ws)
      × ((r : Row)
          → matches holds ws r ≡ (
              (r.account_id == account)
              && (include_deleted || not (is_deleted e r))
              && matches holds ps r))
unfolding selection_clause
selection_clause_scope holds e account f include_deleted ps built = (
  scope_predicates e account include_deleted ++ ps,
  rw built,
  λ r.
      matches-append holds (scope_predicates e account include_deleted) ps r
      ∙ ap (λ (b : Bool). b && matches holds ps r)
          (matches-scope holds e account include_deleted r),
)

-- A row that a selection clause selects belongs to the account.
pub selection_clause-account :
    (holds : Holds) (e : EntityDescriptor) (account : ℕ) (f : Option Filter)
    (include_deleted : Bool) (ws : List Predicate) (r : Row)
    → selection_clause e account f include_deleted ≡ ok ws
    → matches holds ws r ≡ true
    → (r.account_id == account) ≡ true
unfolding selection_clause
selection_clause-account holds e account f include_deleted ws r compiled selected =
    elim (Result-cases (build_predicates e f)) [
      | inl (ps, built) ↦
          let (ws', compiled', exact) =
            selection_clause_scope holds e account f include_deleted ps built in
          let both : ok ws' ≡ ok ws = sym compiled' ∙ compiled in
          let same : ws' ≡ ws = cc in
          let chosen : matches holds ws' r ≡ true = rw same selected in
          ground (arith, exact r, chosen)
      | inr (x, refused) ↦ cc (rw refused at compiled)
    ]
