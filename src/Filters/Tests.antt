-- ===== src/Filters/Tests.antt =====
-- Filters of the contact entity.
use bulk_action_platform.Prelude.{
  ◌≡◌, refl, Bool, false, not, ◌&&◌, ◌||◌, ◌==◌, some, List, [], ◌∷◌,
}
use bulk_action_platform.Values.{Value, num, mem_name}
use bulk_action_platform.Models.{Filter, Operand, one, many, operators}
use bulk_action_platform.Errors.{ok}
use bulk_action_platform.Entities.{contact_entity, filterable_fields}
use bulk_action_platform.Filters.{
  Comparison, greater_equal, Predicate, compares, Row, matches, apply, apply_all, is_allowed,
  all_operators, validate_conditions, validate_filter, compile_conditions, build_predicates,
  selection_clause,
}
use bulk_action_platform.Filters.Compile.{has_bad_list, Compiles, build_predicates-Compiles}
use bulk_action_platform.Filters.Scope.{is_deleted, selection_clause_scope}

abbrev grown : Filter
grown = ("age", operators (("gte", one (num 18)) ∷ [])) ∷ []

abbrev grown_predicates : List Predicate
grown_predicates = compares "age" greater_equal (one (num 18)) ∷ []

abbrev nowhere : Filter
nowhere = ("status", operators (("in", many []) ∷ [])) ∷ []

abbrev never : Comparison → Value → Operand → Bool
never op v o = false

grown-built : build_predicates contact_entity (some grown) ≡ ok grown_predicates
unfolding build_predicates validate_filter compile_conditions contact_entity validate_conditions
    apply_all apply is_allowed all_operators filterable_fields mem_name
grown-built = refl

nowhere-valid : validate_filter contact_entity (some nowhere) ≡ ok tt
unfolding validate_filter contact_entity validate_conditions is_allowed all_operators
    filterable_fields mem_name
nowhere-valid = refl

selection_clause_scope_example :
    (ws : List Predicate) × (selection_clause contact_entity 7 (some grown) false ≡ ok ws)
    × ((r : Row)
        → matches never ws r ≡ (
            (r.account_id == 7)
            && (false || not (is_deleted contact_entity r))
            && matches never grown_predicates r))
selection_clause_scope_example =
    selection_clause_scope never contact_entity 7 (some grown) false grown_predicates grown-built

build_predicates-Compiles_example :
    Compiles (has_bad_list nowhere) (build_predicates contact_entity (some nowhere))
build_predicates-Compiles_example = build_predicates-Compiles contact_entity nowhere nowhere-valid
