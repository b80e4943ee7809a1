-- ===== src/Filters.antt =====
-- app/domain/filters.py and app/domain/sql_utils.py: JSON filters compiled to SQL predicates. A
-- predicate is the expression that the code builds; how the database compares a column with bound
-- values is the parameter `holds` of `matches`. A row is selected if every predicate is true of it.
pub mod Compile
pub mod Scope
mod Tests
use Prim.Native.String.{String}
use package.text.Mathlib.Text.{◌==◌ as string_eq}
use bulk_action_platform.Prelude.{
  ℕ, leb, Bool, true, false, not, ◌&&◌, ◌||◌, Option, none, some, List, [], ◌∷◌, ◌++◌, ◌==◌, elem,
  if◌then◌else◌,
}
use bulk_action_platform.Values.{
  Value, null, flag, num, text, time, Dict, get, is_null, mem_name, keys,
}
use bulk_action_platform.Models.{Filter, Condition, operators, shorthand, Operand, one, many}
use bulk_action_platform.Errors.{Result, ok, err, validation_error, ◌>>=◌, ◌>>◌, raise_if}
use bulk_action_platform.Entities.{EntityDescriptor, filterable_fields, is_empty}

-- The SQL expression of a column and an operand.
pub data Comparison : Type 0 where
  equal not_equal greater greater_equal less less_equal in_list not_in_list contains_text :
      Comparison

pub data Predicate : Type 0 where
  account_is : ℕ → Predicate
  id_in : List ℕ → Predicate
  id_from id_to : ℕ → Predicate
  column_is_null column_is_not_null : String → Predicate
  compares : String → Comparison → Operand → Predicate

-- Python's truth of a value.
abbrev pub truthy : Operand → Bool
truthy (one null) = false
truthy (one (flag b)) = b
truthy (one (num n)) = not (n == 0)
truthy (one (text s)) = not (is_empty s)
truthy (one (time t)) = true
truthy (many vs) = not (is_empty vs)

-- `isinstance(value, list) and value`
abbrev pub is_full_list : Operand → Bool
is_full_list (one v) = false
is_full_list (many vs) = not (is_empty vs)

unfoldable pub apply : String → String → Operand → Result Predicate
apply column op value =
    if string_eq op "eq"
    then ok (compares column equal value)
    else if string_eq op "ne"
    then ok (compares column not_equal value)
    else if string_eq op "gt"
    then ok (compares column greater value)
    else if string_eq op "gte"
    then ok (compares column greater_equal value)
    else if string_eq op "lt"
    then ok (compares column less value)
    else if string_eq op "lte"
    then ok (compares column less_equal value)
    else if string_eq op "in"
    then (if is_full_list value then ok (compares column in_list value) else err validation_error)
    else if string_eq op "not_in"
    then (if is_full_list value
        then ok (compares column not_in_list value)
        else err validation_error)
    else if string_eq op "contains"
    then ok (compares column contains_text value)
    else if string_eq op "is_null"
    then ok (if truthy value then column_is_null column else column_is_not_null column)
    else err validation_error

abbrev pub operator_names : List String
operator_names =
    "eq" ∷ "ne" ∷ "gt" ∷ "gte" ∷ "lt" ∷ "lte" ∷ "in" ∷ "not_in" ∷ "contains" ∷ "is_null" ∷ []

-- Membership in `allowed`.
unfoldable pub is_allowed : EntityDescriptor → String → Bool
is_allowed e k =
    (mem_name k (keys (filterable_fields e.updatable_fields))
      || mem_name k ("status" ∷ "created_at" ∷ "updated_at" ∷ []))
    && mem_name k e.columns

-- `not unknown`
unfoldable pub all_operators : List String → Bool
all_operators [] = true
all_operators (op ∷ ops) = mem_name op operator_names && all_operators ops

abbrev pub is_known : Condition → Bool
is_known (operators ops) = all_operators (keys ops)
is_known (shorthand v) = true

unfoldable pub validate_conditions : EntityDescriptor → Filter → Result (Unit {0})
validate_conditions e [] = ok tt
validate_conditions e ((fname, condition) ∷ rest) =
    let more = validate_conditions e rest in
    raise_if (not (is_allowed e fname)) validation_error
    >> raise_if (not (is_known condition)) validation_error
    >> more

unfoldable pub validate_filter : EntityDescriptor → Option Filter → Result (Unit {0})
unfolding validate_conditions
validate_filter e none = ok tt
validate_filter e (some filters) = validate_conditions e filters

unfoldable pub apply_all : String → Dict Operand → Result (List Predicate)
apply_all column [] = ok []
apply_all column ((op, value) ∷ rest) =
    let more = apply_all column rest in apply column op value >>= λ p. more >>= λ ps. ok (p ∷ ps)

unfoldable pub compile_conditions : Filter → Result (List Predicate)
unfolding apply_all
compile_conditions [] = ok []
compile_conditions ((fname, condition) ∷ rest) =
    let more = compile_conditions rest in
    (elim condition [
      | operators ops ↦ apply_all fname ops
      | shorthand v ↦ apply_all fname (("eq", v) ∷ [])
    ])
    >>= λ ps. more >>= λ qs. ok (ps ++ qs)

unfoldable pub build_predicates : EntityDescriptor → Option Filter → Result (List Predicate)
unfolding compile_conditions
build_predicates e none = ok []
build_predicates e (some filters) = validate_filter e (some filters) >> compile_conditions filters

-- The first clauses of `selection_clause`: the tenant, and no soft-deleted rows.
unfoldable pub scope_predicates : EntityDescriptor → ℕ → Bool → List Predicate
scope_predicates e account_id include_deleted = elim e.soft_delete_column [
  | none ↦ account_is account_id ∷ []
  | some c ↦
      if include_deleted
      then account_is account_id ∷ []
      else account_is account_id ∷ column_is_null c ∷ []
]

unfoldable pub selection_clause :
    EntityDescriptor → ℕ → Option Filter → Bool → Result (List Predicate)
selection_clause e account_id filters include_deleted =
    build_predicates e filters >>= λ ps. ok (scope_predicates e account_id include_deleted ++ ps)

-- A row of an entity's table, `values` holding all columns but these two.
pub record Row : Type 0 where
  pub id : ℕ
  pub account_id : ℕ
  pub values : Dict Value

abbrev pub Holds : Type 0
Holds = Comparison → Value → Operand → Bool

module _ (holds : Holds) where
  unfoldable pub eval : Predicate → Row → Bool
  eval (account_is a) r = r.account_id == a
  eval (id_in ids) r = elem r.id ids
  eval (id_from i) r = leb i r.id
  eval (id_to i) r = leb r.id i
  eval (column_is_null c) r = is_null (get r.values c)
  eval (column_is_not_null c) r = not (is_null (get r.values c))
  eval (compares c op v) r = holds op (get r.values c) v

  -- `and_(*clauses)`
  unfoldable pub matches : List Predicate → Row → Bool
  unfolding eval
  matches [] r = true
  matches (p ∷ ps) r = eval p r && matches ps r
