-- ===== src/Entities.antt =====
-- app/domain/entities: the descriptor of an entity, its validation of updates, and the two that
-- ship. Labels, descriptions and type names, which only the registry endpoint shows, are left out.
-- Pydantic is a parameter: `validate` checks and coerces a value against an annotation.
pub mod Updates
pub mod Stored
use Prim.Native.String.{String}
use bulk_action_platform.Prelude.{
  ℕ, ◌≡◌, Bool, true, false, not, ◌||◌, ◌&&◌, Option, none, some, List, [], ◌∷◌, ◌++◌,
  if◌then◌else◌, select,
}
use bulk_action_platform.Values.{Value, null, Dict, lookup, mem_name, keys}
use bulk_action_platform.Errors.{Result, ok, err, validation_error, ◌>>=◌, ◌>>◌, raise_if}

-- `Annotated[str, Field(min_length, max_length)]`, the same with the e-mail pattern,
-- `Annotated[int, Field(ge, le)]`, and `... | None`.
pub data Annotation : Type 0 where
  bounded_str : ℕ → ℕ → Annotation
  email_str : ℕ → ℕ → Annotation
  bounded_int : ℕ → ℕ → Annotation
  optional : Annotation → Annotation

pub record FieldSpec : Type 0 where
  pub annotation : Annotation
  pub nullable : Bool
  pub filterable : Bool

unfoldable pub update_annotation : FieldSpec → Annotation
update_annotation spec = if spec.nullable then optional spec.annotation else spec.annotation

-- `columns` are the keys of `table.c`.
pub record EntityDescriptor : Type 0 where
  pub name : String
  pub updatable_fields : Dict FieldSpec
  pub dedup_fields : List String
  pub soft_delete_column : Option String
  pub columns : List String

unfoldable pub filterable_fields : Dict FieldSpec → Dict FieldSpec
filterable_fields [] = []
filterable_fields ((k, spec) ∷ fs) =
    let rest = filterable_fields fs in if spec.filterable then (k, spec) ∷ rest else rest

unfoldable pub readable_columns : EntityDescriptor → List String
readable_columns e =
    let cols = "id" ∷ keys e.updatable_fields in
    elim e.soft_delete_column [
      | none ↦ cols
      | some c ↦ if mem_name c cols then cols else cols ++ c ∷ []
    ]

-- What the code relies on: a union with `None` accepts `None` as it is.
pub record Pydantic : Type 0 where
  pub validate : Annotation → Value → Option Value
  pub validate-optional_null : (a : Annotation) → validate (optional a) null ≡ some null

-- `set(updates) - set(cls.updatable_fields)` is not empty.
unfoldable pub has_unknown : List String → List String → Bool
has_unknown allowed [] = false
has_unknown allowed (k ∷ ks) = not (mem_name k allowed) || has_unknown allowed ks

-- The model of `update_model` on the fields that were sent, in the order of the declaration:
-- every field has the annotation `update_annotation | None`.
unfoldable pub validate_fields : Pydantic → Dict FieldSpec → Dict Value → Result (Dict Value)
validate_fields py [] updates = ok []
validate_fields py ((k, spec) ∷ fs) updates =
    let rest = validate_fields py fs updates in
    elim (lookup k updates) [
      | none ↦ rest
      | some v ↦ elim (py.validate (optional (update_annotation spec)) v) [
        | none ↦ err validation_error
        | some v' ↦ rest >>= λ vs. ok ((k, v') ∷ vs)
      ]
    ]

abbrev pub is_empty {ℓ} : {A : Type ℓ} → List A → Bool
is_empty [] = true
is_empty (x ∷ xs) = false

unfoldable pub validate_updates : Pydantic → EntityDescriptor → Dict Value → Result (Dict Value)
unfolding has_unknown validate_fields
validate_updates py e updates = do
  raise_if (is_empty updates) validation_error
  raise_if (has_unknown (keys e.updatable_fields) (keys updates)) validation_error
  validate_fields py e.updatable_fields updates

abbrev field : Annotation → Bool → FieldSpec
field a n = record { annotation = a; nullable = n; filterable = true }

unfoldable pub contact_entity : EntityDescriptor
contact_entity = record {
  name = "contact";
  updatable_fields =
      ("name", field (bounded_str 1 255) false)
      ∷ ("email", field (email_str 3 320) false)
      ∷ ("age", field (bounded_int 0 150) true)
      ∷ ("status", field (bounded_str 1 50) false)
      ∷ [];
  dedup_fields = "email" ∷ [];
  soft_delete_column = some "deleted_at";
  columns =
      "id" ∷ "account_id" ∷ "name" ∷ "email" ∷ "age" ∷ "status" ∷ "created_at" ∷ "updated_at"
      ∷ "deleted_at" ∷ [];
}

unfoldable pub company_entity : EntityDescriptor
company_entity = record {
  name = "company";
  updatable_fields =
      ("name", field (bounded_str 1 255) false)
      ∷ ("domain", field (bounded_str 3 255) true)
      ∷ ("industry", field (bounded_str 1 100) true)
      ∷ ("employee_count", field (bounded_int 0 10000000) true)
      ∷ ("status", field (bounded_str 1 50) false)
      ∷ [];
  dedup_fields = "domain" ∷ [];
  soft_delete_column = some "deleted_at";
  columns =
      "id" ∷ "account_id" ∷ "name" ∷ "domain" ∷ "industry" ∷ "employee_count" ∷ "status"
      ∷ "created_at" ∷ "updated_at" ∷ "deleted_at" ∷ [];
}
