-- ===== src/Entities/Updates.antt =====
-- What `validate_updates` lets through.
use Prim.Native.String.{String}
use package.text.Mathlib.Text.{◌==◌ as string_eq}
use package.text.Mathlib.TextEquality.{eq_iff}
use bulk_action_platform.Prelude.{
  ◌≡◌, refl, inl, inr, true, Option, none, some, [], ◌∷◌, arith, Bool-cases, Option-cases,
}
use bulk_action_platform.Values.{Value, null, Dict, lookup, mem_name, keys}
use bulk_action_platform.Errors.{ok, Result-cases}
use bulk_action_platform.Entities.{
  optional, FieldSpec, EntityDescriptor, Pydantic, update_annotation, has_unknown, validate_fields,
  validate_updates,
}

-- What Pydantic makes of the value that was sent for a declared field.
abbrev pub coerced : Pydantic → Dict FieldSpec → Dict Value → String → Option Value
coerced py fields updates k = elim (lookup k fields) [
  | none ↦ none
  | some spec ↦ elim (lookup k updates) [
    | none ↦ none
    | some v ↦ py.validate (optional (update_annotation spec)) v
  ]
]

lookup-validate_fields :
    (py : Pydantic) (k : String) (fields : Dict FieldSpec) (updates vs : Dict Value)
    → validate_fields py fields updates ≡ ok vs
    → lookup k vs ≡ coerced py fields updates k
unfolding validate_fields lookup
lookup-validate_fields py k [] updates vs h = ground arith
lookup-validate_fields py k ((j, spec) ∷ fs) updates vs h = elim (Option-cases (lookup j updates)) [
  | inl absent ↦ ground (arith, lookup-validate_fields py k fs updates vs, eq_iff j k)
  | inr (v, sent) ↦ elim (Option-cases (py.validate (optional (update_annotation spec)) v)) [
    | inl refused ↦ ground arith
    | inr (v', kept) ↦ elim (Result-cases (validate_fields py fs updates)) [
      | inl (ws, rest) ↦ ground (arith, lookup-validate_fields py k fs updates ws rest, eq_iff j k)
      | inr (e, rest) ↦ ground arith
    ]
  ]
]

-- When the updates of a request are accepted, the dictionary that is stored has for each name what
-- Pydantic made of the value sent for it; a declared field that was not sent is not in it, so it is
-- not written.
pub validate_updates_values :
    (py : Pydantic) (e : EntityDescriptor) (updates vs : Dict Value) (k : String)
    → validate_updates py e updates ≡ ok vs
    → lookup k vs ≡ coerced py e.updatable_fields updates k
unfolding validate_updates
validate_updates_values py e updates vs k h =
    lookup-validate_fields py k e.updatable_fields updates vs (ground arith)

validate_fields-null :
    (py : Pydantic) (k : String) (fields : Dict FieldSpec)
    → (vs : Dict Value) × (validate_fields py fields ((k, null) ∷ []) ≡ ok vs)
      × (mem_name k (keys fields) ≡ true → lookup k vs ≡ some null)
unfolding validate_fields lookup mem_name
validate_fields-null py k [] = ([], refl, λ m. cc)
validate_fields-null py k ((j, spec) ∷ fs) =
    let (vs, rest, here) = validate_fields-null py k fs in
    elim (Bool-cases (string_eq k j)) [
      | inl same ↦ (
        (j, null) ∷ vs,
        ground (arith, py.validate-optional_null (update_annotation spec)),
        λ m. ground (arith, eq_iff k j, eq_iff j k),
      )
      | inr other ↦ (vs, ground arith, λ m. ground (arith, eq_iff k j, eq_iff j k))
    ]

-- `null` is accepted for every updatable field, also for one that is declared not nullable: the
-- update model makes every field optional. The request is then accepted, and the NULL reaches the
-- column.
pub validate_updates_null :
    (py : Pydantic) (e : EntityDescriptor) (k : String)
    → mem_name k (keys e.updatable_fields) ≡ true
    → (vs : Dict Value) × (validate_updates py e ((k, null) ∷ []) ≡ ok vs)
      × (lookup k vs ≡ some null)
unfolding validate_updates has_unknown
validate_updates_null py e k declared =
    let (vs, done, here) = validate_fields-null py k e.updatable_fields in
    (vs, ground arith, here declared)
