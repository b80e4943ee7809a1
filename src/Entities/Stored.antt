-- ===== src/Entities/Stored.antt =====
-- The updates that are stored, when they are validated a second time.
use Prim.Native.String.{String}
use package.text.Mathlib.TextEquality.{eq_iff}
use bulk_action_platform.Prelude.{
  ◌≡◌, refl, inl, inr, true, false, none, some, List, [], ◌∷◌, arith, Option-cases,
}
use bulk_action_platform.Values.{Value, Dict, lookup, mem_name, keys}
use bulk_action_platform.Errors.{ok, Result-cases}
use bulk_action_platform.Entities.{
  Annotation, optional, FieldSpec, EntityDescriptor, Pydantic, update_annotation, has_unknown,
  validate_fields, validate_updates, is_empty,
}

-- Pydantic accepts what it has made of a value, and leaves it as it is.
abbrev pub IsIdempotent : Pydantic → Type 0
IsIdempotent py =
    (a : Annotation) (v v' : Value) → py.validate a v ≡ some v' → py.validate a v' ≡ some v'

-- No name twice, as in every dictionary.
abbrev pub IsDistinct : List String → Type 0
IsDistinct [] = Unit {0}
IsDistinct (k ∷ ks) = (mem_name k ks ≡ false) × IsDistinct ks

module _ (py : Pydantic) where
  -- A name that is not declared is not stored.
  undeclared :
      (k : String) (fields : Dict FieldSpec) (updates vs : Dict Value)
      → mem_name k (keys fields) ≡ false
      → validate_fields py fields updates ≡ ok vs
      → lookup k vs ≡ none
  unfolding validate_fields lookup mem_name
  undeclared k [] updates vs new h = ground arith
  undeclared k ((j, spec) ∷ fs) updates vs new h = elim (Option-cases (lookup j updates)) [
    | inl absent ↦ ground (arith, undeclared k fs updates vs, eq_iff j k, eq_iff k j)
    | inr (v, sent) ↦ elim (Option-cases (py.validate (optional (update_annotation spec)) v)) [
      | inl refused ↦ ground arith
      | inr (v', kept) ↦ elim (Result-cases (validate_fields py fs updates)) [
        | inl (ws, rest) ↦ ground (arith, undeclared k fs updates ws, rest, eq_iff j k, eq_iff k j)
        | inr (e, rest) ↦ ground arith
      ]
    ]
  ]

  -- Only declared names are stored.
  stored_known :
      (allowed : List String) (fields : Dict FieldSpec) (updates vs : Dict Value)
      → has_unknown allowed (keys fields) ≡ false
      → validate_fields py fields updates ≡ ok vs
      → has_unknown allowed (keys vs) ≡ false
  unfolding validate_fields has_unknown
  stored_known allowed [] updates vs known h = ground arith
  stored_known allowed ((j, spec) ∷ fs) updates vs known h =
      elim (Option-cases (lookup j updates)) [
        | inl absent ↦ ground (arith, stored_known allowed fs updates vs)
        | inr (v, sent) ↦ elim (Option-cases (py.validate (optional (update_annotation spec)) v)) [
          | inl refused ↦ ground arith
          | inr (v', kept) ↦ elim (Result-cases (validate_fields py fs updates)) [
            | inl (ws, rest) ↦ ground (arith, stored_known allowed fs updates ws, rest)
            | inr (e, rest) ↦ ground arith
          ]
        ]
      ]

  -- Something is stored if a declared field was sent.
  stored_some :
      (k : String) (w : Value) (fields : Dict FieldSpec) (updates vs : Dict Value)
      → mem_name k (keys fields) ≡ true
      → lookup k updates ≡ some w
      → validate_fields py fields updates ≡ ok vs
      → is_empty vs ≡ false
  unfolding validate_fields mem_name
  stored_some k w [] updates vs declared there h = ground arith
  stored_some k w ((j, spec) ∷ fs) updates vs declared there h =
      elim (Option-cases (lookup j updates)) [
        | inl absent ↦ ground (arith, stored_some k w fs updates vs, eq_iff k j)
        | inr (v, sent) ↦ elim (Option-cases (py.validate (optional (update_annotation spec)) v)) [
          | inl refused ↦ ground arith
          | inr (v', kept) ↦ elim (Result-cases (validate_fields py fs updates)) [
            | inl (ws, rest) ↦ ground arith
            | inr (e, rest) ↦ ground arith
          ]
        ]
      ]

  module _ (idempotent : IsIdempotent py) (d : Dict Value) where
    -- A dictionary that has what is stored for every declared name is validated to what is stored.
    stored_again :
        (fields : Dict FieldSpec) (updates vs : Dict Value)
        → IsDistinct (keys fields)
        → validate_fields py fields updates ≡ ok vs
        → ((k : String) → mem_name k (keys fields) ≡ true → lookup k d ≡ lookup k vs)
        → validate_fields py fields d ≡ ok vs
    unfolding validate_fields lookup mem_name
    stored_again [] updates vs distinct h agree = h
    stored_again ((j, spec) ∷ fs) updates vs distinct h agree =
        elim (Option-cases (lookup j updates)) [
          | inl absent ↦
              let rest : validate_fields py fs updates ≡ ok vs = ground arith in
              let none_here = undeclared j fs updates vs distinct.0 rest in
              let at_j = agree j (ground (arith, eq_iff j j)) in
              let later =
                stored_again fs updates vs distinct.1 rest
                  (λ k declared. agree k (ground (arith, declared))) in
              ground arith
          | inr (v, sent) ↦
              elim (Option-cases (py.validate (optional (update_annotation spec)) v)) [
                | inl refused ↦ ground arith
                | inr (v', kept) ↦ elim (Result-cases (validate_fields py fs updates)) [
                  | inl (ws, rest) ↦
                      let whole : vs ≡ (j, v') ∷ ws = ground arith in
                      let fixed = idempotent (optional (update_annotation spec)) v v' kept in
                      let at_j : lookup j d ≡ some v' = ground (arith, agree j, eq_iff j j) in
                      let later = stored_again fs updates ws distinct.1 rest (λ k declared.
                        ground (arith, agree k, eq_iff j k, eq_iff k j, distinct.0)) in
                      ground arith
                  | inr (e, rest) ↦ ground arith
                ]
              ]
        ]

-- A declared name is declared.
has_unknown_weaken :
    (k : String) (allowed ks : List String)
    → has_unknown allowed ks ≡ false
    → has_unknown (k ∷ allowed) ks ≡ false
unfolding has_unknown mem_name
has_unknown_weaken k allowed [] h = refl
has_unknown_weaken k allowed (j ∷ ks) h = ground (arith, has_unknown_weaken k allowed ks)

has_unknown_self : (ks : List String) → has_unknown ks ks ≡ false
unfolding has_unknown mem_name
has_unknown_self [] = refl
has_unknown_self (k ∷ ks) =
    ground (arith, has_unknown_weaken k ks ks (has_unknown_self ks), eq_iff k k)

-- Updates that were accepted once are accepted as they are stored, and stay so.
pub validate_updates_again :
    (py : Pydantic) (e : EntityDescriptor) (updates vs : Dict Value)
    → IsIdempotent py
    → IsDistinct (keys e.updatable_fields)
    → validate_updates py e updates ≡ ok vs
    → validate_updates py e vs ≡ ok vs
unfolding validate_updates has_unknown lookup
validate_updates_again py e [] vs idempotent distinct h = ground arith
validate_updates_again py e ((k, v) ∷ updates) vs idempotent distinct h =
    let fields = e.updatable_fields in
    let declared : mem_name k (keys fields) ≡ true = ground arith in
    let accepted : validate_fields py fields ((k, v) ∷ updates) ≡ ok vs = ground arith in
    let stored =
      stored_some py k v fields ((k, v) ∷ updates) vs declared (ground (arith, eq_iff k k))
        accepted in
    let known =
      stored_known py (keys fields) fields ((k, v) ∷ updates) vs (has_unknown_self (keys fields))
        accepted in
    let kept =
      stored_again py idempotent vs fields ((k, v) ∷ updates) vs distinct accepted (λ j m. refl) in
    rw (stored, known) kept
