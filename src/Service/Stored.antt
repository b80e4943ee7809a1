-- ===== src/Service/Stored.antt =====
-- A stored configuration, submitted again. Of Pydantic it is assumed that it leaves what it has made
-- of a value as it is.
use bulk_action_platform.Prelude.{◌≡◌, refl, ◌∙◌, not, ◌&&◌, inl, inr, ap, arith, Bool-cases}
use bulk_action_platform.Values.{Value, Dict, keys}
use bulk_action_platform.Models.{
  Config, BulkUpdateConfig, BulkDeleteConfig, update_config, delete_config,
}
use bulk_action_platform.Errors.{ok, Result-cases}
use bulk_action_platform.Entities.{EntityDescriptor, Pydantic, validate_updates}
use bulk_action_platform.Entities.Stored.{IsIdempotent, IsDistinct, validate_updates_again}
use bulk_action_platform.Filters.{validate_filter}
use bulk_action_platform.Service.{
  require_a_target_set, check_dedup_field, check_dedup_key, has_soft_delete, validate_config,
}

module _ (py : Pydantic) (e : EntityDescriptor) where
  -- A configuration of an update that is accepted has passed all four checks.
  update-checks :
      (c : BulkUpdateConfig) (stored : Config)
      → validate_config py e (update_config c) ≡ ok stored
      → (vs : Dict Value) × (require_a_target_set c.filter c.entity_ids ≡ ok tt)
        × (validate_updates py e c.updates ≡ ok vs)
        × (validate_filter e c.filter ≡ ok tt)
        × (check_dedup_field e c.deduplicate_by ≡ ok tt)
        × (stored ≡ update_config (record c { updates = vs }))
  unfolding validate_config
  update-checks c stored h = elim (Result-cases (require_a_target_set c.filter c.entity_ids)) [
    | inr (x, no_target) ↦ ground arith
    | inl (_, target) ↦ elim (Result-cases (validate_updates py e c.updates)) [
      | inr (x, refused) ↦ ground arith
      | inl (vs, coerced) ↦ elim (Result-cases (validate_filter e c.filter)) [
        | inr (x, no_filter) ↦ ground arith
        | inl (_, valid) ↦ elim (Result-cases (check_dedup_field e c.deduplicate_by)) [
          | inr (x, no_key) ↦ ground arith
          | inl (_, key) ↦ (vs, target, coerced, valid, key, ground arith)
        ]
      ]
    ]
  ]

  -- A configuration of a delete that is accepted is stored as it is.
  delete-kept :
      (c : BulkDeleteConfig) (stored : Config)
      → validate_config py e (delete_config c) ≡ ok stored
      → stored ≡ delete_config c
  unfolding validate_config
  delete-kept c stored h = elim (Result-cases (require_a_target_set c.filter c.entity_ids)) [
    | inr (x, no_target) ↦ ground arith
    | inl (_, target) ↦ elim (Result-cases (validate_filter e c.filter)) [
      | inr (x, no_filter) ↦ ground arith
      | inl (_, valid) ↦ elim (Bool-cases (not c.hard && not (has_soft_delete e))) [
        | inl refused ↦ ground arith
        | inr fine ↦ elim (Result-cases (check_dedup_key e c.deduplicate_by)) [
          | inr (x, no_key) ↦ ground arith
          | inl (_, key) ↦ ground arith
        ]
      ]
    ]
  ]

  -- What is stored of an accepted submission is a valid configuration itself: submitted again to the
  -- same entity, it is accepted and stored without any change. It is assumed that Pydantic leaves what
  -- it has made of a value as it is, and that the entity declares no field twice.
  pub validate_config_again :
      (c stored : Config)
      → IsIdempotent py
      → IsDistinct (keys e.updatable_fields)
      → validate_config py e c ≡ ok stored
      → validate_config py e stored ≡ ok stored
  unfolding validate_config
  validate_config_again (update_config c) stored idempotent distinct h =
      let (vs, target, coerced, valid, key, same) = update-checks c stored h in
      let again = validate_updates_again py e c.updates vs idempotent distinct coerced in
      rw same (rw (target, again, valid, key) refl)
  validate_config_again (delete_config c) stored idempotent distinct h =
      let same = delete-kept c stored h in rw same (h ∙ ap ok same)
