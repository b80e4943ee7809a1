-- ===== src/Service/Tests.antt =====
-- A configuration that is stored and submitted again, and a cancellation before the first batch.
use bulk_action_platform.Prelude.{◌≡◌, refl, Option, none, some, [], ◌∷◌, arith}
use bulk_action_platform.Enums.{BulkActionStatus, BatchStatus}
use bulk_action_platform.Values.{Value, null, flag, num, text, time, lookup, mem_name}
use bulk_action_platform.Models.{Config, update_config, BulkAction}
use bulk_action_platform.Errors.{ok}
use bulk_action_platform.Entities.{
  Annotation, Pydantic, validate_updates, validate_fields, has_unknown,
}
use bulk_action_platform.Filters.{validate_filter, validate_conditions}
use bulk_action_platform.Tasks.{World}
use bulk_action_platform.Service.{validate_config}
use bulk_action_platform.Entities.Stored.{IsIdempotent}
use bulk_action_platform.Service.Stored.{validate_config_again}
use bulk_action_platform.Fixtures.{note_entity, retitle, action_in, batch_in, world_of}

abbrev everywhere : Config
everywhere = update_config (record retitle { filter = some [] })

abbrev running : BulkAction
running = action_in BulkActionStatus.processing 1

abbrev start : World
start = world_of running (batch_in BatchStatus.pending ∷ [])

-- A Pydantic that makes a text of a number.
abbrev as_text : Annotation → Value → Option Value
as_text a null = some null
as_text a (flag b) = none
as_text a (num n) = some (text (n ∷ []))
as_text a (text t) = some (text t)
as_text a (time t) = some (time t)

abbrev coercing : Pydantic
coercing = record { validate = as_text; validate-optional_null = λ a. refl }

coercing-IsIdempotent : IsIdempotent coercing
coercing-IsIdempotent a null v' h = ground arith
coercing-IsIdempotent a (flag b) v' h = ground arith
coercing-IsIdempotent a (num n) v' h = ground arith
coercing-IsIdempotent a (text t) v' h = ground arith
coercing-IsIdempotent a (time t) v' h = ground arith

-- The title as it is sent.
abbrev sent : Config
sent = update_config (record retitle { updates = ("title", num 5) ∷ []; filter = some [] })

accepted_as_sent : validate_config coercing note_entity sent ≡ ok everywhere
unfolding validate_config validate_updates validate_fields has_unknown validate_filter
    validate_conditions lookup mem_name
accepted_as_sent = refl

validate_config_again_example : validate_config coercing note_entity everywhere ≡ ok everywhere
unfolding mem_name
validate_config_again_example =
    validate_config_again coercing note_entity sent everywhere coercing-IsIdempotent (refl, tt)
      accepted_as_sent
