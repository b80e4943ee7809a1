-- ===== src/Registry.antt =====
-- app/domain/entities/registry.py and app/domain/actions/registry.py: the two registries, which the
-- modules of their packages fill when they are imported, and the matrix of `registry_snapshot` in
-- app/services/bulk_action_service.py. A class is its identity, the name that it declares and what
-- else it declares; a decorator's RuntimeError is `internal`. Importing a module runs its decorators,
-- in the order of the list.
pub mod Snapshot
pub mod Loading
mod Tests
use Prim.Native.String.{String}
use package.text.Mathlib.Text.{◌==◌ as string_eq}
use bulk_action_platform.Prelude.{
  ℕ, Bool, true, false, Option, none, some, List, [], ◌∷◌, ◌++◌, ◌==◌, if◌then◌else◌,
}
use bulk_action_platform.Values.{Dict, lookup, mem_name, keys, codes, set_item}
use bulk_action_platform.Dedup.{text_leb}
use bulk_action_platform.Entities.{EntityDescriptor}
use bulk_action_platform.Errors.{Result, ok, err, validation_error, internal, ◌>>=◌}

-- A registered class: `is` compares `identity`.
pub record Class (D : Type 0) : Type 0 where
  pub identity : ℕ
  pub name : String
  pub declares : D

abbrev pub Registry : Type 0 → Type 0
Registry D = Dict (Class D)

-- `register_entity` and `register_action`.
unfoldable pub register : {D : Type 0} → Class D → Registry D → Result (Registry D)
unfolding lookup set_item
register c r = if string_eq c.name "" then err internal else (elim (lookup c.name r) [
  | none ↦ ok (set_item c.name c r)
  | some old ↦ if old.identity == c.identity then ok (set_item c.name c r) else err internal
])

-- `supported_entities`: `"*"` is none.
abbrev pub Supported : Type 0
Supported = Option (List String)

abbrev pub register_entity :
    Class EntityDescriptor → Registry EntityDescriptor → Result (Registry EntityDescriptor)
register_entity = register

-- A handler class is instantiated, and the registry holds the instance.
abbrev pub register_action : Class Supported → Registry Supported → Result (Registry Supported)
register_action = register

-- The registry of a package and its `_discovered`.
pub record Discovery (D : Type 0) : Type 0 where
  pub registry : Registry D
  pub discovered : Bool

abbrev pub undiscovered : {D : Type 0} → Discovery D
undiscovered = record { registry = []; discovered = false }

-- The imports, one after the other: the first that raises ends them, and what was registered stays.
unfoldable pub import_modules :
    {D : Type 0} → List (Class D) → Registry D → Result (Unit {0}) × Registry D
unfolding register
import_modules [] r = (ok tt, r)
import_modules (c ∷ cs) r = elim (register c r) [
  | err e ↦ (err e, r)
  | ok r' ↦ import_modules cs r'
]

-- `discover_entities` and `discover_actions`.
unfoldable pub discover :
    {D : Type 0} → List (Class D) → Discovery D → Result (Unit {0}) × Discovery D
unfolding import_modules
discover cs d =
    if d.discovered
    then (ok tt, d)
    else (let (outcome, r) = import_modules cs d.registry in
        (outcome, record { registry = r; discovered = true }))

abbrev pub discover_entities :
    List (Class EntityDescriptor)
    → Discovery EntityDescriptor
    → Result (Unit {0}) × Discovery EntityDescriptor
discover_entities = discover

abbrev pub discover_actions :
    List (Class Supported) → Discovery Supported → Result (Unit {0}) × Discovery Supported
discover_actions = discover

-- `_REGISTRY[name]`, a KeyError turned into a ValidationError.
abbrev pub registered : {D : Type 0} → String → Registry D → Result (Class D)
registered name r = elim (lookup name r) [ none ↦ err validation_error | some c ↦ ok c ]

abbrev pub supports : Class Supported → String → Bool
supports handler entity_name = elim handler.declares [
  | none ↦ true
  | some names ↦ mem_name entity_name names
]

-- `get_entity` and `get_action`, on discovered registries.
unfoldable pub get_entity : {D : Type 0} → String → Registry D → Result (Class D)
get_entity name r = registered name r

unfoldable pub get_action : String → Option String → Registry Supported → Result (Class Supported)
get_action action_type entity_name r = registered action_type r >>= λ handler. elim entity_name [
  | none ↦ ok handler
  | some name ↦ if supports handler name then ok handler else err validation_error
]

-- `sorted` of names, and of items by their names, which are distinct.
unfoldable pub insert_item : {V : Type 0} → String → V → Dict V → Dict V
insert_item k v [] = (k, v) ∷ []
insert_item k v ((j, w) ∷ d) =
    let rest = insert_item k v d in
    if text_leb (codes k) (codes j) then (k, v) ∷ (j, w) ∷ d else (j, w) ∷ rest

unfoldable pub sorted_items : {V : Type 0} → Dict V → Dict V
unfolding insert_item
sorted_items [] = []
sorted_items ((k, v) ∷ d) = insert_item k v (sorted_items d)

-- The comprehension of `supported_combinations`: the pairs of an action, then all pairs. A pair is the
-- entity type and the action type.
unfoldable pub pairs_of : String → Class Supported → List String → List (String × String)
pairs_of aname handler [] = []
pairs_of aname handler (ename ∷ enames) =
    let rest = pairs_of aname handler enames in
    if supports handler ename then (ename, aname) ∷ rest else rest

unfoldable pub pairs : Registry Supported → List String → List (String × String)
unfolding pairs_of
pairs [] enames = []
pairs ((aname, handler) ∷ actions) enames = pairs_of aname handler enames ++ pairs actions enames

unfoldable pub supported_combinations :
    {D : Type 0} → Registry D → Registry Supported → List (String × String)
unfolding sorted_items pairs
supported_combinations entities actions =
    pairs (sorted_items actions) (keys (sorted_items entities))
