-- ===== src/Registry/Tests.antt =====
-- Two entities and two actions, one of which supports the first only.
use Prim.Native.String.{String}
use bulk_action_platform.Prelude.{ℕ, ◌≡◌, refl, ◌&&◌, false, some, none, [], ◌∷◌}
use bulk_action_platform.Values.{lookup, mem_name}
use bulk_action_platform.Registry.{Class, Registry, Supported, get_entity, get_action}
use bulk_action_platform.Registry.Snapshot.{is_ok}

abbrev class_of : {D : Type 0} → ℕ → String → D → Class D
class_of i n d = record { identity = i; name = n; declares = d }

abbrev entities : Registry (Unit {0})
entities = ("contact", class_of 1 "contact" tt) ∷ ("company", class_of 2 "company" tt) ∷ []

abbrev actions : Registry Supported
actions =
    ("update", class_of 4 "update" none)
    ∷ ("merge", class_of 5 "merge" (some ("contact" ∷ [])))
    ∷ []

accepted :
    (is_ok (get_entity "company" entities) && is_ok (get_action "merge" (some "company") actions))
    ≡ false
unfolding get_entity get_action lookup mem_name
accepted = refl
