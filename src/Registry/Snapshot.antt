-- ===== src/Registry/Snapshot.antt =====
-- The matrix of entities and actions against what a submission accepts.
use Prim.Native.String.{String}
use package.text.Mathlib.Text.{◌==◌ as string_eq}
use package.text.Mathlib.TextEquality.{eq_iff}
use bulk_action_platform.Prelude.{
  ◌≡◌, refl, sym, ap, ◌∙◌, inl, inr, Bool, true, false, ◌&&◌, ◌||◌, none, some, List, [], ◌∷◌, ◌++◌,
  arith, Bool-cases,
}
use bulk_action_platform.Values.{Dict, lookup, mem_name, keys}
use bulk_action_platform.Errors.{Result, ok, err}
use bulk_action_platform.Registry.{
  Class, Registry, Supported, supports, registered, get_entity, get_action, insert_item,
  sorted_items, pairs_of, pairs, supported_combinations,
}

abbrev pub is_ok : {A : Type 0} → Result A → Bool
is_ok (ok a) = true
is_ok (err e) = false

-- `pair in pairs`
abbrev pub mem_pair : String → String → List (String × String) → Bool
mem_pair e a [] = false
mem_pair e a ((x, y) ∷ ps) = (string_eq x e && string_eq y a) || mem_pair e a ps

-- Each name stands once.
abbrev pub HasNames : {V : Type 0} → Dict V → Type 0
HasNames [] = Unit {0}
HasNames ((k, v) ∷ d) = (lookup k d ≡ none) × HasNames d

mem_pair-append :
    (e a : String) (ps qs : List (String × String))
    → mem_pair e a (ps ++ qs) ≡ (mem_pair e a ps || mem_pair e a qs)
mem_pair-append e a [] qs = refl
mem_pair-append e a ((x, y) ∷ ps) qs = ground (arith, mem_pair-append e a ps qs)

mem_pair-pairs_of :
    (e a n : String) (h : Class Supported) (enames : List String)
    → mem_pair e a (pairs_of n h enames) ≡ ((string_eq n a && supports h e) && mem_name e enames)
unfolding pairs_of mem_name
mem_pair-pairs_of e a n h [] = ground arith
mem_pair-pairs_of e a n h (x ∷ enames) = elim (Bool-cases (string_eq x e)) [
  | inl same ↦
      let eq : x ≡ e = (eq_iff x e).0 same in
      let back : string_eq e x ≡ true = (eq_iff e x).1 (sym eq) in
      let there : supports h x ≡ supports h e = ap (supports h) eq in
      ground (arith, mem_pair-pairs_of e a n h enames, there, same, back)
  | inr other ↦
      let back : string_eq e x ≡ false = ground (arith, eq_iff x e, eq_iff e x, other) in
      ground (arith, mem_pair-pairs_of e a n h enames, other, back)
]

-- Some action under the name supports the entity.
abbrev offers : String → String → Registry Supported → Bool
offers a e [] = false
offers a e ((n, h) ∷ actions) = (string_eq n a && supports h e) || offers a e actions

mem_pair-pairs :
    (e a : String) (actions : Registry Supported) (enames : List String)
    → mem_pair e a (pairs actions enames) ≡ (offers a e actions && mem_name e enames)
unfolding pairs
mem_pair-pairs e a [] enames = refl
mem_pair-pairs e a ((n, h) ∷ actions) enames = ground (
  arith,
  mem_pair-append e a (pairs_of n h enames) (pairs actions enames),
  mem_pair-pairs_of e a n h enames,
  mem_pair-pairs e a actions enames,
)

offers-insert_item :
    (a e k : String) (v : Class Supported) (d : Registry Supported)
    → offers a e (insert_item k v d) ≡ ((string_eq k a && supports v e) || offers a e d)
unfolding insert_item
offers-insert_item a e k v [] = refl
offers-insert_item a e k v ((j, w) ∷ d) = ground (arith, offers-insert_item a e k v d)

offers-sorted_items :
    (a e : String) (d : Registry Supported) → offers a e (sorted_items d) ≡ offers a e d
unfolding sorted_items
offers-sorted_items a e [] = refl
offers-sorted_items a e ((k, v) ∷ d) =
    ground (arith, offers-insert_item a e k v (sorted_items d), offers-sorted_items a e d)

module _ {V : Type 0} where
  mem_name-insert_item :
      (x k : String) (v : V) (d : Dict V)
      → mem_name x (keys (insert_item k v d)) ≡ (string_eq x k || mem_name x (keys d))
  unfolding insert_item mem_name
  mem_name-insert_item x k v [] = refl
  mem_name-insert_item x k v ((j, w) ∷ d) = ground (arith, mem_name-insert_item x k v d)

  mem_name-sorted_items :
      (x : String) (d : Dict V) → mem_name x (keys (sorted_items d)) ≡ mem_name x (keys d)
  unfolding sorted_items mem_name
  mem_name-sorted_items x [] = refl
  mem_name-sorted_items x ((k, v) ∷ d) =
      ground (arith, mem_name-insert_item x k v (sorted_items d), mem_name-sorted_items x d)

mem_name-registered :
    {D : Type 0} (x : String) (r : Registry D) → mem_name x (keys r) ≡ is_ok (registered x r)
unfolding mem_name lookup
mem_name-registered x [] = refl
mem_name-registered x ((k, c) ∷ r) = elim (Bool-cases (string_eq k x)) [
  | inl same ↦
      let back : string_eq x k ≡ true = (eq_iff x k).1 (sym ((eq_iff k x).0 same)) in
      rw (same, is_ok) (rw back refl)
  | inr other ↦
      let back : string_eq x k ≡ false = ground (arith, eq_iff k x, eq_iff x k, other) in
      rw (other, is_ok) (rw back (mem_name-registered x r))
]

offers-none : (a e : String) (r : Registry Supported) → lookup a r ≡ none → offers a e r ≡ false
unfolding lookup
offers-none a e [] missing = refl
offers-none a e ((k, c) ∷ r) missing = ground (arith, offers-none a e r, missing)

offers-get_action :
    (a e : String) (r : Registry Supported)
    → HasNames r
    → offers a e r ≡ is_ok (get_action a (some e) r)
unfolding get_action lookup
offers-get_action a e [] h = refl
offers-get_action a e ((k, c) ∷ r) h = elim (Bool-cases (string_eq k a)) [
  | inl same ↦
      let eq : k ≡ a = (eq_iff k a).0 same in
      let alone = offers-none a e r (ap (λ n. lookup n r) (sym eq) ∙ h.0) in
      rw same (ground (arith, alone))
  | inr other ↦ rw (other, is_ok) (offers-get_action a e r h.1)
]

-- The matrix lists exactly what is accepted: for registries in which each name stands once, a pair of
-- an entity type and an action type is listed if and only if the entity is found and the action is
-- found and supports it.
pub supported_combinations_exact :
    {D : Type 0} (entities : Registry D) (actions : Registry Supported) (e a : String)
    → HasNames actions
    → mem_pair e a (supported_combinations entities actions)
      ≡ (is_ok (get_entity e entities) && is_ok (get_action a (some e) actions))
unfolding supported_combinations get_entity
supported_combinations_exact entities actions e a h = ground (
  arith,
  mem_pair-pairs e a (sorted_items actions) (keys (sorted_items entities)),
  offers-sorted_items a e actions,
  offers-get_action a e actions h,
  mem_name-sorted_items e entities,
  mem_name-registered e entities,
)
