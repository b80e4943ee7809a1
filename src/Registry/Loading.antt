-- ===== src/Registry/Loading.antt =====
-- What discovery leaves in a registry.
use Prim.Native.String.{String}
use package.text.Mathlib.Text.{◌==◌ as string_eq}
use package.text.Mathlib.TextEquality.{eq_iff}
use bulk_action_platform.Prelude.{
  ◌≡◌, refl, sym, ap, subst, ◌∙◌, inl, inr, false, some, List, [], ◌∷◌, ◌==◌, ==_iff, arith,
  Bool-cases, Option-cases, All,
}
use bulk_action_platform.Values.{Dict, lookup, set_item}
use bulk_action_platform.Errors.{AppError, Result, ok, err, Result-cases}
use bulk_action_platform.Registry.{
  Class, Registry, register, undiscovered, import_modules, discover,
}
use bulk_action_platform.Registry.Snapshot.{HasNames}

module _ {V : Type 0} where
  lookup-set_item : (k : String) (v : V) (d : Dict V) → lookup k (set_item k v d) ≡ some v
  unfolding lookup set_item
  lookup-set_item k v [] = rw ((eq_iff k k).1 refl) refl
  lookup-set_item k v ((j, w) ∷ d) = elim (Bool-cases (string_eq j k)) [
    | inl same ↦ rw same (rw same refl)
    | inr other ↦ rw other (rw other (lookup-set_item k v d))
  ]

  lookup-set_other :
      (i k : String) (v : V) (d : Dict V)
      → string_eq k i ≡ false
      → lookup i (set_item k v d) ≡ lookup i d
  unfolding lookup set_item
  lookup-set_other i k v [] other = rw other refl
  lookup-set_other i k v ((j, w) ∷ d) other =
      ground (arith, lookup-set_other i k v d other, eq_iff j k, eq_iff k i, eq_iff j i)

  set_item-HasNames : (k : String) (v : V) (d : Dict V) → HasNames d → HasNames (set_item k v d)
  unfolding set_item lookup
  set_item-HasNames k v [] h = (refl, tt)
  set_item-HasNames k v ((j, w) ∷ d) h = elim (Bool-cases (string_eq j k)) [
    | inl same ↦ rw same h
    | inr other ↦
        let back : string_eq k j ≡ false = ground (arith, eq_iff j k, eq_iff k j, other) in
        rw other (lookup-set_other j k v d back ∙ h.0, set_item-HasNames k v d h.1)
  ]

-- A class is in the registry under its name: it, or what was registered last with its identity.
abbrev pub IsListed : {D : Type 0} → Registry D → Class D → Type 0
IsListed r c = (c' : Class _) × (lookup c.name r ≡ some c') × (c'.identity ≡ c.identity)

module _ {D : Type 0} where
  -- A decorator that returns has set its entry, over none or its own.
  register-ok :
      (c : Class D) (r r' : Registry D)
      → register c r ≡ ok r'
      → (r' ≡ set_item c.name c r)
        × ((old : Class D) → lookup c.name r ≡ some old → old.identity ≡ c.identity)
  unfolding register
  register-ok c r r' done = elim (Bool-cases (string_eq c.name "")) [
    | inl nameless ↦ cc (rw nameless at done)
    | inr named ↦ elim (Option-cases (lookup c.name r)) [
      | inl free ↦
          let sets : ok (set_item c.name c r) ≡ ok r' = rw (free, register, named) at done in
          (cc, λ old there. cc)
      | inr (old, there) ↦ elim (Bool-cases (old.identity == c.identity)) [
        | inl own ↦
            let sets : ok (set_item c.name c r) ≡ ok r' =
              rw (there, register, named, own) at done in
            (
              cc,
              λ old' there'.
                  let same : some old ≡ some old' = sym there ∙ there' in
                  let eq : old ≡ old' = cc in
                  subst (λ (x : Class D). x.identity ≡ c.identity) eq
                    ((==_iff old.identity c.identity).0 own),
            )
        | inr taken ↦ cc (rw (there, register, named, taken) at done)
      ]
    ]
  ]

  register-IsListed :
      (c d : Class D) (r : Registry D)
      → ((old : Class D) → lookup c.name r ≡ some old → old.identity ≡ c.identity)
      → IsListed r d
      → IsListed (set_item c.name c r) d
  register-IsListed c d r own (c', there, same) = elim (Bool-cases (string_eq c.name d.name)) [
    | inl hit ↦
        let name : c.name ≡ d.name = (eq_iff c.name d.name).0 hit in
        let mine = own c' (ap (λ n. lookup n r) name ∙ there) in
        (
          c,
          ap (λ n. lookup n (set_item c.name c r)) (sym name) ∙ lookup-set_item c.name c r,
          sym mine ∙ same,
        )
    | inr miss ↦ (c', lookup-set_other d.name c.name c r miss ∙ there, same)
  ]

  import_modules-next :
      (c : Class D) (cs : List (Class D)) (r r' : Registry D)
      → register c r ≡ ok r'
      → import_modules (c ∷ cs) r ≡ import_modules cs r'
  unfolding import_modules
  import_modules-next c cs r r' set = rw (set, import_modules) refl

  import_modules-stop :
      (c : Class D) (cs : List (Class D)) (r : Registry D) (e : AppError)
      → register c r ≡ err e
      → import_modules (c ∷ cs) r ≡ (err e, r)
  unfolding import_modules
  import_modules-stop c cs r e raised = rw (raised, import_modules) refl

  import_modules-HasNames :
      (cs : List (Class D)) (r : Registry D) → HasNames r → HasNames (import_modules cs r).1
  unfolding import_modules
  import_modules-HasNames [] r h = h
  import_modules-HasNames (c ∷ cs) r h = elim (Result-cases (register c r)) [
    | inl (r', set) ↦
        let kept : HasNames r' =
          subst HasNames (sym (register-ok c r r' set).0) (set_item-HasNames c.name c r h) in
        rw (import_modules-next c cs r r' set) (import_modules-HasNames cs r' kept)
    | inr (e, raised) ↦ rw (import_modules-stop c cs r e raised) h
  ]

  import_modules-IsListed :
      (cs : List (Class D)) (r : Registry D) (d : Class D)
      → IsListed r d
      → IsListed (import_modules cs r).1 d
  unfolding import_modules
  import_modules-IsListed [] r d h = h
  import_modules-IsListed (c ∷ cs) r d h = elim (Result-cases (register c r)) [
    | inl (r', set) ↦
        let (sets, own) = register-ok c r r' set in
        let kept : IsListed r' d =
          subst (λ x. IsListed x d) (sym sets) (register-IsListed c d r own h) in
        rw (import_modules-next c cs r r' set) (import_modules-IsListed cs r' d kept)
    | inr (e, raised) ↦ rw (import_modules-stop c cs r e raised) h
  ]

  import_modules-found :
      (cs : List (Class D)) (r : Registry D)
      → (import_modules cs r).0 ≡ ok tt
      → All (IsListed (import_modules cs r).1) cs
  unfolding import_modules
  import_modules-found [] r done = tt
  import_modules-found (c ∷ cs) r done = elim (Result-cases (register c r)) [
    | inl (r', set) ↦
        let listed : IsListed r' c =
          (c, ap (lookup c.name) (register-ok c r r' set).0 ∙ lookup-set_item c.name c r, refl) in
        let next = import_modules-next c cs r r' set in
        subst (λ (x : Result (Unit {0}) × Registry D). All (IsListed x.1) (c ∷ cs)) (sym next)
          (
            import_modules-IsListed cs r' c listed,
            import_modules-found cs r'
                (subst (λ (x : Result (Unit {0}) × Registry D). x.0 ≡ ok tt) next done),
          )
    | inr (e, raised) ↦ cc (
        subst (λ (x : Result (Unit {0}) × Registry D). x.0 ≡ ok tt)
          (import_modules-stop c cs r e raised) done)
  ]

-- Discovery fills a registry once. Starting from nothing, each name stands at most once in the registry,
-- whatever the modules declare; if no decorator raises, every class is found under its name, so no
-- module has displaced another; and every later discovery, of whatever modules, succeeds and changes
-- nothing.
pub discover_once :
    {D : Type 0} (cs cs' : List (Class D))
    → let (outcome, d) = discover cs undiscovered in
      HasNames d.registry
      × (outcome ≡ ok tt → All (IsListed d.registry) cs)
      × (discover cs' d ≡ (ok tt, d))
unfolding discover
discover_once cs cs' =
    (import_modules-HasNames cs [] tt, (λ done. import_modules-found cs [] done), refl)
