-- ===== src/Filters/Compile.antt =====
-- Which filters compile: the check at submission against the compilation in the worker.
use Prim.Native.String.{String}
use package.text.Mathlib.Text.{◌==◌ as string_eq}
use package.text.Mathlib.TextEquality.{eq_iff}
use bulk_action_platform.Prelude.{
  ◌≡◌, refl, subst, sym, inl, inr, Bool, true, false, not, ◌&&◌, ◌||◌, some, List, [], ◌∷◌, ◌++◌,
  arith, Bool-cases,
}
use bulk_action_platform.Values.{Dict, mem_name, keys}
use bulk_action_platform.Models.{Filter, Condition, operators, shorthand, Operand}
use bulk_action_platform.Errors.{Result, ok, err, validation_error, ◌>>=◌}
use bulk_action_platform.Entities.{EntityDescriptor}
use bulk_action_platform.Filters.{
  Predicate, apply, is_full_list, operator_names, all_operators, is_known, validate_conditions,
  validate_filter, apply_all, compile_conditions, build_predicates,
}

-- `in` or `not_in` with something that is not a list, or is an empty one.
abbrev pub lacks_list : String → Operand → Bool
lacks_list op v = (string_eq op "in" || string_eq op "not_in") && not (is_full_list v)

abbrev pub some_lacks_list : Dict Operand → Bool
some_lacks_list [] = false
some_lacks_list ((op, v) ∷ ops) = lacks_list op v || some_lacks_list ops

abbrev pub has_bad_list : Filter → Bool
has_bad_list [] = false
has_bad_list ((_, operators ops) ∷ f) = some_lacks_list ops || has_bad_list f
has_bad_list ((_, shorthand _) ∷ f) = has_bad_list f

-- What a compilation gives: an error exactly for a bad list.
abbrev pub Compiles : {A : Type 0} → Bool → Result A → Type 0
Compiles bad (ok a) = bad ≡ false
Compiles bad (err e) = (bad ≡ true) × (e ≡ validation_error)

apply-Compiles :
    (column op : String) (v : Operand)
    → mem_name op operator_names ≡ true
    → Compiles (lacks_list op v) (apply column op v)
unfolding apply mem_name
apply-Compiles column op v known = elim (Bool-cases (string_eq op "in")) [
  | inl e ↦
      subst (λ o. Compiles (lacks_list o v) (apply column o v)) (sym ((eq_iff op "in").0 e))
        (ground arith)
  | inr e ↦ elim (Bool-cases (string_eq op "not_in")) [
    | inl e' ↦
        subst (λ o. Compiles (lacks_list o v) (apply column o v)) (sym ((eq_iff op "not_in").0 e'))
          (ground arith)
    | inr e' ↦ ground arith
  ]
]

apply_all-Compiles :
    (column : String) (ops : Dict Operand)
    → all_operators (keys ops) ≡ true
    → Compiles (some_lacks_list ops) (apply_all column ops)
unfolding apply_all all_operators
apply_all-Compiles column [] known = refl
apply_all-Compiles column ((op, v) ∷ ops) known =
    ground (arith, apply-Compiles column op v, apply_all-Compiles column ops)

shorthand-Compiles :
    (column : String) (v : Operand) → Compiles false (apply_all column (("eq", v) ∷ []))
unfolding apply_all apply
shorthand-Compiles column v = refl

append-Compiles :
    (bad worse : Bool) (m n : Result (List Predicate))
    → Compiles bad m
    → Compiles worse n
    → Compiles (bad || worse) (m >>= λ ps. n >>= λ qs. ok (ps ++ qs))
append-Compiles bad worse (ok ps) (ok qs) h k = ground arith
append-Compiles bad worse (ok ps) (err e) h k = ground arith
append-Compiles bad worse (err e) n h k = ground arith

valid-parts :
    (e : EntityDescriptor) (k : String) (c : Condition) (f : Filter)
    → validate_conditions e ((k, c) ∷ f) ≡ ok tt
    → (is_known c ≡ true) × (validate_conditions e f ≡ ok tt)
unfolding validate_conditions
valid-parts e k c f valid = (ground arith, ground arith)

compile-Compiles :
    (e : EntityDescriptor) (f : Filter)
    → validate_conditions e f ≡ ok tt
    → Compiles (has_bad_list f) (compile_conditions f)
unfolding validate_conditions compile_conditions
compile-Compiles e [] valid = refl
compile-Compiles e ((k, operators ops) ∷ f) valid =
    let (known, rest) = valid-parts e k (operators ops) f valid in
    append-Compiles (some_lacks_list ops) (has_bad_list f) (apply_all k ops) (compile_conditions f)
      (apply_all-Compiles k ops known) (compile-Compiles e f rest)
compile-Compiles e ((k, shorthand v) ∷ f) valid =
    let (_, rest) = valid-parts e k (shorthand v) f valid in
    append-Compiles false (has_bad_list f) (apply_all k (("eq", v) ∷ [])) (compile_conditions f)
      (shorthand-Compiles k v) (compile-Compiles e f rest)

-- A filter that passed the check at submission compiles in the worker, unless it holds an `in` or
-- `not_in` without a non-empty list: that passes the check and is refused only when the planner
-- compiles the filter. (`Compiles bad r`: `r` is a list of predicates if `bad` is false, and a
-- validation error if it is true.)
pub build_predicates-Compiles :
    (e : EntityDescriptor) (f : Filter)
    → validate_filter e (some f) ≡ ok tt
    → Compiles (has_bad_list f) (build_predicates e (some f))
unfolding validate_filter build_predicates
build_predicates-Compiles e f valid = rw (valid, build_predicates) (compile-Compiles e f valid)
