-- ===== src/Actions/Columns.antt =====
-- What `UPDATE ... SET` leaves in the columns of a row.
use Prim.Native.String.{String}
use package.text.Mathlib.Text.{◌==◌ as string_eq}
use package.text.Mathlib.TextEquality.{eq_iff}
use bulk_action_platform.Prelude.{◌≡◌, refl, none, some, [], ◌∷◌, arith, if◌then◌else◌}
use bulk_action_platform.Values.{Value, Dict, get, lookup}
use bulk_action_platform.Actions.{put, put_all}

pub get-put :
    (k c : String) (v : Value) (d : Dict Value)
    → get (put k v d) c ≡ (if string_eq k c then v else get d c)
unfolding get put
get-put k c v [] = refl
get-put k c v ((j, w) ∷ d) = ground (arith, get-put k c v d, eq_iff j k, eq_iff k c, eq_iff j c)

-- A column holds its new value if the statement sets it, and else what it held.
pub get-put_all :
    (vs d : Dict Value) (c : String)
    → get (put_all vs d) c ≡ (elim (lookup c vs) [ none ↦ get d c | some v ↦ v ])
unfolding put_all lookup
get-put_all [] d c = refl
get-put_all ((k, v) ∷ vs) d c = ground (arith, get-put k c v (put_all vs d), get-put_all vs d c)
