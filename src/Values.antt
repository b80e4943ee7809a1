-- ===== src/Values.antt =====
-- The values of columns and JSON payloads, and their texts: a text is the list of its code points.
-- Python's `str.strip` and `str.lower` are modelled on ASCII, which is what the e-mail addresses
-- and domains that the code normalises consist of. Numbers are the naturals: the declared integer
-- fields admit no negative value.
use Prim.Native.Char.{code}
use Prim.Native.String.{String}
use package.text.Mathlib.Text.{◌==◌ as string_eq}
use bulk_action_platform.Prelude.{
  ℕ, ◌+◌, ◌≡◌, refl, ◌↔◌, ap, Bool, true, false, ◌&&◌, ◌||◌, List, [], ◌∷◌, Option, none, some,
  arith, leb, ◌==◌, if◌then◌else◌,
}

abbrev pub Text : Type 0
Text = List ℕ

abbrev pub codes : String → Text
codes String.[] = []
codes (String.◌∷◌ c s) = code c ∷ codes s

unfoldable pub text_eq : Text → Text → Bool
text_eq [] [] = true
text_eq (x ∷ xs) (y ∷ ys) = x == y && text_eq xs ys
text_eq [] (y ∷ ys) = false
text_eq (x ∷ xs) [] = false

pub text_eq_iff : (xs ys : Text) → (text_eq xs ys ≡ true) ↔ (xs ≡ ys)
unfolding text_eq
text_eq_iff [] [] = ((λ _. refl), (λ _. refl))
text_eq_iff (x ∷ xs) (y ∷ ys) =
    ((λ h. ground (arith, text_eq_iff xs ys)), (λ h. ground (arith, text_eq_iff xs ys)))
text_eq_iff [] (y ∷ ys) = ((λ h. cc), (λ h. cc))
text_eq_iff (x ∷ xs) [] = ((λ h. cc), (λ h. cc))

-- `null` is SQL's NULL and Python's `None`; `time` is a timestamp.
pub data Value : Type 0 where
  null : Value
  flag : Bool → Value
  num : ℕ → Value
  text : Text → Value
  time : ℕ → Value

abbrev pub flag_eq : Bool → Bool → Bool
flag_eq true true = true
flag_eq false false = true
flag_eq _ _ = false

-- `==` of Python values.
unfoldable pub value_eq : Value → Value → Bool
value_eq null null = true
value_eq (flag a) (flag b) = flag_eq a b
value_eq (num a) (num b) = a == b
value_eq (text a) (text b) = text_eq a b
value_eq (time a) (time b) = a == b
value_eq _ _ = false

pub value_eq_iff : (a b : Value) → (value_eq a b ≡ true) ↔ (a ≡ b)
unfolding value_eq
value_eq_iff null b = ((λ h. ground arith), (λ h. ground arith))
value_eq_iff (flag a) b = ((λ h. ground arith), (λ h. ground arith))
value_eq_iff (num a) b = ((λ h. ground arith), (λ h. ground arith))
value_eq_iff (text a) null = ((λ h. cc), (λ h. cc))
value_eq_iff (text a) (flag b) = ((λ h. cc), (λ h. cc))
value_eq_iff (text a) (num b) = ((λ h. cc), (λ h. cc))
value_eq_iff (text a) (text b) =
    ((λ h. ap text ((text_eq_iff a b).0 h)), (λ h. ground (arith, text_eq_iff a b)))
value_eq_iff (text a) (time b) = ((λ h. cc), (λ h. cc))
value_eq_iff (time a) b = ((λ h. ground arith), (λ h. ground arith))

-- `value is None`
abbrev pub is_null : Value → Bool
is_null null = true
is_null _ = false

-- A dictionary keyed by names. `get` is `d.get(key)`, with `None` for a missing key.
abbrev pub Dict : Type 0 → Type 0
Dict V = List (String × V)

unfoldable pub get : Dict Value → String → Value
get [] k = null
get ((j, v) ∷ d) k = if string_eq j k then v else get d k

unfoldable pub lookup : {V : Type 0} → String → Dict V → Option V
lookup k [] = none
lookup k ((j, v) ∷ d) = if string_eq j k then some v else lookup k d

-- `name in names`
unfoldable pub mem_name : String → List String → Bool
mem_name k [] = false
mem_name k (j ∷ js) = string_eq k j || mem_name k js

abbrev pub keys : {V : Type 0} → Dict V → List String
keys [] = []
keys ((k, v) ∷ d) = k ∷ keys d

-- `str.isspace` on ASCII: tab to carriage return, the four separators, and the blank.
abbrev pub is_space : ℕ → Bool
is_space c = (leb 9 c && leb c 13) || (leb 28 c && leb c 32)

abbrev pub lstrip : Text → Text
lstrip [] = []
lstrip (c ∷ cs) = let rest = lstrip cs in if is_space c then rest else c ∷ cs

abbrev pub rstrip : Text → Text
rstrip [] = []
rstrip (c ∷ cs) = elim (rstrip cs) [ [] ↦ if is_space c then [] else c ∷ [] | d ∷ ds ↦ c ∷ d ∷ ds ]

-- `text.strip()`
unfoldable pub strip : Text → Text
strip s = rstrip (lstrip s)

abbrev pub lower_char : ℕ → ℕ
lower_char c = if leb 65 c && leb c 90 then c + 32 else c

-- `text.lower()`
unfoldable pub lower : Text → Text
lower [] = []
lower (c ∷ cs) = lower_char c ∷ lower cs

-- `d[k] = v`
unfoldable pub set_item : {V : Type 0} → String → V → Dict V → Dict V
set_item k v [] = (k, v) ∷ []
set_item k v ((j, w) ∷ d) =
    let rest = set_item k v d in if string_eq j k then (j, v) ∷ d else (j, w) ∷ rest
