-- ===== src/Seeding.antt =====
-- app/services/seeding.py: demo rows. `random.Random` is a parameter: its state and the draws that
-- the code makes of it; `choice` draws an index below a length. `fresh` gives a row's `uuid4`,
-- `generator` the state with which the chunk that begins at a row starts. COPY and INSERT add the
-- same rows, so `_copy_rows` is left out.
pub mod Rows
use Prim.Native.String.{String}
use package.text.Mathlib.Text.{◌==◌ as string_eq}
use bulk_action_platform.Prelude.{
  ℕ, zero, suc, ◌+◌, ◌-◌, ◌/◌, ◌%◌, min, Bool, true, false, none, some, List, [], ◌∷◌, ◌++◌, ltb,
  if◌then◌else◌, length,
}
use bulk_action_platform.Values.{
  Text, Value, null, num, text, time, Dict, codes, lower, get, mem_name,
}
use bulk_action_platform.Entities.{Annotation, bounded_int, FieldSpec, EntityDescriptor}
use bulk_action_platform.Filters.{Row}
use bulk_action_platform.Actions.{Table, put}

pub record Random (G : Type 0) : Type 0 where
  pub choice : ℕ → G → ℕ × G
  pub randint : ℕ → ℕ → G → ℕ × G
  pub is_duplicate : G → Bool × G

-- `_CHUNK`
abbrev pub chunk_size : ℕ
chunk_size = 5000

abbrev first_names : List String
first_names =
    "Ada" ∷ "Grace" ∷ "Alan" ∷ "Linus" ∷ "Ravi" ∷ "Meera" ∷ "Kiran" ∷ "Anita" ∷ "Rahul" ∷ "Priya"
    ∷ "Sofia" ∷ "Diego" ∷ "Yuki" ∷ "Chen" ∷ "Omar" ∷ "Fatima" ∷ []

abbrev last_names : List String
last_names =
    "Lovelace" ∷ "Hopper" ∷ "Turing" ∷ "Torvalds" ∷ "Sharma" ∷ "Iyer" ∷ "Patel" ∷ "Desai" ∷ "Nair"
    ∷ "Rao" ∷ "Garcia" ∷ "Silva" ∷ "Tanaka" ∷ "Wei" ∷ "Haddad" ∷ []

abbrev statuses : List String
statuses = "active" ∷ "inactive" ∷ "prospect" ∷ "churned" ∷ []

abbrev industries : List String
industries = "logistics" ∷ "saas" ∷ "manufacturing" ∷ "retail" ∷ "fintech" ∷ "healthcare" ∷ []

abbrev domains : List String
domains = "example.com" ∷ "acme.io" ∷ "globex.net" ∷ "initech.dev" ∷ "umbrella.co" ∷ []

abbrev top_domains : List String
top_domains = "com" ∷ "io" ∷ "net" ∷ []

-- The decimal text of a number; one digit more than the number is fuel enough.
unfoldable pub digits : ℕ → ℕ → Text
digits zero n = []
digits (suc fuel) n =
    let rest = digits fuel (n / 10) in
    if ltb n 10 then (48 + n) ∷ [] else rest ++ ((48 + n % 10) ∷ [])

abbrev pub decimal : ℕ → Text
decimal n = digits (suc n) n

abbrev nth : ℕ → List String → String
nth i [] = ""
nth zero (x ∷ xs) = x
nth (suc i) (x ∷ xs) = nth i xs

abbrev nth_value : ℕ → List Value → Value
nth_value i [] = null
nth_value zero (x ∷ xs) = x
nth_value (suc i) (x ∷ xs) = nth_value i xs

-- `spec.type_name == "int"`
abbrev is_int : Annotation → Bool
is_int (bounded_int lo hi) = true
is_int _ = false

module _ {G : Type 0} (rng : Random G) where
  -- `rng.choice` of a list of texts.
  abbrev pick : List String → G → Text × G
  pick xs g = let (i, g') = rng.choice (length xs) g in (codes (nth i xs), g')

  -- `_value_for`
  unfoldable pub value_for : String → FieldSpec → ℕ → G → Value × G
  unfolding digits lower
  value_for name spec index g =
      if string_eq name "email"
      then (let (first, g1) = pick first_names g in
          let (host, g2) = pick domains g1 in
          (text (lower first ++ codes "." ++ decimal index ++ codes "@" ++ host), g2))
      else if string_eq name "domain"
      then (let (top, g1) = pick top_domains g in
          (text (codes "company-" ++ decimal index ++ codes "." ++ top), g1))
      else if string_eq name "name"
      then (let (first, g1) = pick first_names g in
          let (last, g2) = pick last_names g1 in (text (first ++ codes " " ++ last), g2))
      else if string_eq name "status"
      then (let (status, g1) = pick statuses g in (text status, g1))
      else if string_eq name "industry"
      then (let (industry, g1) = pick industries g in (text industry, g1))
      else if is_int spec.annotation
      then (let (n, g1) = rng.randint 18 75 g in (num n, g1))
      else (text (codes name ++ codes "-" ++ decimal index), g)

  -- The loop over the fields.
  unfoldable pub field_values : Dict FieldSpec → ℕ → G → Dict Value × G
  unfolding value_for
  field_values [] index g = ([], g)
  field_values ((name, spec) ∷ fields) index g =
      let (v, g1) = value_for name spec index g in
      let (rest, g2) = field_values fields index g1 in ((name, v) ∷ rest, g2)

  -- The key of a row is drawn from the earlier ones, or joins them. A field has a name, so a
  -- deduplication field counts as true.
  abbrev settle_key : String → Dict Value → List Value → Bool × G → Dict Value × List Value × G
  settle_key k values minted (true, g) =
      let (i, g1) = rng.choice (length minted) g in (put k (nth_value i minted) values, minted, g1)
  settle_key k values minted (false, g) = (values, minted ++ (get values k ∷ []), g)

  abbrev mint : List String → Dict Value → List Value → G → Dict Value × List Value × G
  mint [] values minted g = (values, minted, g)
  mint (k ∷ ks) values [] g = (values, get values k ∷ [], g)
  mint (k ∷ ks) values (m ∷ minted) g = settle_key k values (m ∷ minted) (rng.is_duplicate g)

  module _ (entity : EntityDescriptor) (account_id now : ℕ) where
    abbrev stamp_column : String → Value → Dict Value → Dict Value
    stamp_column c v values = if mem_name c entity.columns then put c v values else values

    abbrev clear_deleted : Dict Value → Dict Value
    clear_deleted values = elim entity.soft_delete_column [
      | none ↦ values
      | some c ↦ put c null values
    ]

    -- The columns that are set last.
    abbrev last_columns : Dict Value → Dict Value
    last_columns values =
        clear_deleted
          (stamp_column "updated_at" (time now) (stamp_column "created_at" (time now) values))

    -- The loop of `build_rows`, from row `i` on, for `left` more rows.
    unfoldable pub build_from : (ℕ → ℕ) → ℕ → ℕ → List Value → G → List Row
    unfolding field_values
    build_from fresh zero i minted g = []
    build_from fresh (suc left) i minted g =
        let (values, g1) = field_values entity.updatable_fields i g in
        let (keyed, minted', g2) = mint entity.dedup_fields values minted g1 in
        record { id = fresh i; account_id = account_id; values = last_columns keyed }
        ∷ build_from fresh left (suc i) minted' g2

    unfoldable pub build_rows : (ℕ → ℕ) → ℕ → G → List Row
    unfolding build_from
    build_rows fresh count g = build_from fresh count 0 [] g

    -- The loop of `seed_entities`, from the row `start` on: the table and `inserted`.
    unfoldable pub seed_from : (ℕ → ℕ) → (ℕ → G) → ℕ → ℕ → ℕ → Table → ℕ → Table × ℕ
    unfolding build_rows
    seed_from fresh generator zero start count table inserted = (table, inserted)
    seed_from fresh generator (suc fuel) start count table inserted =
        let chunk =
          build_rows (λ i. fresh (start + i)) (min chunk_size (count - start)) (generator start) in
        let rest =
          seed_from fresh generator fuel (start + chunk_size) count (table ++ chunk)
            (inserted + length chunk) in
        if ltb start count then rest else (table, inserted)

    -- The loop takes at most one round for each row.
    unfoldable pub seed_entities : (ℕ → ℕ) → (ℕ → G) → ℕ → Table → Table × ℕ
    unfolding seed_from
    seed_entities fresh generator count table =
        seed_from fresh generator (suc count) 0 count table 0
