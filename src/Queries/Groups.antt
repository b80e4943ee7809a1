-- ===== src/Queries/Groups.antt =====
-- The grouped scan of the log rows, and the dictionaries that the statistics make of it.
use Prim.Native.String.{String}
use package.text.Mathlib.Text.{◌==◌ as string_eq}
use package.text.Mathlib.TextEquality.{eq_iff}
use bulk_action_platform.Prelude.{
  ℕ, ◌+◌, ◌≡◌, ◌↔◌, refl, inl, inr, Bool, true, false, not, ◌&&◌, ◌||◌, List, [], ◌∷◌, arith,
  if◌then◌else◌, count, sum_by, All, Bool-cases,
}
use bulk_action_platform.Enums.{EntityLogStatus, is_failed, is_skipped}
use bulk_action_platform.Values.{Dict, set_item}
use bulk_action_platform.Models.{BulkActionLog}
use bulk_action_platform.Queries.{reason_name, same_status}
use bulk_action_platform.Queries.Breakdown.{Group, add_group, group_logs, is_broken}

pub same_status_iff : (a b : EntityLogStatus) → (same_status a b ≡ true) ↔ (a ≡ b)
same_status_iff a b = ground arith

-- The group of a status and a reason.
abbrev pub is_group : EntityLogStatus → String → Group → Bool
is_group st r g = same_status g.status st && string_eq g.reason_code r

-- No two groups share status and reason.
abbrev pub AreApart : List Group → Type 0
AreApart [] = Unit {0}
AreApart (g ∷ gs) = All (λ h. is_group h.status h.reason_code g ≡ false) gs × AreApart gs

-- A property of status and reason, which a larger count does not change.
All-add_group :
    (P : EntityLogStatus → String → Type 0) (st : EntityLogStatus) (r : String) (gs : List Group)
    → P st r
    → All (λ g. P g.status g.reason_code) gs
    → All (λ g. P g.status g.reason_code) (add_group st r gs)
unfolding add_group
All-add_group P st r [] p h = (p, tt)
All-add_group P st r (g ∷ gs) p h = elim (Bool-cases (is_group st r g)) [
  | inl same ↦ rw same h
  | inr other ↦ rw other (h.0, All-add_group P st r gs p h.1)
]

add_group-AreApart :
    (st : EntityLogStatus) (r : String) (gs : List Group)
    → AreApart gs
    → AreApart (add_group st r gs)
unfolding add_group
add_group-AreApart st r [] h = (tt, tt)
add_group-AreApart st r (g ∷ gs) h = elim (Bool-cases (is_group st r g)) [
  | inl same ↦ rw same h
  | inr other ↦ rw other (
    All-add_group (λ st' r'. is_group st' r' g ≡ false) st r gs other h.0,
    add_group-AreApart st r gs h.1,
  )
]

pub group_logs-AreApart : (ls : List BulkActionLog) → AreApart (group_logs ls)
unfolding group_logs
group_logs-AreApart [] = tt
group_logs-AreApart (l ∷ ls) =
    add_group-AreApart l.outcome.status (reason_name l.outcome.reason_code) (group_logs ls)
      (group_logs-AreApart ls)

abbrev pub broken_status : EntityLogStatus → Bool
broken_status st = is_failed st || is_skipped st

abbrev pub AreBroken : List Group → Type 0
AreBroken = All (λ g. broken_status g.status ≡ true)

pub group_logs-AreBroken :
    (ls : List BulkActionLog) → All (λ l. is_broken l ≡ true) ls → AreBroken (group_logs ls)
unfolding group_logs
group_logs-AreBroken [] h = tt
group_logs-AreBroken (l ∷ ls) h =
    All-add_group (λ st r. broken_status st ≡ true) l.outcome.status
      (reason_name l.outcome.reason_code) (group_logs ls) h.0 (group_logs-AreBroken ls h.1)

-- The counts of the groups that a test on status and reason selects.
abbrev pub weigh : (EntityLogStatus → String → Bool) → List Group → ℕ
weigh test = sum_by (λ g. if test g.status g.reason_code then g.n else 0)

weigh-add_group :
    (test : EntityLogStatus → String → Bool) (st : EntityLogStatus) (r : String) (gs : List Group)
    → weigh test (add_group st r gs) ≡ (if test st r then 1 else 0) + weigh test gs
unfolding add_group
weigh-add_group test st r [] = omega arith
weigh-add_group test st r (g ∷ gs) = elim (Bool-cases (is_group st r g)) [
  | inl same ↦
      let status : g.status ≡ st = (same_status_iff g.status st).0 (ground (arith, same)) in
      let reason : g.reason_code ≡ r = (eq_iff g.reason_code r).0 (ground (arith, same)) in
      rw same (rw status (rw reason (ground arith)))
  | inr other ↦ rw other (omega (arith, weigh-add_group test st r gs))
]

-- Each row counts in one group.
pub weigh-group_logs :
    (test : EntityLogStatus → String → Bool) (ls : List BulkActionLog)
    → weigh test (group_logs ls)
      ≡ count (λ l. test l.outcome.status (reason_name l.outcome.reason_code)) ls
unfolding group_logs
weigh-group_logs test [] = refl
weigh-group_logs test (l ∷ ls) = ground (
  arith,
  weigh-add_group test l.outcome.status (reason_name l.outcome.reason_code) (group_logs ls),
  weigh-group_logs test ls,
)

-- `d.get(k, 0)`, and the sum of the values.
abbrev pub amount : String → Dict ℕ → ℕ
amount k [] = 0
amount k ((j, v) ∷ d) = let rest = amount k d in if string_eq j k then v else rest

abbrev pub amounts : Dict ℕ → ℕ
amounts = sum_by (λ (kv : String × ℕ). kv.1)

abbrev pub has_no : String → Dict ℕ → Bool
has_no k [] = true
has_no k ((j, v) ∷ d) = not (string_eq j k) && has_no k d

-- A new key adds its value.
module _ (k : String) (v : ℕ) where
  pub amount-set_item :
      (r : String) (d : Dict ℕ)
      → has_no k d ≡ true
      → amount r (set_item k v d) ≡ amount r d + (if string_eq k r then v else 0)
  unfolding set_item
  amount-set_item r [] new = ground arith
  amount-set_item r ((j, w) ∷ d) new =
      ground (arith, amount-set_item r d, eq_iff j r, eq_iff k r, eq_iff j k)

  pub amounts-set_item : (d : Dict ℕ) → has_no k d ≡ true → amounts (set_item k v d) ≡ amounts d + v
  unfolding set_item
  amounts-set_item [] new = omega arith
  amounts-set_item ((j, w) ∷ d) new = ground (arith, amounts-set_item d)

  pub has_no-set_item :
      (j : String) (d : Dict ℕ)
      → string_eq k j ≡ false
      → has_no j d ≡ true
      → has_no j (set_item k v d) ≡ true
  unfolding set_item
  has_no-set_item j [] other new = rw other refl
  has_no-set_item j ((i, w) ∷ d) other new = ground (arith, has_no-set_item j d other)
