-- ===== src/Queries/Stats.antt =====
-- The statistics of an action against its audit trail.
use Prim.Native.String.{String}
use package.text.Mathlib.Text.{◌==◌ as string_eq}
use bulk_action_platform.Prelude.{
  ℕ, ◌+◌, ◌≡◌, refl, sym, subst, ◌∙◌, inl, inr, Bool, true, false, not, ◌&&◌, some, List, [], ◌∷◌,
  arith, max, if◌then◌else◌, count, length, select, All, Bool-cases,
}
use bulk_action_platform.Enums.{EntityLogStatus, is_failed, is_skipped}
use bulk_action_platform.Values.{Dict, set_item}
use bulk_action_platform.Models.{BulkAction, BulkActionLog}
use bulk_action_platform.Errors.{ok}
use bulk_action_platform.Store.{Slice}
use bulk_action_platform.Tasks.Audit.{IsConsistent, AgreesWith, Agrees}
use bulk_action_platform.Queries.{reason_name}
use bulk_action_platform.Queries.Breakdown.{
  Group, group_logs, break_down, is_broken, BulkActionStats, stats_of, get_stats,
}
use bulk_action_platform.Queries.Groups.{
  is_group, AreApart, group_logs-AreApart, broken_status, AreBroken, group_logs-AreBroken, weigh,
  weigh-group_logs, amount, amounts, has_no, amount-set_item, amounts-set_item, has_no-set_item,
}

-- The dictionary that a group goes to has no entry for its reason.
abbrev IsClear : Dict ℕ → Dict ℕ → Group → Type 0
IsClear failures skips g =
    has_no g.reason_code (if is_failed g.status then failures else skips) ≡ true

other_reason :
    (g h : Group)
    → broken_status g.status ≡ true
    → broken_status h.status ≡ true
    → is_failed h.status ≡ is_failed g.status
    → is_group h.status h.reason_code g ≡ false
    → string_eq g.reason_code h.reason_code ≡ false
other_reason g h bg bh same apart = ground arith

IsClear-failed :
    (g : Group) (failures skips : Dict ℕ) (gs : List Group)
    → is_failed g.status ≡ true
    → broken_status g.status ≡ true
    → All (λ h. is_group h.status h.reason_code g ≡ false) gs
    → AreBroken gs
    → All (IsClear failures skips) gs
    → All (IsClear (set_item g.reason_code g.n failures) skips) gs
IsClear-failed g failures skips [] f bg apart broken clear = tt
IsClear-failed g failures skips (h ∷ gs) f bg apart broken clear = (
  elim (Bool-cases (is_failed h.status)) [
    | inl failed ↦
        let new : has_no h.reason_code failures ≡ true = rw failed at clear.0 in
        let other = other_reason g h bg broken.0 (failed ∙ sym f) apart.0 in
        rw failed (has_no-set_item g.reason_code g.n h.reason_code failures other new)
    | inr skipped ↦ rw skipped (rw skipped at clear.0)
  ],
  IsClear-failed g failures skips gs f bg apart.1 broken.1 clear.1,
)

IsClear-skipped :
    (g : Group) (failures skips : Dict ℕ) (gs : List Group)
    → is_failed g.status ≡ false
    → broken_status g.status ≡ true
    → All (λ h. is_group h.status h.reason_code g ≡ false) gs
    → AreBroken gs
    → All (IsClear failures skips) gs
    → All (IsClear failures (set_item g.reason_code g.n skips)) gs
IsClear-skipped g failures skips [] f bg apart broken clear = tt
IsClear-skipped g failures skips (h ∷ gs) f bg apart broken clear = (
  elim (Bool-cases (is_failed h.status)) [
    | inl failed ↦ rw failed (rw failed at clear.0)
    | inr skipped ↦
        let new : has_no h.reason_code skips ≡ true = rw skipped at clear.0 in
        let other = other_reason g h bg broken.0 (skipped ∙ sym f) apart.0 in
        rw skipped (has_no-set_item g.reason_code g.n h.reason_code skips other new)
  ],
  IsClear-skipped g failures skips gs f bg apart.1 broken.1 clear.1,
)

abbrev fails_with : String → EntityLogStatus → String → Bool
fails_with r st k = is_failed st && string_eq k r

abbrev skips_with : String → EntityLogStatus → String → Bool
skips_with r st k = not (is_failed st) && string_eq k r

-- What the loop adds to the two dictionaries.
abbrev Adds : List Group → Dict ℕ → Dict ℕ → Type 0
Adds gs failures skips =
    let d = break_down gs failures skips in
    ((r : String) → amount r d.0 ≡ amount r failures + weigh (fails_with r) gs)
    × ((r : String) → amount r d.1 ≡ amount r skips + weigh (skips_with r) gs)
    × (amounts d.0 ≡ amounts failures + weigh (λ st k. is_failed st) gs)
    × (amounts d.1 ≡ amounts skips + weigh (λ st k. not (is_failed st)) gs)

break_down-Adds :
    (gs : List Group) (failures skips : Dict ℕ)
    → AreApart gs
    → AreBroken gs
    → All (IsClear failures skips) gs
    → Adds gs failures skips
unfolding break_down
break_down-Adds [] failures skips apart broken clear =
    ((λ r. omega arith), (λ r. omega arith), omega arith, omega arith)
break_down-Adds (g ∷ gs) failures skips apart broken clear =
    elim (Bool-cases (is_failed g.status)) [
      | inl failed ↦
          let k = g.reason_code in
          let v = g.n in
          let new : has_no k failures ≡ true = rw failed at clear.0 in
          let rest =
            break_down-Adds gs (set_item k v failures) skips apart.1 broken.1
              (IsClear-failed g failures skips gs failed broken.0 apart.0 broken.1 clear.1) in
          rw failed (
            (λ r. omega (arith, rest.0 r, amount-set_item k v r failures new)),
            (λ r. omega (arith, rest.1 r)),
            omega (arith, rest.2, amounts-set_item k v failures new),
            omega (arith, rest.3),
          )
      | inr skipped ↦
          let k = g.reason_code in
          let v = g.n in
          let new : has_no k skips ≡ true = rw skipped at clear.0 in
          let rest =
            break_down-Adds gs failures (set_item k v skips) apart.1 broken.1
              (IsClear-skipped g failures skips gs skipped broken.0 apart.0 broken.1 clear.1) in
          rw skipped (
            (λ r. omega (arith, rest.0 r)),
            (λ r. omega (arith, rest.1 r, amount-set_item k v r skips new)),
            omega (arith, rest.2),
            omega (arith, rest.3, amounts-set_item k v skips new),
          )
    ]

is_broken-select : (ls : List BulkActionLog) → All (λ l. is_broken l ≡ true) (select is_broken ls)
is_broken-select [] = tt
is_broken-select (l ∷ ls) = elim (Bool-cases (is_broken l)) [
  | inl broken ↦ rw broken (broken, is_broken-select ls)
  | inr fine ↦ rw fine (is_broken-select ls)
]

empty-IsClear : (gs : List Group) → All (IsClear [] []) gs
empty-IsClear [] = tt
empty-IsClear (g ∷ gs) = (ground arith, empty-IsClear gs)

abbrev pub reason_of : BulkActionLog → String
reason_of l = reason_name l.outcome.reason_code

-- The rows of a test, under the scan's WHERE clause.
module _ (p : EntityLogStatus → String → Bool) (k : EntityLogStatus → String → Bool)
    (agrees : (st : EntityLogStatus) (r : String) → (broken_status st && p st r) ≡ k st r) where
  count-broken :
      (ls : List BulkActionLog)
      → count (λ l. p l.outcome.status (reason_of l)) (select is_broken ls)
        ≡ count (λ l. k l.outcome.status (reason_of l)) ls
  count-broken [] = refl
  count-broken (l ∷ ls) = ground (arith, count-broken ls, agrees l.outcome.status (reason_of l))

-- The statistics are those of the audit trail. For an action that exists and whose counters agree with
-- its log rows: each entry of the failure breakdown is the number of failed rows with that reason,
-- each entry of the skip breakdown that of the skipped rows, and a reason without an entry has none;
-- the entries of the two sum up to the failure and the skipped count of the headline; and the pending
-- count and the number of log rows make up the total unless there are more rows than that.
pub stats_exact :
    (now : ℕ) (s : Slice) (a : BulkAction)
    → s.action ≡ some a
    → IsConsistent s
    → (st : BulkActionStats) × (get_stats now s ≡ ok st)
      × ((r : String)
          → amount r st.failure_breakdown
            ≡ count (λ l. is_failed l.outcome.status && string_eq (reason_of l) r) s.logs)
      × ((r : String)
          → amount r st.skip_breakdown
            ≡ count (λ l. is_skipped l.outcome.status && string_eq (reason_of l) r) s.logs)
      × (amounts st.failure_breakdown ≡ a.failure_count)
      × (amounts st.skip_breakdown ≡ a.skipped_count)
      × (st.pending_count + length s.logs ≡ max a.total_entities (length s.logs))
unfolding get_stats stats_of
stats_exact now s a there consistent =
    let broken = select is_broken s.logs in
    let gs = group_logs broken in
    let adds =
      break_down-Adds gs [] [] (group_logs-AreApart broken)
        (group_logs-AreBroken broken (is_broken-select s.logs)) (empty-IsClear gs) in
    let agreed : Agrees s.logs a = subst (AgreesWith s.logs) there consistent in
    (
      stats_of now a s.logs,
      rw there refl,
      (λ r. omega (
        arith,
        adds.0 r,
        weigh-group_logs (fails_with r) broken,
        count-broken (fails_with r) (fails_with r) (λ st k. ground arith) s.logs,
      )),
      (λ r. omega (
        arith,
        adds.1 r,
        weigh-group_logs (skips_with r) broken,
        count-broken (skips_with r) (λ st k. is_skipped st && string_eq k r) (λ st k. ground arith)
            s.logs,
      )),
      omega (
        arith,
        adds.2,
        weigh-group_logs (λ st k. is_failed st) broken,
        count-broken (λ st k. is_failed st) (λ st k. is_failed st) (λ st k. ground arith) s.logs,
        agreed.2,
      ),
      omega (
        arith,
        adds.3,
        weigh-group_logs (λ st k. not (is_failed st)) broken,
        count-broken (λ st k. not (is_failed st)) (λ st k. is_skipped st) (λ st k. ground arith)
            s.logs,
        agreed.3,
      ),
      omega (arith, agreed.0),
    )
