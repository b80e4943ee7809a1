-- ===== src/Queries/Logs.antt =====
-- A client that reads the audit trail of an action page by page.
use bulk_action_platform.Prelude.{
  ℕ, zero, suc, ◌+◌, ◌<◌, ◌≡◌, refl, sym, ap, subst, ◌∙◌, inl, inr, Bool, true, ◌&&◌, none, some,
  List, [], ◌∷◌, ◌++◌, arith, ltb, if◌then◌else◌, length, take, drop, select, count, Bool-cases,
  List-cases, take-append-drop, length-take, length-drop,
}
use bulk_action_platform.Models.{BulkAction, BulkActionLog}
use bulk_action_platform.Errors.{Result, ok, err, internal, ◌>>=◌}
use bulk_action_platform.Store.{Slice}
use bulk_action_platform.Queries.{
  Page, LogQuery, is_after, last_log_id, log_id, matches_log, log_page, list_logs,
}
use bulk_action_platform.Queries.Order.{
  order_by, select-order_by, count-order_by, IsNew, IsAscending, AreDistinct, order_by-IsAscending,
}
use bulk_action_platform.Queries.Walk.{
  count-select, length-select, length-count, take-take, take-all, rows_after, rows_after-none,
  last_log_id-some, rows_after-page, rows_after-next, IsCursor,
}

-- What the query selects, in its order, from its cursor on.
abbrev found_rows : LogQuery → List BulkActionLog → List BulkActionLog
found_rows q logs = order_by log_id (select (matches_log q) logs)

-- What `next_cursor` leads to: the rest is read, or the page was the last.
abbrev then_rows :
    Page BulkActionLog → (ℕ → Result (List BulkActionLog)) → Result (List BulkActionLog)
then_rows page rest = elim page.next_cursor [
  | none ↦ ok page.items
  | some c ↦ rest c >>= λ rows. ok (page.items ++ rows)
]

-- The client asks again with `next_cursor` as the cursor until there is none. Fuel that runs out is an
-- error.
unfoldable pub follow : ℕ → LogQuery → Slice → Result (List BulkActionLog)
unfolding list_logs
follow zero q s = err internal
follow (suc fuel) q s =
    list_logs q s >>= λ page. then_rows page (λ c. follow fuel (record q { cursor = some c }) s)

page_shape :
    (q : LogQuery) (logs rest : List BulkActionLog)
    → rows_after q.cursor (found_rows q logs) ≡ rest
    → let page = log_page q logs in
      (page.items ≡ take q.limit rest)
      × (page.next_cursor
          ≡ (if ltb q.limit (length rest) then last_log_id (take q.limit rest) else none))
unfolding log_page
page_shape q logs rest e =
    let found : order_by log_id (select (λ l. is_after q.cursor l.id) (select (matches_log q) logs))
        ≡ rest =
      sym (select-order_by log_id (λ l. is_after q.cursor l.id) (select (matches_log q) logs))
      ∙ e in
    let size : ltb q.limit (length (take (q.limit + 1) rest)) ≡ ltb q.limit (length rest) =
      ground (arith, length-take (q.limit + 1) rest) in
    rw found (rw (take-take q.limit rest) (rw size (refl, refl)))

-- From any cursor on, the client collects what is behind it.
follow-rest :
    (fuel : ℕ) (q : LogQuery) (s : Slice) (a : BulkAction) (rest : List BulkActionLog)
    → s.action ≡ some a
    → 0 < q.limit
    → length rest < fuel
    → rows_after q.cursor (found_rows q s.logs) ≡ rest
    → IsCursor q.cursor rest
    → IsAscending log_id rest
    → follow fuel q s ≡ ok rest
unfolding follow list_logs
follow-rest zero q s a rest there pos lt e cursor h = absurd (omega arith)
follow-rest (suc fuel) q s a rest there pos lt e cursor h =
    let (items, next) = page_shape q s.logs rest e in
    let listed : list_logs q s ≡ ok (log_page q s.logs) = rw there refl in
    elim (Bool-cases (ltb q.limit (length rest))) [
      | inl more ↦
          let page = take q.limit rest in
          let left = drop q.limit rest in
          let whole : page ++ left ≡ rest = take-append-drop q.limit rest in
          let (k, ends) = last-some rest more in
          let chosen : (if ltb q.limit (length rest) then last_log_id page else none) ≡ some k =
            rw more ends in
          let next' : (log_page q s.logs).next_cursor ≡ some k = next ∙ chosen in
          let ascending : IsAscending log_id (page ++ left) = rw whole h in
          let short : q.limit < length rest = ground (arith, more) in
          let behind = rows_after-page page left k ascending ends in
          let again =
            follow-rest fuel (record q { cursor = some k }) s a left there pos
              (omega (arith, length-drop q.limit rest, lt, pos, short))
              (rows_after-next q.cursor (found_rows q s.logs) page left k (e ∙ sym whole)
                (subst (IsCursor q.cursor) (sym whole) cursor) ascending ends)
              behind.1 behind.2 in
          rw (listed, next', items, again, whole) refl
      | inr last ↦
          let chosen : (if ltb q.limit (length rest) then last_log_id (take q.limit rest) else none)
              ≡ none =
            rw last refl in
          let next' : (log_page q s.logs).next_cursor ≡ none = next ∙ chosen in
          let all = take-all q.limit rest (ground (arith, last)) in
          rw (listed, next', items, all) refl
    ]
  where
    last-some :
        (xs : List BulkActionLog)
        → ltb q.limit (length xs) ≡ true
        → (k : ℕ) × (last_log_id (take q.limit xs) ≡ some k)
    last-some xs more = elim (List-cases (take q.limit xs)) [
      | inl empty ↦
          let size = length-take q.limit xs in
          let nothing = ap length empty in absurd (ground (arith, size, nothing, more, pos))
      | inr (x, rest, shape) ↦ let (k, ends) = last_log_id-some x rest in (k, rw shape ends)
    ]

IsNew-select :
    (p : BulkActionLog → Bool) (k : ℕ) (xs : List BulkActionLog)
    → IsNew log_id k xs
    → IsNew log_id k (select p xs)
IsNew-select p k [] h = tt
IsNew-select p k (x ∷ xs) h = elim (Bool-cases (p x)) [
  | inl passes ↦ rw passes (h.0, IsNew-select p k xs h.1)
  | inr fails ↦ rw fails (IsNew-select p k xs h.1)
]

AreDistinct-select :
    (p : BulkActionLog → Bool) (xs : List BulkActionLog)
    → AreDistinct log_id xs
    → AreDistinct log_id (select p xs)
AreDistinct-select p [] h = tt
AreDistinct-select p (x ∷ xs) h = elim (Bool-cases (p x)) [
  | inl passes ↦ rw passes (IsNew-select p x.id xs h.0, AreDistinct-select p xs h.1)
  | inr fails ↦ rw fails (AreDistinct-select p xs h.1)
]

-- Reading the audit trail page by page ends and misses nothing. For an action that exists, whose log
-- rows have distinct ids and do not change meanwhile, a client that asks with any filter, without a
-- cursor and with a positive limit, and then follows `next_cursor` until there is none, gets in at
-- most one request more than there are log rows exactly the rows that match the filter: in the order
-- of their ids, and counted by any test as often as they are stored.
pub follow_exact :
    (q : LogQuery) (s : Slice) (a : BulkAction)
    → s.action ≡ some a
    → AreDistinct log_id s.logs
    → q.cursor ≡ none
    → 0 < q.limit
    → (rows : List BulkActionLog) × (follow (suc (length s.logs)) q s ≡ ok rows)
      × IsAscending log_id rows
      × ((test : BulkActionLog → Bool)
          → count test rows ≡ count (λ l. matches_log q l && test l) s.logs)
follow_exact q s a there distinct start pos =
    let chosen = select (matches_log q) s.logs in
    let rows = found_rows q s.logs in
    let size : length rows ≡ length chosen =
      length-count rows ∙ count-order_by log_id (λ l. true) chosen ∙ sym (length-count chosen) in
    let ascending =
      order_by-IsAscending log_id chosen (AreDistinct-select (matches_log q) s.logs distinct) in
    (
      rows,
      follow-rest (suc (length s.logs)) q s a rows there pos
          (omega (arith, size, length-select (matches_log q) s.logs))
          (ap (λ c. rows_after c rows) start ∙ rows_after-none rows)
          (subst (λ c. IsCursor c rows) (sym start) tt) ascending,
      ascending,
      λ test. count-order_by log_id test chosen ∙ count-select (matches_log q) test s.logs,
    )
