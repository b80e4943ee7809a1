-- ===== src/Accounts.antt =====
-- app/api/routes/crm.py: accounts, and the listing of an entity's rows. Names of accounts are left out;
-- FastAPI refuses an argument outside its declared bounds with the status of `validation_error`.
pub mod Limits
mod Tests
use Prim.Native.String.{String}
use package.text.Mathlib.Text.{◌==◌ as string_eq}
use bulk_action_platform.Prelude.{
  ℕ, suc, ◌+◌, Bool, true, not, ◌&&◌, ◌||◌, Option, none, some, List, [], ◌∷◌, ◌++◌, leb, ◌==◌,
  if◌then◌else◌, length, take, select, map,
}
use bulk_action_platform.Values.{text, null, is_null, value_eq, Dict, codes, get, lookup, mem_name}
use bulk_action_platform.Errors.{Result, ok, err, not_found, validation_error}
use bulk_action_platform.Entities.{EntityDescriptor}
use bulk_action_platform.Filters.{Row}
use bulk_action_platform.Actions.{Table}
use bulk_action_platform.Dedup.{EntityRow}
use bulk_action_platform.BatchRunner.{to_entity_row}
use bulk_action_platform.Service.{Account, Platform, get_account}
use bulk_action_platform.Queries.{Page, offset_page, offset_result, in_account}
use bulk_action_platform.Queries.Order.{order_by, order_by_desc}

-- `ge=1, le=10_000_000`
abbrev pub is_limit : ℕ → Bool
is_limit n = leb 1 n && leb n 10000000

-- `settings.default_rate_limit_per_minute`
abbrev pub default_rate_limit : ℕ
default_rate_limit = 10000

abbrev pub or_default_limit : Option ℕ → ℕ
or_default_limit none = default_rate_limit
or_default_limit (some n) = n

unfoldable pub create_account : Option ℕ → Platform → Result Account × Platform
create_account requested p =
    let account : Account = record {
      id = p.next_id;
      rate_limit_per_minute = or_default_limit requested;
    } in
    if is_limit account.rate_limit_per_minute
    then (ok account, record p { accounts = p.accounts ++ (account ∷ []); next_id = suc p.next_id })
    else (err validation_error, p)

-- `created_at` is the column that the database fills.
unfoldable pub list_accounts : (Account → ℕ) → ℕ → Platform → List Account
unfolding order_by_desc
list_accounts created_at limit p = take limit (order_by_desc created_at p.accounts)

-- The assignment to the row that was found.
unfoldable pub set_limit : ℕ → ℕ → List Account → List Account
set_limit i limit [] = []
set_limit i limit (a ∷ rest) =
    (if a.id == i then record a { rate_limit_per_minute = limit } else a) ∷ set_limit i limit rest

abbrev pub update_found : ℕ → Option Account → Platform → Result Account × Platform
update_found limit none p = (err not_found, p)
update_found limit (some a) p = (
  ok (record a { rate_limit_per_minute = limit }),
  record p { accounts = set_limit a.id limit p.accounts },
)

unfoldable pub update_account : ℕ → ℕ → Platform → Result Account × Platform
unfolding set_limit
update_account account_id limit p =
    if is_limit limit
    then update_found limit (get_account account_id p.accounts) p
    else (err validation_error, p)

-- The arguments of `list_entities`.
pub record EntityQuery : Type 0 where
  pub account_id : Option ℕ
  pub status : Option String
  pub include_deleted : Bool
  pub limit : ℕ
  pub offset : ℕ

-- An empty status does not filter, and none does where the table has no such column.
abbrev pub has_row_status : EntityDescriptor → Option String → Row → Bool
has_row_status e none r = true
has_row_status e (some want) r =
    string_eq want ""
    || not (mem_name "status" e.columns)
    || value_eq (get r.values "status") (text (codes want))

abbrev pub is_visible : EntityDescriptor → Bool → Row → Bool
is_visible e include_deleted r = elim e.soft_delete_column [
  | none ↦ true
  | some c ↦ include_deleted || is_null (get r.values c)
]

unfoldable pub lists_row : EntityDescriptor → EntityQuery → Row → Bool
lists_row e q r =
    in_account q.account_id r.account_id
    && has_row_status e q.status r
    && is_visible e q.include_deleted r

-- A row is shown with the entity's readable columns.
unfoldable pub list_entities :
    Dict EntityDescriptor → String → EntityQuery → Table → Result (Page EntityRow)
unfolding lists_row offset_page order_by to_entity_row
list_entities entities name q table = elim (lookup name entities) [
  | none ↦ err validation_error
  | some e ↦
      let found = select (lists_row e q) table in
      let rows = offset_page q.limit q.offset (order_by (λ r. r.id) found) in
      ok (offset_result q.offset (map (to_entity_row e) rows, length found))
]
