-- ===== src/TokenStore.antt =====
-- workers/api-signer/src/token-store.ts and fees/constants.ts: the fee ledger of one token. A table
-- is the list of its rows in the order of insertion, the time of a call is an argument.
pub mod Rows
pub mod Reserves
pub mod Admission
pub mod Ledger
pub mod Expiry
pub mod Run
pub mod Once
pub mod Settled
pub mod Cover
mod Tests
use Prim.Native.String
use phygital_wallet.Common.{
  ℕ, ◌+◌, ◌-◌, String, Bool, true, false, ◌&&◌, ◌||◌, not, Option, none, some, List, [], ◌∷◌, ◌++◌,
  ltb, leb, ◌==◌, if◌then◌else◌, ℤ, is_positive, pos_part, select_first, select_count, select_sum,
  delete_where,
}

abbrev pub min_attempt_fee_lamports : ℕ
min_attempt_fee_lamports = 100000

abbrev pub starter_fee_balance_lamports : ℕ
starter_fee_balance_lamports = 1000000

abbrev pub max_concurrent_fee_reserves : ℕ
max_concurrent_fee_reserves = 4

abbrev pub fee_reserve_ttl_ms : ℕ
fee_reserve_ttl_ms = 90000

pub data EventKind : Type 0 where
  credit debit : EventKind

pub record FeeEvent : Type 0 where
  pub signature : String
  pub kind : EventKind
  pub lamports : ℤ

pub record MetaRow : Type 0 where
  pub key : String
  pub value : String

pub record BalanceRow : Type 0 where
  pub balance_lamports : ℕ
  pub updated_at : ℕ

pub record EventRow : Type 0 where
  pub signature : String
  pub kind : EventKind
  pub lamports : ℕ
  pub created_at : ℕ

pub record Reserve : Type 0 where
  pub id : String
  pub lamports : ℕ
  pub created_at : ℕ
  pub expires_at : ℕ

-- `fee_balance` has at most the row with id 1.
pub record Store : Type 0 where
  pub meta : List MetaRow
  pub fee_balance : Option BalanceRow
  pub fee_events : List EventRow
  pub fee_reserves : List Reserve

-- `initTokenSchema` on new storage
abbrev pub init_token_schema : Store
init_token_schema = record { meta = []; fee_balance = none; fee_events = []; fee_reserves = [] }

-- What a call throws: a coded error, or a violated PRIMARY KEY.
pub data StoreError : Type 0 where
  token_mismatch constraint : StoreError

pub data Outcome : Type 0 where
  done : Outcome
  thrown : StoreError → Outcome

abbrev pub has_key : String → MetaRow → Bool
has_key key r = r.key == key

unfoldable pub meta_value : String → Store → Option String
meta_value key s = elim (select_first (has_key key) s.meta) [ none ↦ none | some r ↦ some r.value ]

abbrev insert_meta : String → String → Store → Store
insert_meta key value s = record s { meta = s.meta ++ record { key = key; value = value } ∷ [] }

-- The three INSERTs of `ensureToken`, each refused where its key is there.
provision : String → ℕ → Store → Outcome × Store
provision token now s =
    let s1 = insert_meta "phygital_token" token s in
    elim s.fee_balance [
      | some _ ↦ (thrown constraint, s1)
      | none ↦
          let s2 = record s1 {
            fee_balance = some (record { balance_lamports = 0; updated_at = now });
          } in
          elim (meta_value "starter_granted" s2) [
            | some _ ↦ (thrown constraint, s2)
            | none ↦ (done, insert_meta "starter_granted" "0" s2)
          ]
    ]

unfoldable pub ensure_token : String → ℕ → Store → Outcome × Store
unfolding provision meta_value
ensure_token token now s = elim (meta_value "phygital_token" s) [
  | some value ↦ if not (value == token) then (thrown token_mismatch, s) else (done, s)
  | none ↦ provision token now s
]

abbrev pub get_fee_balance_lamports : Store → ℕ
get_fee_balance_lamports s = elim s.fee_balance [ none ↦ 0 | some row ↦ row.balance_lamports ]

abbrev pub is_open : ℕ → Reserve → Bool
is_open now r = ltb now r.expires_at

abbrev pub has_id : String → Reserve → Bool
has_id id r = r.id == id

abbrev pub get_open_reserve_count : ℕ → Store → ℕ
get_open_reserve_count now s = select_count (is_open now) s.fee_reserves

abbrev pub get_reserved_lamports : ℕ → Store → ℕ
get_reserved_lamports now s = select_sum (λ r. r.lamports) (is_open now) s.fee_reserves

-- Truncated subtraction is the `Math.max(0, …)`.
abbrev pub get_available_lamports : ℕ → Store → ℕ
get_available_lamports now s = get_fee_balance_lamports s - get_reserved_lamports now s

-- The upsert of the balance row.
abbrev set_balance : ℕ → ℕ → Store → Store
set_balance lamports now s = record s {
  fee_balance = some (record { balance_lamports = lamports; updated_at = now });
}

pub set_meta : String → String → List MetaRow → List MetaRow
set_meta key value [] = []
set_meta key value (r ∷ rs) =
    let rest = set_meta key value rs in
    (if has_key key r then record { key = r.key; value = value } else r) ∷ rest

unfoldable pub grant_starter_if_needed : ℕ → Store → Bool × Store
unfolding meta_value set_meta
grant_starter_if_needed now s =
    let flagged = record s { meta = set_meta "starter_granted" "1" s.meta } in
    elim (meta_value "starter_granted" s) [
      | none ↦ (false, s)
      | some flag ↦
          if not (flag == "0")
          then (false, s)
          else if ltb 0 (get_fee_balance_lamports flagged)
          then (false, flagged)
          else (true, set_balance starter_fee_balance_lamports now flagged)
    ]

abbrev pub delete_reserve : String → Store → Store
delete_reserve id s = record s { fee_reserves = delete_where (has_id id) s.fee_reserves }

abbrev insert_reserve : Reserve → Store → Store
insert_reserve r s = record s { fee_reserves = s.fee_reserves ++ r ∷ [] }

abbrev pub reserve_row : String → ℕ → ℕ → ℕ → Reserve
reserve_row id lamports ttl now = record {
  id = id;
  lamports = lamports;
  created_at = now;
  expires_at = now + ttl;
}

-- `reserve` from its test on the count on: no row has the id here.
unfoldable pub admit : String → ℕ → ℕ → ℕ → Store → Bool × Store
admit id lamports ttl now s =
    if leb max_concurrent_fee_reserves (get_open_reserve_count now s)
    then (false, s)
    else if ltb (get_available_lamports now s) lamports
    then (false, s)
    else (true, insert_reserve (reserve_row id lamports ttl now) s)

unfoldable pub reserve : String → ℤ → ℕ → ℕ → Store → Bool × Store
reserve id lamports ttl now s =
    if not (is_positive lamports) || id == ""
    then (false, s)
    else elim (select_first (has_id id) s.fee_reserves) [
      | none ↦ admit id (pos_part lamports) ttl now s
      | some existing ↦
          if is_open now existing
          then (true, s)
          else admit id (pos_part lamports) ttl now (delete_reserve id s)
    ]

unfoldable pub release : String → Store → Bool × Store
release id s = (true, delete_reserve id s)

abbrev pub is_expired : ℕ → Reserve → Bool
is_expired now r = leb r.expires_at now

-- The number of rows deleted, and the rest.
unfoldable pub expire_reserves : ℕ → Store → ℕ × Store
expire_reserves now s = (
  select_count (is_expired now) s.fee_reserves,
  record s { fee_reserves = delete_where (is_expired now) s.fee_reserves },
)

-- `ORDER BY expires_at ASC LIMIT 1`
earliest : ℕ → List Reserve → Option ℕ
earliest now [] = none
earliest now (r ∷ rs) =
    let rest = earliest now rs in
    if is_open now r
    then elim rest [
      | none ↦ some r.expires_at
      | some t ↦ if ltb t r.expires_at then some t else some r.expires_at
    ]
    else rest

unfoldable pub next_reserve_expiry : ℕ → Store → Option ℕ
unfolding earliest
next_reserve_expiry now s = earliest now s.fee_reserves

abbrev pub has_signature : String → EventRow → Bool
has_signature signature r = r.signature == signature

abbrev pub next_balance : EventKind → ℕ → ℕ → ℕ
next_balance credit lamports current = current + lamports
next_balance debit lamports current = current - lamports

abbrev pub event_row : FeeEvent → ℕ → EventRow
event_row event now = record {
  signature = event.signature;
  kind = event.kind;
  lamports = pos_part event.lamports;
  created_at = now;
}

abbrev insert_event : EventRow → Store → Store
insert_event row s = record s { fee_events = s.fee_events ++ row ∷ [] }

unfoldable pub apply_fee_event : FeeEvent → ℕ → Store → Bool × Store
apply_fee_event event now s =
    if not (is_positive event.lamports)
    then (false, s)
    else elim (select_first (has_signature event.signature) s.fee_events) [
      | some _ ↦ (false, s)
      | none ↦
          let logged = insert_event (event_row event now) s in
          let current = get_fee_balance_lamports logged in
          (true, set_balance (next_balance event.kind (pos_part event.lamports) current) now logged)
    ]

-- `signature.replace(/:debit$/, "")`
unfoldable pub strip_debit : String → String
strip_debit String.[] = ""
strip_debit (String.◌∷◌ c s) =
    let rest = strip_debit s in if String.◌∷◌ c s == ":debit" then "" else String.◌∷◌ c rest

unfoldable settle : FeeEvent → ℕ → Store → EventKind → Bool × Store
settle event now s credit = apply_fee_event event now s
settle event now s debit =
    let s1 = (expire_reserves now s).1 in
    let s2 = record s1 {
      fee_reserves =
          delete_where (λ r. has_id (strip_debit event.signature) r && is_open now r)
            s1.fee_reserves;
    } in
    apply_fee_event event now s2

-- The kind of the event is tested first.
unfoldable pub settle_debit : FeeEvent → ℕ → Store → Bool × Store
unfolding settle
settle_debit event now s = settle event now s event.kind

-- `rebindReserve` once the open row of `fromId` is found: the row moves to `toId`, unless that id
-- has a row.
unfoldable pub move_reserve : String → String → Reserve → Store → Bool × Store
move_reserve from_id to_id row s =
    let s1 = delete_reserve from_id s in
    elim (select_first (has_id to_id) s1.fee_reserves) [
      | some _ ↦ (true, s1)
      | none ↦ (
        true,
        insert_reserve
            (record {
              id = to_id;
              lamports = row.lamports;
              created_at = row.created_at;
              expires_at = row.expires_at;
            })
            s1,
      )
    ]

unfoldable pub rebind_reserve : String → String → ℕ → Store → Bool × Store
unfolding move_reserve
rebind_reserve from_id to_id now s =
    if from_id == "" || to_id == "" || from_id == to_id
    then (false, s)
    else elim (select_first (has_id from_id) s.fee_reserves) [
      | none ↦ (false, s)
      | some row ↦ if is_expired now row then (false, s) else move_reserve from_id to_id row s
    ]
