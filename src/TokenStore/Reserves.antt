-- ===== src/TokenStore/Reserves.antt =====
-- token-store.ts: the rows of the ledger stay well formed.
use phygital_wallet.Common.{
  ℕ, ◌<◌, String, ◌≡◌, Bool, true, none, inl, inr, arith, ℤ, is_positive, pos_part, select_first,
  delete_where, All, IsKeyed, IsKeyed-delete, IsKeyed-append, All-delete, All-append, All-select,
  select_first-delete_self, Option-cases,
}
use phygital_wallet.TokenStore.{
  Store, Reserve, EventRow, FeeEvent, has_id, has_signature, ensure_token, grant_starter_if_needed,
  admit, reserve, expire_reserves, settle_debit, apply_fee_event, rebind_reserve, move_reserve,
  is_expired, delete_reserve, insert_reserve, insert_event, reserve_row, event_row, credit, debit,
  settle,
}

-- Keys are unique, as the tables' PRIMARY KEYs ask, and a reserve holds something.
pub record IsValid (s : Store) : Type 0 where
  pub ids : IsKeyed (λ (r : Reserve). r.id) s.fee_reserves
  pub signatures : IsKeyed (λ (r : EventRow). r.signature) s.fee_events
  pub amounts : All (λ r. 0 < r.lamports) s.fee_reserves

module _ (s : Store) (v : IsValid s) where
  pub ensure_token-IsValid : (token : String) (now : ℕ) → IsValid (ensure_token token now s).1
  unfolding ensure_token
  ensure_token-IsValid token now = ground arith

  pub grant_starter_if_needed-IsValid : (now : ℕ) → IsValid (grant_starter_if_needed now s).1
  unfolding grant_starter_if_needed
  grant_starter_if_needed-IsValid now = ground arith

  pub delete_rows-IsValid :
      (p : Reserve → Bool) → IsValid (record s { fee_reserves = delete_where p s.fee_reserves })
  delete_rows-IsValid p = record {
    ids = IsKeyed-delete (λ (r : Reserve). r.id) p s.fee_reserves v.ids;
    signatures = v.signatures;
    amounts = All-delete (λ (r : Reserve). 0 < r.lamports) p s.fee_reserves v.amounts;
  }

  insert_reserve-IsValid :
      (r : Reserve)
      → 0 < r.lamports
      → select_first (has_id r.id) s.fee_reserves ≡ none
      → IsValid (insert_reserve r s)
  insert_reserve-IsValid r h e = record {
    ids = IsKeyed-append (λ (r : Reserve). r.id) s.fee_reserves r v.ids e;
    signatures = v.signatures;
    amounts = All-append (λ (r : Reserve). 0 < r.lamports) s.fee_reserves r v.amounts h;
  }

  admit-IsValid :
      (id : String) (lamports ttl now : ℕ)
      → 0 < lamports
      → select_first (has_id id) s.fee_reserves ≡ none
      → IsValid (admit id lamports ttl now s).1
  unfolding admit
  admit-IsValid id lamports ttl now h e =
      ground (arith, insert_reserve-IsValid (reserve_row id lamports ttl now) h e)

  insert_event-IsValid :
      (row : EventRow)
      → select_first (has_signature row.signature) s.fee_events ≡ none
      → IsValid (insert_event row s)
  insert_event-IsValid row e = record {
    ids = v.ids;
    signatures = IsKeyed-append (λ (r : EventRow). r.signature) s.fee_events row v.signatures e;
    amounts = v.amounts;
  }

  pub apply_fee_event-IsValid :
      (event : FeeEvent) (now : ℕ) → IsValid (apply_fee_event event now s).1
  unfolding apply_fee_event
  apply_fee_event-IsValid event now = ground (arith, insert_event-IsValid (event_row event now))

  pub expire_reserves-IsValid : (now : ℕ) → IsValid (expire_reserves now s).1
  unfolding expire_reserves
  expire_reserves-IsValid now = delete_rows-IsValid (is_expired now)

is_positive-pos_part : (x : ℤ) → is_positive x ≡ true → 0 < pos_part x
is_positive-pos_part x h = ground arith

pub reserve-IsValid :
    (s : Store) (id : String) (lamports : ℤ) (ttl now : ℕ)
    → IsValid s
    → IsValid (reserve id lamports ttl now s).1
unfolding reserve
reserve-IsValid s id lamports ttl now v = ground (
  arith,
  is_positive-pos_part lamports,
  admit-IsValid s v id (pos_part lamports) ttl now,
  admit-IsValid (delete_reserve id s) (delete_rows-IsValid s v (has_id id)) id (pos_part lamports)
      ttl now,
  select_first-delete_self (has_id id) s.fee_reserves,
)

pub settle_debit-IsValid :
    (s : Store) (event : FeeEvent) (now : ℕ) → IsValid s → IsValid (settle_debit event now s).1
unfolding settle_debit
settle_debit-IsValid s event now v = elim event.kind as (λ k. IsValid (settle event now s k).1) [
  | credit ↦ apply_fee_event-IsValid s v event now
  | debit ↦
      apply_fee_event-IsValid _ (delete_rows-IsValid _ (expire_reserves-IsValid s v now) _) event
        now
]

move_reserve-IsValid :
    (s : Store) (from_id to_id : String) (row : Reserve)
    → IsValid s
    → 0 < row.lamports
    → IsValid (move_reserve from_id to_id row s).1
unfolding move_reserve
move_reserve-IsValid s from_id to_id row v h =
    let kept = delete_rows-IsValid s v (has_id from_id) in
    ground (
      arith,
      kept,
      insert_reserve-IsValid (delete_reserve from_id s) kept (record row { id = to_id }) h,
    )

pub rebind_reserve-IsValid :
    (s : Store) (from_id to_id : String) (now : ℕ)
    → IsValid s
    → IsValid (rebind_reserve from_id to_id now s).1
unfolding rebind_reserve
rebind_reserve-IsValid s from_id to_id now v =
    elim (Option-cases (select_first (has_id from_id) s.fee_reserves)) [
      | inl missing ↦ ground arith
      | inr (row, found) ↦ ground (
        arith,
        move_reserve-IsValid s from_id to_id row v (
            All-select (λ (r : Reserve). 0 < r.lamports) (has_id from_id) s.fee_reserves row
              v.amounts found),
      )
    ]
