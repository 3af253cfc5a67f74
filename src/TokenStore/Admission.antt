-- ===== src/TokenStore/Admission.antt =====
-- token-store.ts: which reserves are admitted, and what they hold.
use phygital_wallet.Common.{
  ℕ, ◌+◌, ◌≤◌, ◌<◌, String, ◌≡◌, ◌≢◌, ◌↔◌, ◌⊎◌, true, false, Bool, none, some, [], ◌∷◌, arith,
  eq_iff, ℤ, is_positive, pos_part, select_first, select_sum, delete_where, inl, inr,
  select_sum-append, select_sum-delete_key, Option-cases, if◌then◌else◌, ◌&&◌, not,
  select_first-none-append, select_first-delete_self, eq_refl,
}
use phygital_wallet.TokenStore.{
  Store, Reserve, has_id, is_open, admit, reserve, delete_reserve, reserve_row,
  get_open_reserve_count, get_reserved_lamports, get_available_lamports, get_fee_balance_lamports,
  max_concurrent_fee_reserves,
}
use phygital_wallet.TokenStore.Reserves.{IsValid}

-- The row of the id, if it has one, is open.
abbrev pub holds : String → ℕ → Store → Bool
holds id now s = elim (select_first (has_id id) s.fee_reserves) [
  | none ↦ false
  | some r ↦ is_open now r
]

-- What `reserve` asks of the ledger before it inserts.
abbrev pub HasRoom : ℕ → ℕ → Store → Type 0
HasRoom lamports now s =
    (get_open_reserve_count now s < max_concurrent_fee_reserves)
    × (lamports ≤ get_available_lamports now s)

-- A sum over the open rows, once the row of an id is deleted.
module _ (f : Reserve → ℕ) (now : ℕ) (s : Store) (v : IsValid s) where
  pub sum-delete_reserve :
      (id : String) (row : Reserve)
      → select_first (has_id id) s.fee_reserves ≡ some row
      → select_sum f (is_open now) (delete_where (has_id id) s.fee_reserves)
          + (if is_open now row then f row else 0)
        ≡ select_sum f (is_open now) s.fee_reserves
  sum-delete_reserve id row e =
      select_sum-delete_key (λ (r : Reserve). r.id) f (is_open now) id s.fee_reserves row v.ids e

admit_iff :
    (id : String) (lamports ttl now : ℕ) (s : Store)
    → ((admit id lamports ttl now s).0 ≡ true) ↔ HasRoom lamports now s
unfolding admit
admit_iff id lamports ttl now s = ground arith

-- On well-formed tables `reserve` succeeds exactly for a positive amount and a non-empty id which
-- either holds an open row already, or finds fewer than four open rows and enough available lamports.
pub reserve_iff :
    (id : String) (lamports : ℤ) (ttl now : ℕ) (s : Store)
    → IsValid s
    → ((reserve id lamports ttl now s).0 ≡ true) ↔ (
        (is_positive lamports ≡ true)
        × (id ≢ "")
        × ((holds id now s ≡ true) ⊎ HasRoom (pos_part lamports) now s))
unfolding reserve
reserve_iff id lamports ttl now s v =
    elim (Option-cases (select_first (has_id id) s.fee_reserves)) [
      | inl missing ↦ ground (arith, eq_iff id "", admit_iff id (pos_part lamports) ttl now s)
      | inr (row, found) ↦ ground (
        arith,
        eq_iff id "",
        admit_iff id (pos_part lamports) ttl now (delete_reserve id s),
        sum-delete_reserve (λ _. 1) now s v id row found,
        sum-delete_reserve (λ r. r.lamports) now s v id row found,
      )
    ]

module _ (f : Reserve → ℕ) (id : String) (now ttl : ℕ) (s : Store) where
  sum-admit :
      (lamports : ℕ)
      → 0 < ttl
      → select_sum f (is_open now) (admit id lamports ttl now s).1.fee_reserves
        ≡ select_sum f (is_open now) s.fee_reserves
          + (if (admit id lamports ttl now s).0 then f (reserve_row id lamports ttl now) else 0)
  unfolding admit
  sum-admit lamports h = ground (
    arith,
    select_sum-append f (is_open now) s.fee_reserves (reserve_row id lamports ttl now ∷ []),
  )

module _ (f : Reserve → ℕ) (id : String) (lamports : ℤ) (ttl now : ℕ) (s : Store) where
  -- A sum over the open rows grows by the new row, if one is inserted.
  pub sum-reserve :
      IsValid s
      → 0 < ttl
      → select_sum f (is_open now) (reserve id lamports ttl now s).1.fee_reserves
        ≡ select_sum f (is_open now) s.fee_reserves
          + (if (reserve id lamports ttl now s).0 && not (holds id now s)
              then f (reserve_row id (pos_part lamports) ttl now)
              else 0)
  unfolding reserve
  sum-reserve v h = elim (Option-cases (select_first (has_id id) s.fee_reserves)) [
    | inl missing ↦ ground (arith, sum-admit f id now ttl s (pos_part lamports) h)
    | inr (row, found) ↦ ground (
      arith,
      sum-admit f id now ttl (delete_reserve id s) (pos_part lamports) h,
      sum-delete_reserve f now s v id row found,
    )
  ]

balance-admit :
    (id : String) (lamports ttl now : ℕ) (s : Store)
    → (admit id lamports ttl now s).1.fee_balance ≡ s.fee_balance
unfolding admit
balance-admit id lamports ttl now s = ground arith

pub balance-reserve :
    (id : String) (lamports : ℤ) (ttl now : ℕ) (s : Store)
    → (reserve id lamports ttl now s).1.fee_balance ≡ s.fee_balance
unfolding reserve
balance-reserve id lamports ttl now s = ground (
  arith,
  balance-admit id (pos_part lamports) ttl now s,
  balance-admit id (pos_part lamports) ttl now (delete_reserve id s),
)

-- On well-formed tables and with a positive lifetime, a successful `reserve` of an id without an open
-- row sets its amount aside; any other call leaves the reserved total as it was. The balance itself
-- never moves.
pub reserved-reserve :
    (id : String) (lamports : ℤ) (ttl now : ℕ) (s : Store)
    → IsValid s
    → 0 < ttl
    → (get_reserved_lamports now (reserve id lamports ttl now s).1
        ≡ get_reserved_lamports now s
          + (if (reserve id lamports ttl now s).0 && not (holds id now s)
              then pos_part lamports
              else 0))
      × (get_fee_balance_lamports (reserve id lamports ttl now s).1 ≡ get_fee_balance_lamports s)
reserved-reserve id lamports ttl now s v h = (
  sum-reserve (λ r. r.lamports) id lamports ttl now s v h,
  rw (balance-reserve id lamports ttl now s, get_fee_balance_lamports),
)

pub holds-admit :
    (id : String) (lamports ttl now : ℕ) (s : Store)
    → select_first (has_id id) s.fee_reserves ≡ none
    → 0 < ttl
    → (admit id lamports ttl now s).0 ≡ true
    → holds id now (admit id lamports ttl now s).1 ≡ true
unfolding admit
holds-admit id lamports ttl now s e h k = ground (
  arith,
  select_first-none-append (has_id id) s.fee_reserves (reserve_row id lamports ttl now) e,
  eq_refl id,
)

-- After a successful `reserve` the id holds an open row.
pub holds-reserve :
    (id : String) (lamports : ℤ) (ttl now : ℕ) (s : Store)
    → 0 < ttl
    → (reserve id lamports ttl now s).0 ≡ true
    → holds id now (reserve id lamports ttl now s).1 ≡ true
unfolding reserve
holds-reserve id lamports ttl now s h k =
    elim (Option-cases (select_first (has_id id) s.fee_reserves)) [
      | inl missing ↦ ground (arith, holds-admit id (pos_part lamports) ttl now s missing h)
      | inr (row, found) ↦ ground (
        arith,
        holds-admit id (pos_part lamports) ttl now (delete_reserve id s)
            (select_first-delete_self (has_id id) s.fee_reserves) h,
      )
    ]

reserve_of_holds :
    (id : String) (lamports : ℤ) (ttl now : ℕ) (s : Store)
    → is_positive lamports ≡ true
    → id ≢ ""
    → holds id now s ≡ true
    → reserve id lamports ttl now s ≡ (true, s)
unfolding reserve
reserve_of_holds id lamports ttl now s p q h = ground (arith, eq_iff id "")

-- A successful `reserve` with a positive lifetime may be repeated at the same time, with any positive
-- amount and any lifetime: it succeeds again and changes nothing.
pub reserve_idempotent :
    (id : String) (lamports again : ℤ) (ttl ttl' now : ℕ) (s : Store)
    → 0 < ttl
    → is_positive again ≡ true
    → (reserve id lamports ttl now s).0 ≡ true
    → reserve id again ttl' now (reserve id lamports ttl now s).1
      ≡ (true, (reserve id lamports ttl now s).1)
reserve_idempotent id lamports again ttl ttl' now s h p k =
    reserve_of_holds id again ttl' now (reserve id lamports ttl now s).1 p
      (unfold reserve in ground (arith, eq_iff id "")) (holds-reserve id lamports ttl now s h k)
