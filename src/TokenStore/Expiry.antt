-- ===== src/TokenStore/Expiry.antt =====
-- token-store.ts: expiry of reserves, the next alarm, and the move of a reserve to a signature.
use phygital_wallet.Common.{
  ℕ, ◌+◌, ◌≤◌, ◌<◌, String, ◌≡◌, ◌≢◌, ◌↔◌, refl, true, false, Bool, none, some, List, [], ◌∷◌,
  arith, eq_iff, select_first, select_sum, delete_where, ltb, inl, inr, select_sum-append,
  select_sum_mono, Option-cases, if◌then◌else◌, ◌&&◌, select_sum-delete_outside, All, length,
  length-delete, select_count, select_first-none-append, select_first-delete_self, eq_refl, is_none,
  eqb, select_first-delete_outside,
}
use phygital_wallet.TokenStore.{
  Store, Reserve, has_id, is_open, is_expired, expire_reserves, earliest, rebind_reserve,
  move_reserve, delete_reserve, get_open_reserve_count, get_available_lamports, next_reserve_expiry,
}
use phygital_wallet.TokenStore.Reserves.{IsValid}
use phygital_wallet.TokenStore.Admission.{holds, sum-delete_reserve}

-- Every row that is left is open.
All-open :
    (now : ℕ) (rs : List Reserve) → All (λ r. now < r.expires_at) (delete_where (is_expired now) rs)
All-open now [] = tt
All-open now (r ∷ rs) = ground (arith, All-open now rs)

sum_later :
    (f : Reserve → ℕ) (now later : ℕ) (rs : List Reserve)
    → now ≤ later
    → select_sum f (is_open later) (delete_where (is_expired now) rs)
      ≡ select_sum f (is_open later) rs
sum_later f now later rs h =
    select_sum-delete_outside f (is_open later) (is_expired now) rs (λ r e. ground arith)

-- Expiry leaves open rows only, reports how many rows it took, and is not seen by any later count
-- of open reserves or reading of what is available.
pub expire_exact :
    (now later : ℕ) (s : Store)
    → now ≤ later
    → All (λ r. now < r.expires_at) (expire_reserves now s).1.fee_reserves
      × (length (expire_reserves now s).1.fee_reserves + (expire_reserves now s).0
          ≡ length s.fee_reserves)
      × (get_open_reserve_count later (expire_reserves now s).1 ≡ get_open_reserve_count later s)
      × (get_available_lamports later (expire_reserves now s).1 ≡ get_available_lamports later s)
unfolding expire_reserves
expire_exact now later s h = (
  All-open now s.fee_reserves,
  length-delete (is_expired now) s.fee_reserves,
  sum_later (λ _. 1) now later s.fee_reserves h,
  omega (arith, sum_later (λ r. r.lamports) now later s.fee_reserves h),
)

abbrev pub expires_then : ℕ → ℕ → Reserve → Bool
expires_then now t r = is_open now r && eqb r.expires_at t

abbrev pub expires_before : ℕ → ℕ → Reserve → Bool
expires_before now t r = is_open now r && ltb r.expires_at t

-- Some open row expires at `t`, and none expires before it.
abbrev pub IsEarliest : ℕ → List Reserve → ℕ → Type 0
IsEarliest now rs t =
    (0 < select_count (expires_then now t) rs) × (select_count (expires_before now t) rs ≡ 0)

earliest-none :
    (now : ℕ) (rs : List Reserve) → earliest now rs ≡ none → select_count (is_open now) rs ≡ 0
unfolding earliest
earliest-none now [] h = refl
earliest-none now (r ∷ rs) h = ground (arith, earliest-none now rs)

before_mono :
    (now t u : ℕ) (rs : List Reserve)
    → u ≤ t
    → select_count (expires_before now u) rs ≤ select_count (expires_before now t) rs
before_mono now t u rs h =
    select_sum_mono (λ _. 1) (expires_before now u) (expires_before now t) rs (λ r e. ground arith)

before-le-open :
    (now t : ℕ) (rs : List Reserve)
    → select_count (expires_before now t) rs ≤ select_count (is_open now) rs
before-le-open now t rs =
    select_sum_mono (λ _. 1) (expires_before now t) (is_open now) rs (λ r e. ground arith)

then-le-open :
    (now t : ℕ) (rs : List Reserve)
    → select_count (expires_then now t) rs ≤ select_count (is_open now) rs
then-le-open now t rs =
    select_sum_mono (λ _. 1) (expires_then now t) (is_open now) rs (λ r e. ground arith)

earliest-some :
    (now : ℕ) (rs : List Reserve) (t : ℕ) → earliest now rs ≡ some t → IsEarliest now rs t
unfolding earliest
earliest-some now [] t h = ground arith
earliest-some now (r ∷ rs) t h = elim (Option-cases (earliest now rs)) [
  | inl alone ↦ ground (arith, earliest-none now rs alone, before-le-open now t rs)
  | inr (u, later) ↦ ground (arith, earliest-some now rs u later, before_mono now u t rs)
]

-- The next alarm is set for the earliest expiry among the open rows; there is no next alarm exactly
-- when no row is open.
pub next_reserve_expiry_exact :
    (now : ℕ) (s : Store)
    → ((t : ℕ) → next_reserve_expiry now s ≡ some t → IsEarliest now s.fee_reserves t)
      × ((next_reserve_expiry now s ≡ none) ↔ (get_open_reserve_count now s ≡ 0))
unfolding next_reserve_expiry
next_reserve_expiry_exact now s = (
  earliest-some now s.fee_reserves,
  (
    earliest-none now s.fee_reserves,
    λ h. elim (Option-cases (earliest now s.fee_reserves)) [
      | inl e ↦ e
      | inr (t, e) ↦ absurd (
          omega (arith, h, earliest-some now s.fee_reserves t e, then-le-open now t s.fee_reserves))
    ],
  ),
)

-- `rebindReserve` succeeds exactly when the two ids are non-empty and differ and the first one holds
-- an open row; otherwise it changes nothing.
pub rebind_iff :
    (from_id to_id : String) (now : ℕ) (s : Store)
    → (((rebind_reserve from_id to_id now s).0 ≡ true)
        ↔ ((from_id ≢ "") × (to_id ≢ "") × (from_id ≢ to_id) × (holds from_id now s ≡ true)))
      × ((rebind_reserve from_id to_id now s).0 ≡ false
          → (rebind_reserve from_id to_id now s).1 ≡ s)
unfolding rebind_reserve
rebind_iff from_id to_id now s =
    elim (Option-cases (select_first (has_id from_id) s.fee_reserves)) [
      | inl missing ↦ ground (arith, eq_iff from_id "", eq_iff to_id "", eq_iff from_id to_id)
      | inr (row, found) ↦ ground (arith, eq_iff from_id "", eq_iff to_id "", eq_iff from_id to_id)
    ]

-- What a row holds back does not depend on its id.
abbrev pub held : (ℕ → ℕ) → ℕ → Store → ℕ
held g now s = select_sum (λ r. g r.lamports) (is_open now) s.fee_reserves

module _ (from_id to_id : String) (now : ℕ) (s : Store) where
  other_id : from_id ≢ to_id → (r : Reserve) → has_id to_id r ≡ true → has_id from_id r ≡ false
  other_id h r e = ground (arith, eq_iff r.id to_id, eq_iff r.id from_id)

  held-move :
      (g : ℕ → ℕ) (row : Reserve)
      → IsValid s
      → from_id ≢ to_id
      → select_first (has_id from_id) s.fee_reserves ≡ some row
      → is_open now row ≡ true
      → held g now (move_reserve from_id to_id row s).1
          + (if is_none (select_first (has_id to_id) s.fee_reserves) then 0 else g row.lamports)
        ≡ held g now s
  unfolding move_reserve
  held-move g row v h e k = ground (
    arith,
    sum-delete_reserve (λ r. g r.lamports) now s v from_id row e,
    select_first-delete_outside (has_id to_id) (has_id from_id) s.fee_reserves (other_id h),
    select_sum-append (λ (r : Reserve). g r.lamports) (is_open now)
        (delete_reserve from_id s).fee_reserves (record row { id = to_id } ∷ []),
  )

  ids-move :
      (row : Reserve)
      → from_id ≢ to_id
      → (select_first (has_id from_id) (move_reserve from_id to_id row s).1.fee_reserves ≡ none)
        × (select_first (has_id to_id) (move_reserve from_id to_id row s).1.fee_reserves ≢ none)
  unfolding move_reserve
  ids-move row h = ground (
    arith,
    select_first-delete_self (has_id from_id) s.fee_reserves,
    select_first-none-append (has_id from_id) (delete_reserve from_id s).fee_reserves
        (record row { id = to_id }),
    select_first-none-append (has_id to_id) (delete_reserve from_id s).fee_reserves
        (record row { id = to_id }),
    eq_iff to_id from_id,
    eq_refl to_id,
  )

  -- On well-formed tables, after a successful rebind the old id has no row and the new one has; the
  -- open rows hold back what they did before, less the moved row where the new id had a row already.
  pub rebind_moves :
      (g : ℕ → ℕ) (row : Reserve)
      → IsValid s
      → select_first (has_id from_id) s.fee_reserves ≡ some row
      → (rebind_reserve from_id to_id now s).0 ≡ true
      → (select_first (has_id from_id) (rebind_reserve from_id to_id now s).1.fee_reserves ≡ none)
        × (select_first (has_id to_id) (rebind_reserve from_id to_id now s).1.fee_reserves ≢ none)
        × (held g now (rebind_reserve from_id to_id now s).1
              + (if is_none (select_first (has_id to_id) s.fee_reserves) then 0 else g row.lamports)
            ≡ held g now s)
  unfolding rebind_reserve
  rebind_moves g row v found done =
      let (_, _, differ, held_open) = (rebind_iff from_id to_id now s).0.0 done in
      ground (arith, held-move g row v differ found, ids-move row differ)
