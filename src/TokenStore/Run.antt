-- ===== src/TokenStore/Run.antt =====
-- token-store.ts: any sequence of calls of the store, in the order of time.
use native.Mathlib.Nat.{le_refl, le_trans}
use phygital_wallet.Common.{
  ℕ, ◌≤◌, ◌<◌, String, ◌≡◌, arith, ℤ, select_first, inl, inr, Option-cases, select_sum_mono,
  select_sum-delete-le, select_sum, delete_where, Bool-cases,
}
use phygital_wallet.TokenStore.{
  Store, Reserve, FeeEvent, credit, debit, ensure_token, grant_starter_if_needed, reserve, release,
  expire_reserves, settle_debit, apply_fee_event, rebind_reserve, is_open, is_expired, has_id,
  settle, get_open_reserve_count, max_concurrent_fee_reserves,
}
use phygital_wallet.TokenStore.Reserves.{
  IsValid, ensure_token-IsValid, grant_starter_if_needed-IsValid, reserve-IsValid,
  settle_debit-IsValid, rebind_reserve-IsValid, apply_fee_event-IsValid, expire_reserves-IsValid,
  delete_rows-IsValid,
}
use phygital_wallet.TokenStore.Admission.{sum-reserve, reserve_iff}
use phygital_wallet.TokenStore.Expiry.{rebind_iff, rebind_moves, held}

-- One call at the time `now`.
pub data Step (now : ℕ) : Store → Store → Type 0 where
  ensured : (token : String) (s : Store) → Step now s (ensure_token token now s).1
  granted : (s : Store) → Step now s (grant_starter_if_needed now s).1
  reserved :
      (id : String) (lamports : ℤ) (ttl : ℕ) (s : Store)
      → 0 < ttl
      → Step now s (reserve id lamports ttl now s).1
  released : (id : String) (s : Store) → Step now s (release id s).1
  expired : (s : Store) → Step now s (expire_reserves now s).1
  settled : (event : FeeEvent) (s : Store) → Step now s (settle_debit event now s).1
  applied : (event : FeeEvent) (s : Store) → Step now s (apply_fee_event event now s).1
  rebound : (from_id to_id : String) (s : Store) → Step now s (rebind_reserve from_id to_id now s).1

-- Calls from the time `now` on; time does not go back.
pub data Run (now : ℕ) (s : Store) : ℕ → Store → Type 0 where
  here : Run now s now s
  next :
      {before later : ℕ} {t u : Store}
      → Run now s before t
      → before ≤ later
      → Step later t u
      → Run now s later u

pub Step-IsValid : {now : ℕ} {s t : Store} → Step now s t → IsValid s → IsValid t
unfolding release
Step-IsValid {now} (ensured token s) v = ensure_token-IsValid s v token now
Step-IsValid {now} (granted s) v = grant_starter_if_needed-IsValid s v now
Step-IsValid {now} (reserved id lamports ttl s _) v = reserve-IsValid s id lamports ttl now v
Step-IsValid (released id s) v = delete_rows-IsValid s v (has_id id)
Step-IsValid {now} (expired s) v = expire_reserves-IsValid s v now
Step-IsValid {now} (settled event s) v = settle_debit-IsValid s event now v
Step-IsValid {now} (applied event s) v = apply_fee_event-IsValid s v event now
Step-IsValid {now} (rebound from_id to_id s) v = rebind_reserve-IsValid s from_id to_id now v

pub reserves-ensure :
    (token : String) (now : ℕ) (s : Store)
    → (ensure_token token now s).1.fee_reserves ≡ s.fee_reserves
unfolding ensure_token
reserves-ensure token now s = ground arith

pub reserves-grant :
    (now : ℕ) (s : Store) → (grant_starter_if_needed now s).1.fee_reserves ≡ s.fee_reserves
unfolding grant_starter_if_needed
reserves-grant now s = ground arith

pub reserves-apply :
    (event : FeeEvent) (now : ℕ) (s : Store)
    → (apply_fee_event event now s).1.fee_reserves ≡ s.fee_reserves
unfolding apply_fee_event
reserves-apply event now s = ground arith

module _ (f : Reserve → ℕ) (now : ℕ) where
  pub sum-settle :
      (event : FeeEvent) (s : Store)
      → select_sum f (is_open now) (settle_debit event now s).1.fee_reserves
        ≤ select_sum f (is_open now) s.fee_reserves
  unfolding settle_debit expire_reserves
  sum-settle event s =
      elim event.kind
        as (λ k.
          select_sum f (is_open now) (settle event now s k).1.fee_reserves
          ≤ select_sum f (is_open now) s.fee_reserves) [
            | credit ↦ rw reserves-apply (le_refl _)
            | debit ↦ rw reserves-apply (
                le_trans
                  (select_sum-delete-le f (is_open now) _
                    (delete_where (is_expired now) s.fee_reserves))
                  (select_sum-delete-le f (is_open now) (is_expired now) s.fee_reserves))
          ]

pub held-rebind-le :
    (g : ℕ → ℕ) (now : ℕ) (from_id to_id : String) (s : Store)
    → IsValid s
    → held g now (rebind_reserve from_id to_id now s).1 ≤ held g now s
held-rebind-le g now from_id to_id s v =
    elim (Option-cases (select_first (has_id from_id) s.fee_reserves)) [
      | inl missing ↦ ground (arith, rebind_iff from_id to_id now s)
      | inr (row, found) ↦ elim (Bool-cases (rebind_reserve from_id to_id now s).0) [
        | inl did ↦ omega (arith, (rebind_moves from_id to_id now s g row v found did).2)
        | inr not_done ↦ rw ((rebind_iff from_id to_id now s).1 not_done) (le_refl _)
      ]
    ]

-- At most four reserves are open.
abbrev pub IsCapped : ℕ → Store → Type 0
IsCapped now s = get_open_reserve_count now s ≤ max_concurrent_fee_reserves

pub Step-IsCapped :
    {now : ℕ} {s t : Store} → Step now s t → IsValid s → IsCapped now s → IsCapped now t
unfolding release expire_reserves
Step-IsCapped {now} (ensured token s) v h = rw reserves-ensure h
Step-IsCapped {now} (granted s) v h = rw reserves-grant h
Step-IsCapped {now} (reserved id lamports ttl s pos_ttl) v h = ground (
  arith,
  sum-reserve (λ _. 1) id lamports ttl now s v pos_ttl,
  reserve_iff id lamports ttl now s v,
)
Step-IsCapped {now} (released id s) v h =
    le_trans (select_sum-delete-le (λ _. 1) (is_open now) (has_id id) s.fee_reserves) h
Step-IsCapped {now} (expired s) v h =
    le_trans (select_sum-delete-le (λ _. 1) (is_open now) (is_expired now) s.fee_reserves) h
Step-IsCapped {now} (settled event s) v h = le_trans (sum-settle (λ _. 1) now event s) h
Step-IsCapped {now} (applied event s) v h = rw reserves-apply h
Step-IsCapped {now} (rebound from_id to_id s) v h =
    le_trans (held-rebind-le (λ _. 1) now from_id to_id s v) h

-- Fewer rows are open later.
pub IsCapped-later : (now later : ℕ) (s : Store) → now ≤ later → IsCapped now s → IsCapped later s
IsCapped-later now later s h k =
    le_trans
      (select_sum_mono (λ _. 1) (is_open later) (is_open now) s.fee_reserves (λ r e. ground arith))
      k

pub IsValid-after :
    {now : ℕ} {s : Store} {later : ℕ} {t : Store} → Run now s later t → IsValid s → IsValid t
IsValid-after here v = v
IsValid-after (next r _ st) v = Step-IsValid st (IsValid-after r v)

-- From tables with unique keys, reserves that hold something, and at most four of them open, any
-- calls in any order, at times that do not go back, lead to such tables again.
pub Run-IsValid :
    {now : ℕ} {s : Store} {later : ℕ} {t : Store}
    → Run now s later t
    → IsValid s
    → IsCapped now s
    → IsValid t × IsCapped later t
Run-IsValid here v h = (v, h)
Run-IsValid (next {before} {later} {t} r le st) v h =
    let (w, k) = Run-IsValid r v h in
    (Step-IsValid st w, Step-IsCapped st w (IsCapped-later before later t le k))
