-- ===== src/TokenStore/Cover.antt =====
-- token-store.ts: what is set aside against what is there.
use mathlib.Core.Path.{subst}
use native.Mathlib.Nat.{le_trans}
use phygital_wallet.Common.{
  ℕ, ◌+◌, ◌≤◌, ◌-◌, String, ◌≡◌, refl, true, Bool, none, some, List, [], ◌∷◌, arith, ◌==◌, eq_iff,
  pos_part, select_first, inl, inr, ap, sym, Bool-cases, if◌then◌else◌, ◌&&◌, select_sum,
  delete_where, IsKeyed, select_sum_mono, select_sum-delete-le,
}
use phygital_wallet.TokenStore.{
  Store, Reserve, FeeEvent, credit, debit, ensure_token, grant_starter_if_needed, release,
  expire_reserves, settle_debit, apply_fee_event, settle, strip_debit, is_open, has_id, is_expired,
  get_fee_balance_lamports, get_reserved_lamports, get_available_lamports,
}
use phygital_wallet.TokenStore.Reserves.{IsValid}
use phygital_wallet.TokenStore.Admission.{reserve_iff, reserved-reserve}
use phygital_wallet.TokenStore.Run.{
  Step, ensured, granted, reserved, released, expired, settled, applied, rebound, Run, here, next,
  held-rebind-le, reserves-ensure, reserves-grant, reserves-apply, IsValid-after,
}
use phygital_wallet.TokenStore.Once.{SameTables-rebind}

-- The open reserves do not exceed the balance.
abbrev pub IsCovered : ℕ → Store → Type 0
IsCovered now s = get_reserved_lamports now s ≤ get_fee_balance_lamports s

-- A debit event is booked.
abbrev pub Spends : {now : ℕ} {s t : Store} → Step now s t → Type 0
Spends (settled event s) = event.kind ≡ debit
Spends (applied event s) = event.kind ≡ debit
Spends _ = ⊥

balance-ensure :
    (token : String) (now : ℕ) (s : Store)
    → get_fee_balance_lamports (ensure_token token now s).1 ≡ get_fee_balance_lamports s
unfolding ensure_token
balance-ensure token now s = ground arith

balance-grant :
    (now : ℕ) (s : Store)
    → get_fee_balance_lamports s ≤ get_fee_balance_lamports (grant_starter_if_needed now s).1
unfolding grant_starter_if_needed
balance-grant now s = ground arith

balance-apply :
    (event : FeeEvent) (now : ℕ) (s : Store)
    → get_fee_balance_lamports (apply_fee_event event now s).1 ≡ (
        if (apply_fee_event event now s).0
        then elim event.kind [
          | credit ↦ get_fee_balance_lamports s + pos_part event.lamports
          | debit ↦ get_fee_balance_lamports s - pos_part event.lamports
        ]
        else get_fee_balance_lamports s)
unfolding apply_fee_event
balance-apply event now s = ground arith

settle-credit :
    (event : FeeEvent) (now : ℕ) (s : Store)
    → event.kind ≡ credit
    → settle_debit event now s ≡ apply_fee_event event now s
unfolding settle_debit
settle-credit event now s h = ap (settle event now s) h

-- No call but a debit lets the open reserves exceed the balance.
pub Step-IsCovered :
    {now : ℕ} {s t : Store} (st : Step now s t)
    → (Spends st → ⊥)
    → IsValid s
    → IsCovered now s
    → IsCovered now t
unfolding release expire_reserves
Step-IsCovered {now} (ensured token s) c v h =
    ground (arith, balance-ensure token now s, reserves-ensure token now s)
Step-IsCovered {now} (granted s) c v h = ground (arith, balance-grant now s, reserves-grant now s)
Step-IsCovered {now} (reserved id lamports ttl s p) c v h =
    ground (arith, reserved-reserve id lamports ttl now s v p, reserve_iff id lamports ttl now s v)
Step-IsCovered {now} (released id s) c v h =
    le_trans (select_sum-delete-le (λ r. r.lamports) (is_open now) (has_id id) s.fee_reserves) h
Step-IsCovered {now} (expired s) c v h =
    le_trans (select_sum-delete-le (λ r. r.lamports) (is_open now) (is_expired now) s.fee_reserves)
      h
Step-IsCovered {now} (settled event s) c v h =
    let k : event.kind ≡ credit = ground arith in
    rw (settle-credit event now s k)
      (ground (arith, balance-apply event now s, reserves-apply event now s))
Step-IsCovered {now} (applied event s) c v h =
    ground (arith, balance-apply event now s, reserves-apply event now s)
Step-IsCovered {now} (rebound from_id to_id s) c v h =
    ground
      (arith, held-rebind-le (λ n. n) now from_id to_id s v, SameTables-rebind from_id to_id now s)

-- What the row of an id holds back.
abbrev pub held_by : String → ℕ → List Reserve → ℕ
held_by id now rs = elim (select_first (has_id id) rs) [
  | none ↦ 0
  | some r ↦ if is_open now r then r.lamports else 0
]

held_once :
    (id : String) (now : ℕ) (r : Reserve) (rs : List Reserve)
    → select_first (λ x. x.id == r.id) rs ≡ none
    → has_id id r ≡ true
    → held_by id now rs ≡ 0
held_once id now r rs v h = rw (← (eq_iff r.id id).0 h) (rw (v, held_by))

sum-unbind :
    (id : String) (now : ℕ) (rs : List Reserve)
    → IsKeyed (λ (r : Reserve). r.id) rs
    → select_sum
          (λ r. r.lamports)
          (is_open now)
          (delete_where (λ r. has_id id r && is_open now r) (delete_where (is_expired now) rs))
        + held_by id now rs
      ≡ select_sum (λ r. r.lamports) (is_open now) rs
sum-unbind id now [] v = refl
sum-unbind id now (r ∷ rs) (v, vs) = elim (Bool-cases (has_id id r)) [
  | inl same ↦ ground (arith, sum-unbind id now rs vs, held_once id now r rs v same)
  | inr other ↦ ground (arith, sum-unbind id now rs vs)
]

-- On well-formed tables, settling a debit frees exactly what an open row held back under its
-- signature, booked or not, and takes the debit's amount, down to 0, from the balance when the event
-- is booked.
pub settle_exact :
    (event : FeeEvent) (now : ℕ) (s : Store)
    → IsValid s
    → event.kind ≡ debit
    → (get_reserved_lamports now (settle_debit event now s).1
          + held_by (strip_debit event.signature) now s.fee_reserves
        ≡ get_reserved_lamports now s)
      × (get_fee_balance_lamports (settle_debit event now s).1 ≡ (
          if (settle_debit event now s).0
          then get_fee_balance_lamports s - pos_part event.lamports
          else get_fee_balance_lamports s))
unfolding settle_debit expire_reserves
settle_exact event now s v h =
    let freed : Store = record s {
      fee_reserves =
          delete_where (λ r. has_id (strip_debit event.signature) r && is_open now r)
            (delete_where (is_expired now) s.fee_reserves);
    } in
    subst
      (λ (r : Bool × Store).
        (get_reserved_lamports now r.1 + held_by (strip_debit event.signature) now s.fee_reserves
          ≡ get_reserved_lamports now s)
        × (get_fee_balance_lamports r.1 ≡ (
            if r.0
            then get_fee_balance_lamports s - pos_part event.lamports
            else get_fee_balance_lamports s)))
      (sym (ap (settle event now s) h))
      (ground (
        arith,
        reserves-apply event now freed,
        balance-apply event now freed,
        sum-unbind (strip_debit event.signature) now s.fee_reserves v.ids,
      ))

-- On well-formed tables whose open reserves are covered, a debit within what its signature holds back
-- leaves the open reserves covered, and takes nothing from what is available.
pub settle-IsCovered :
    (event : FeeEvent) (now : ℕ) (s : Store)
    → IsValid s
    → IsCovered now s
    → event.kind ≡ debit
    → pos_part event.lamports ≤ held_by (strip_debit event.signature) now s.fee_reserves
    → IsCovered now (settle_debit event now s).1
      × (get_available_lamports now s ≤ get_available_lamports now (settle_debit event now s).1)
settle-IsCovered event now s v h k le = ground (arith, settle_exact event now s v k)

-- No call of the run books a debit.
abbrev pub Saves : {now : ℕ} {s : Store} {later : ℕ} {t : Store} → Run now s later t → Type 0
Saves here = Unit
Saves (next r _ st) = Saves r × (Spends st → ⊥)

pub IsCovered-later :
    (now later : ℕ) (s : Store) → now ≤ later → IsCovered now s → IsCovered later s
IsCovered-later now later s h k =
    le_trans
      (select_sum_mono (λ r. r.lamports) (is_open later) (is_open now) s.fee_reserves
        (λ r e. ground arith))
      k

-- From well-formed tables whose open reserves the balance covers, any calls in any order none of
-- which books a debit lead to tables whose open reserves the balance covers.
pub Run-IsCovered :
    {now : ℕ} {s : Store} {later : ℕ} {t : Store} (r : Run now s later t)
    → Saves r
    → IsValid s
    → IsCovered now s
    → IsCovered later t
Run-IsCovered here saves v h = h
Run-IsCovered (next {before} {later} {t} r le st) (saves, keeps) v h =
    Step-IsCovered st keeps (IsValid-after r v)
      (IsCovered-later before later t le (Run-IsCovered r saves v h))
