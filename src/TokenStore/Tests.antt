-- ===== src/TokenStore/Tests.antt =====
-- The ledger on concrete storage: tests, and the theorems at inputs that meet their hypotheses.
use phygital_wallet.Common.{
  ℕ, ◌+◌, ◌-◌, ◌≤◌, ◌<◌, String, ◌≡◌, ◌≢◌, ◌↔◌, ◌⊎◌, refl, true, false, not, ◌&&◌, none, some, [],
  ◌∷◌, arith, pos, is_positive, All, length, select_first, is_none, if◌then◌else◌,
}
use phygital_wallet.TokenStore.{
  Store, FeeEvent, credit, debit, thrown, token_mismatch, init_token_schema, ensure_token, reserve,
  admit, expire_reserves, rebind_reserve, settle_debit, apply_fee_event, grant_starter_if_needed,
  next_reserve_expiry, strip_debit, meta_value, has_id, get_available_lamports,
  get_reserved_lamports, get_open_reserve_count, get_fee_balance_lamports,
}
use phygital_wallet.TokenStore.Reserves.{IsValid}
use phygital_wallet.TokenStore.Admission.{
  holds, HasRoom, reserve_iff, reserved-reserve, reserve_idempotent,
}
use phygital_wallet.TokenStore.Expiry.{
  expire_exact, rebind_iff, rebind_moves, held, next_reserve_expiry_exact, IsEarliest,
}
use phygital_wallet.TokenStore.Ledger.{Journals}
use phygital_wallet.TokenStore.Run.{
  Run, here, next, reserved, rebound, settled, IsCapped, Run-IsValid,
}
use phygital_wallet.TokenStore.Once.{Run-Journals, apply_once, starter_once, binding_lasts, IsBound}
use phygital_wallet.TokenStore.Cover.{
  IsCovered, Run-IsCovered, held_by, settle_exact, settle-IsCovered,
}

-- The storage of a token whose starter credit was given.
abbrev funded : Store
funded = record {
  meta =
      record { key = "phygital_token"; value = "token" }
      ∷ record { key = "starter_granted"; value = "1" }
      ∷ [];
  fee_balance = some (record { balance_lamports = 1000000; updated_at = 5 });
  fee_events = [];
  fee_reserves = [];
}

-- One reserve is bound to a transaction's signature, and one has expired.
abbrev busy : Store
busy = record funded {
  fee_reserves =
      record { id = "old"; lamports = 100000; created_at = 0; expires_at = 9 }
      ∷ record { id = "sig"; lamports = 100000; created_at = 0; expires_at = 50 }
      ∷ [];
}

abbrev spent : FeeEvent
spent = record { signature = "sig:debit"; kind = debit; lamports = pos 5000 }

abbrev topped_up : FeeEvent
topped_up = record { signature = "sig:credit"; kind = credit; lamports = pos 7 }

provisioning : (ensure_token "token" 5 init_token_schema).1 ≡ record {
  meta =
      record { key = "phygital_token"; value = "token" }
      ∷ record { key = "starter_granted"; value = "0" }
      ∷ [];
  fee_balance = some (record { balance_lamports = 0; updated_at = 5 });
  fee_events = [];
  fee_reserves = [];
}
unfolding ensure_token
provisioning = refl

starter_test :
    (grant_starter_if_needed 5 (ensure_token "token" 5 init_token_schema).1) ≡ (true, funded)
unfolding ensure_token grant_starter_if_needed
starter_test = refl

refused : (reserve "new" (pos 900001) 90000 10 busy) ≡ (false, busy)
unfolding reserve admit
refused = refl

settled_test : (settle_debit spent 10 busy).1 ≡ record funded {
  fee_balance = some (record { balance_lamports = 995000; updated_at = 10 });
  fee_events =
      record { signature = "sig:debit"; kind = debit; lamports = 5000; created_at = 10 } ∷ [];
}
unfolding settle_debit expire_reserves apply_fee_event strip_debit
settled_test = refl

stripped : strip_debit "a:debit:debit" ≡ "a:debit"
unfolding strip_debit
stripped = refl

next_alarm : next_reserve_expiry 10 busy ≡ some 50
unfolding next_reserve_expiry
next_alarm = refl

busy-IsValid : IsValid busy
busy-IsValid = record { ids = (refl, (refl, tt)); signatures = tt; amounts = omega arith }

abbrev reserved_store : Store
reserved_store = (reserve "hash" (pos 100000) 90000 10 busy).1

abbrev rebound_store : Store
rebound_store = (rebind_reserve "hash" "sig2" 20 reserved_store).1

-- A transaction is reserved at 10 and bound to its signature at 20.
abbrev signing : Run 10 busy 20 rebound_store
signing =
    next (next here (omega arith) (reserved "hash" (pos 100000) 90000 busy (omega arith)))
      (omega arith) (rebound "hash" "sig2" reserved_store)

Run-IsValid_example : IsValid rebound_store × IsCapped 20 rebound_store
Run-IsValid_example = Run-IsValid signing busy-IsValid (omega arith)

Run-IsCovered_example : IsCovered 20 rebound_store
Run-IsCovered_example = Run-IsCovered signing ((tt, λ x. x), λ x. x) busy-IsValid (omega arith)

Run-Journals_example : Journals busy rebound_store
Run-Journals_example = Run-Journals signing

reserve_iff_example : ((reserve "hash" (pos 100000) 90000 10 busy).0 ≡ true) ↔ (
    (is_positive (pos 100000) ≡ true)
    × (◌≢◌ {A = String} "hash" "")
    × ((holds "hash" 10 busy ≡ true) ⊎ HasRoom 100000 10 busy))
reserve_iff_example = reserve_iff "hash" (pos 100000) 90000 10 busy busy-IsValid

reserved-reserve_example :
    (get_reserved_lamports 10 reserved_store
      ≡ get_reserved_lamports 10 busy
        + (if (reserve "hash" (pos 100000) 90000 10 busy).0 && not (holds "hash" 10 busy)
            then 100000
            else 0))
    × (get_fee_balance_lamports reserved_store ≡ get_fee_balance_lamports busy)
reserved-reserve_example =
    reserved-reserve "hash" (pos 100000) 90000 10 busy busy-IsValid (omega arith)

admitted : (reserve "hash" (pos 100000) 90000 10 busy).0 ≡ true
unfolding reserve admit
admitted = refl

reserve_idempotent_example : reserve "hash" (pos 1) 7 10 reserved_store ≡ (true, reserved_store)
reserve_idempotent_example =
    reserve_idempotent "hash" (pos 100000) (pos 1) 90000 7 10 busy (omega arith) refl admitted

expire_exact_example :
    All (λ r. 10 < r.expires_at) (expire_reserves 10 busy).1.fee_reserves
    × (length (expire_reserves 10 busy).1.fee_reserves + (expire_reserves 10 busy).0
        ≡ length (busy.fee_reserves))
    × (get_open_reserve_count 12 (expire_reserves 10 busy).1 ≡ get_open_reserve_count 12 busy)
    × (get_available_lamports 12 (expire_reserves 10 busy).1 ≡ get_available_lamports 12 busy)
expire_exact_example = expire_exact 10 12 busy (omega arith)

moved : (rebind_reserve "sig" "sig2" 20 busy).0 ≡ true
unfolding rebind_reserve
moved = refl

rebind_moves_example :
    (select_first (has_id "sig") (rebind_reserve "sig" "sig2" 20 busy).1.fee_reserves ≡ none)
    × (select_first (has_id "sig2") (rebind_reserve "sig" "sig2" 20 busy).1.fee_reserves ≢ none)
    × (held (λ n. n) 20 (rebind_reserve "sig" "sig2" 20 busy).1
          + (if is_none (select_first (has_id "sig2") (busy.fee_reserves)) then 0 else 100000)
        ≡ held (λ n. n) 20 busy)
rebind_moves_example =
    rebind_moves "sig" "sig2" 20 busy (λ n. n)
      (record { id = "sig"; lamports = 100000; created_at = 0; expires_at = 50 }) busy-IsValid refl
      moved

took : (apply_fee_event topped_up 10 busy).0 ≡ true
unfolding apply_fee_event
took = refl

apply_once_example :
    apply_fee_event topped_up 30 (apply_fee_event topped_up 10 busy).1
    ≡ (false, (apply_fee_event topped_up 10 busy).1)
apply_once_example = apply_once topped_up topped_up 10 busy 30 refl took here

-- The storage of a token that has not had its starter credit.
abbrev provisioned : Store
provisioned = (ensure_token "token" 5 init_token_schema).1

flag : meta_value "starter_granted" provisioned ≡ some "0"
unfolding meta_value ensure_token
flag = refl

grants : (grant_starter_if_needed 10 provisioned).0 ≡ true
unfolding grant_starter_if_needed ensure_token
grants = refl

-- The balance is spent again after the starter credit.
abbrev spent_again : Store
spent_again = (settle_debit spent 20 (grant_starter_if_needed 10 provisioned).1).1

starter_once_example : grant_starter_if_needed 30 spent_again ≡ (false, spent_again)
starter_once_example =
    starter_once 10 provisioned "0" 30 flag (next here (omega arith) (settled spent _))

bound : IsBound "token" busy
unfolding meta_value
bound = refl

binding_lasts_example :
    ensure_token "other" 30 rebound_store ≡ (thrown token_mismatch, rebound_store)
binding_lasts_example = binding_lasts "token" "other" 30 bound signing

settle_exact_example :
    (get_reserved_lamports 10 (settle_debit spent 10 busy).1
        + held_by (strip_debit "sig:debit") 10 (busy.fee_reserves)
      ≡ get_reserved_lamports 10 busy)
    × (get_fee_balance_lamports (settle_debit spent 10 busy).1 ≡ (
        if (settle_debit spent 10 busy).0
        then get_fee_balance_lamports busy - 5000
        else get_fee_balance_lamports busy))
settle_exact_example = settle_exact spent 10 busy busy-IsValid refl

holds_enough : 5000 ≤ held_by (strip_debit "sig:debit") 10 (busy.fee_reserves)
unfolding strip_debit
holds_enough = omega arith

settle-IsCovered_example :
    IsCovered 10 (settle_debit spent 10 busy).1
    × (get_available_lamports 10 busy ≤ get_available_lamports 10 (settle_debit spent 10 busy).1)
settle-IsCovered_example =
    settle-IsCovered spent 10 busy busy-IsValid (omega arith) refl holds_enough

next_reserve_expiry_exact_example :
    ((t : ℕ) → next_reserve_expiry 10 busy ≡ some t → IsEarliest 10 (busy.fee_reserves) t)
    × ((next_reserve_expiry 10 busy ≡ none) ↔ (get_open_reserve_count 10 busy ≡ 0))
next_reserve_expiry_exact_example = next_reserve_expiry_exact 10 busy

rebind_iff_example :
    (((rebind_reserve "sig" "sig2" 20 busy).0 ≡ true) ↔ (
      (◌≢◌ {A = String} "sig" "")
      × (◌≢◌ {A = String} "sig2" "")
      × (◌≢◌ {A = String} "sig" "sig2")
      × (holds "sig" 20 busy ≡ true)))
    × ((rebind_reserve "sig" "sig2" 20 busy).0 ≡ false
        → (rebind_reserve "sig" "sig2" 20 busy).1 ≡ busy)
rebind_iff_example = rebind_iff "sig" "sig2" 20 busy
