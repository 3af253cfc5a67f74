-- ===== src/TokenStore/Once.antt =====
-- token-store.ts: what happens once over any sequence of calls: a fee event, the starter credit,
-- the binding to a token.
use phygital_wallet.Common.{
  ℕ, String, ◌≡◌, refl, true, false, some, List, [], ◌∷◌, arith, ◌==◌, eq_iff, eq_refl, ℤ, pos_part,
  select_first, inl, inr, Option-cases, if◌then◌else◌, select_first-some-append,
  select_first-none-append, Bool-cases,
}
use phygital_wallet.TokenStore.{
  Store, FeeEvent, EventRow, MetaRow, credit, debit, ensure_token, grant_starter_if_needed, reserve,
  release, expire_reserves, settle_debit, apply_fee_event, rebind_reserve, admit, has_signature,
  settle, delete_reserve, meta_value, has_key, set_meta, thrown, done, token_mismatch, event_row,
}
use phygital_wallet.TokenStore.Ledger.{
  Journals, Journals-refl, Journals-trans, Journals-same, apply_fee_event-Journals,
  settle_debit-Journals, grant_starter_if_needed-Journals, ensure_token-Journals, starters_left,
  meta-set_meta,
}
use phygital_wallet.TokenStore.Run.{
  Step, ensured, granted, reserved, released, expired, settled, applied, rebound, Run, here, next,
}

-- `reserve` and `rebindReserve` touch no other table.
abbrev pub SameTables : Store → Store → Type 0
SameTables s t = (t.fee_events ≡ s.fee_events) × (t.fee_balance ≡ s.fee_balance) × (t.meta ≡ s.meta)

SameTables-admit :
    (id : String) (lamports ttl now : ℕ) (s : Store) → SameTables s (admit id lamports ttl now s).1
unfolding admit
SameTables-admit id lamports ttl now s = ground arith

pub SameTables-reserve :
    (id : String) (lamports : ℤ) (ttl now : ℕ) (s : Store)
    → SameTables s (reserve id lamports ttl now s).1
unfolding reserve
SameTables-reserve id lamports ttl now s = ground (
  arith,
  SameTables-admit id (pos_part lamports) ttl now s,
  SameTables-admit id (pos_part lamports) ttl now (delete_reserve id s),
)

pub SameTables-rebind :
    (from_id to_id : String) (now : ℕ) (s : Store)
    → SameTables s (rebind_reserve from_id to_id now s).1
unfolding rebind_reserve
SameTables-rebind from_id to_id now s = ground arith

meta-apply :
    (event : FeeEvent) (now : ℕ) (s : Store) → (apply_fee_event event now s).1.meta ≡ s.meta
unfolding apply_fee_event
meta-apply event now s = ground arith

meta-settle : (event : FeeEvent) (now : ℕ) (s : Store) → (settle_debit event now s).1.meta ≡ s.meta
unfolding settle_debit expire_reserves
meta-settle event now s = elim event.kind as (λ k. (settle event now s k).1.meta ≡ s.meta) [
  | credit ↦ meta-apply event now s
  | debit ↦ meta-apply event now _
]

Journals-of_SameTables : {s t : Store} → SameTables s t → Journals s t
Journals-of_SameTables (e, b, m) = Journals-same e b m

pub Step-Journals : {now : ℕ} {s t : Store} → Step now s t → Journals s t
unfolding release expire_reserves
Step-Journals {now} (ensured token s) = ensure_token-Journals token now s
Step-Journals {now} (granted s) = grant_starter_if_needed-Journals now s
Step-Journals {now} (reserved id lamports ttl s _) =
    Journals-of_SameTables (SameTables-reserve id lamports ttl now s)
Step-Journals (released id s) = Journals-same refl refl refl
Step-Journals (expired s) = Journals-same refl refl refl
Step-Journals {now} (settled event s) = settle_debit-Journals event now s
Step-Journals {now} (applied event s) = apply_fee_event-Journals event now s
Step-Journals {now} (rebound from_id to_id s) =
    Journals-of_SameTables (SameTables-rebind from_id to_id now s)

-- The ledger refines its journal: over any calls the event table only grows at its end, the balance
-- is what the new entries make of the old one (debits stop at 0), and the starter credit is among
-- them at most as often as the flag still allowed, once at most.
pub Run-Journals : {now : ℕ} {s : Store} {later : ℕ} {t : Store} → Run now s later t → Journals s t
Run-Journals {s} here = Journals-refl s
Run-Journals (next r _ st) = Journals-trans (Run-Journals r) (Step-Journals st)

apply_logged :
    (event : FeeEvent) (now : ℕ) (s : Store) (row : EventRow)
    → select_first (has_signature event.signature) s.fee_events ≡ some row
    → apply_fee_event event now s ≡ (false, s)
unfolding apply_fee_event
apply_logged event now s row h = ground arith

logged_by_apply :
    (event : FeeEvent) (now : ℕ) (s : Store)
    → (apply_fee_event event now s).0 ≡ true
    → select_first (has_signature event.signature) (apply_fee_event event now s).1.fee_events
      ≡ some (event_row event now)
unfolding apply_fee_event
logged_by_apply event now s h = ground (
  arith,
  select_first-none-append (has_signature event.signature) s.fee_events (event_row event now),
  eq_refl event.signature,
)

-- A fee event counts once: after it is applied, an event of the same signature, whatever its kind
-- and amount, is refused and changes nothing, however many calls lie between.
pub apply_once :
    (event again : FeeEvent) (now : ℕ) (s : Store) {later : ℕ} {t : Store} (retry : ℕ)
    → again.signature ≡ event.signature
    → (apply_fee_event event now s).0 ≡ true
    → Run now (apply_fee_event event now s).1 later t
    → apply_fee_event again retry t ≡ (false, t)
apply_once event again now s {t} retry same took r =
    let j = Run-Journals r in
    apply_logged again retry t (event_row event now) (
      rw (same, j.appended)
        (select_first-some-append (has_signature event.signature) _ _ _
          (logged_by_apply event now s took)))

flag_down :
    (now : ℕ) (s : Store) (flag : String)
    → meta_value "starter_granted" s ≡ some flag
    → starters_left (grant_starter_if_needed now s).1 ≡ 0
unfolding grant_starter_if_needed
flag_down now s flag h = elim (Option-cases (select_first (has_key "starter_granted") s.meta)) [
  | inl missing ↦ ground arith
  | inr (r, found) ↦ ground (arith, meta-set_meta "1" s.meta r found)
]

not_granted :
    (now : ℕ) (s : Store) → starters_left s ≡ 0 → grant_starter_if_needed now s ≡ (false, s)
unfolding grant_starter_if_needed
not_granted now s h = ground arith

-- On provisioned storage the first call for the starter credit is the last that can give it: after
-- it, whether it gave the credit or found a balance, no later call gives anything or changes the
-- ledger.
pub starter_once :
    (now : ℕ) (s : Store) (flag : String) {later : ℕ} {t : Store} (retry : ℕ)
    → meta_value "starter_granted" s ≡ some flag
    → Run now (grant_starter_if_needed now s).1 later t
    → grant_starter_if_needed retry t ≡ (false, t)
starter_once now s flag {t} retry provisioned r =
    not_granted retry t (omega (arith, (Run-Journals r).once, flag_down now s flag provisioned))

-- Rewriting the value of a row with another key is not seen.
rekeyed :
    (value : String) (x : MetaRow)
    → has_key "starter_granted" x ≡ true
    → has_key "phygital_token" x ≡ false
rekeyed value x h = rw ((eq_iff x.key "starter_granted").0 h)

token_row :
    (value : String) (rows : List MetaRow)
    → select_first (has_key "phygital_token") (set_meta "starter_granted" value rows)
      ≡ select_first (has_key "phygital_token") rows
unfolding set_meta
token_row value [] = refl
token_row value (x ∷ xs) = elim (Bool-cases (has_key "starter_granted" x)) [
  | inl flag ↦ rw (flag, rekeyed value x flag) (token_row value xs)
  | inr other ↦ rw other (ground (arith, token_row value xs))
]

abbrev pub IsBound : String → Store → Type 0
IsBound token s = meta_value "phygital_token" s ≡ some token

IsBound-same : {token : String} (s t : Store) → t.meta ≡ s.meta → IsBound token s → IsBound token t
unfolding meta_value
IsBound-same s t m h = ground arith

Step-IsBound :
    {token : String} {now : ℕ} {s t : Store} → Step now s t → IsBound token s → IsBound token t
unfolding release expire_reserves meta_value
Step-IsBound {now} (ensured other s) h = unfold ensure_token in ground arith
Step-IsBound {now} (granted s) h =
    unfold grant_starter_if_needed in ground (arith, token_row "1" s.meta)
Step-IsBound {now} (reserved id lamports ttl s _) h =
    IsBound-same s (reserve id lamports ttl now s).1 (SameTables-reserve id lamports ttl now s).2 h
Step-IsBound (released id s) h = h
Step-IsBound (expired s) h = h
Step-IsBound {now} (settled event s) h =
    IsBound-same s (settle_debit event now s).1 (meta-settle event now s) h
Step-IsBound {now} (applied event s) h =
    IsBound-same s (apply_fee_event event now s).1 (meta-apply event now s) h
Step-IsBound {now} (rebound from_id to_id s) h =
    IsBound-same s (rebind_reserve from_id to_id now s).1 (SameTables-rebind from_id to_id now s).2
      h

Run-IsBound :
    {token : String} {now : ℕ} {s : Store} {later : ℕ} {t : Store}
    → Run now s later t
    → IsBound token s
    → IsBound token t
Run-IsBound here h = h
Run-IsBound (next r _ st) h = Step-IsBound st (Run-IsBound r h)

-- Storage that is bound to a token stays bound to it: whatever was called before, `ensureToken`
-- accepts that token and throws on any other, and changes nothing in either case.
pub binding_lasts :
    (token other : String) {now : ℕ} {s : Store} {later : ℕ} {t : Store} (retry : ℕ)
    → IsBound token s
    → Run now s later t
    → ensure_token other retry t ≡ ((if token == other then done else thrown token_mismatch), t)
binding_lasts token other retry h r = let k = Run-IsBound r h in unfold ensure_token in ground arith
