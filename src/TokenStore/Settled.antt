-- ===== src/TokenStore/Settled.antt =====
-- token-store.ts: a fee event that the journal has, or whose amount is not positive.
use mathlib.Core.List.{append-nil, append_assoc}
use phygital_wallet.Common.{
  ℕ, ◌≡◌, refl, sym, ◌∙◌, ◌⊎◌, inl, inr, false, some, List, [], ◌++◌, arith, eq_refl, is_positive,
  select_first, Bool-cases, Option-cases, select_first-some-append, select_first-none-append,
}
use phygital_wallet.TokenStore.{
  Store, FeeEvent, EventRow, credit, debit, has_signature, event_row, apply_fee_event, settle,
  settle_debit, expire_reserves,
}
use phygital_wallet.TokenStore.Ledger.{Journals, rows_of}

abbrev pub Settled : FeeEvent → Store → Type 0
Settled event s =
    (is_positive event.lamports ≡ false)
    ⊎ ((row : EventRow) × (select_first (has_signature event.signature) s.fee_events ≡ some row))

abbrev pub SameLedger : Store → Store → Type 0
SameLedger s t = (t.fee_events ≡ s.fee_events) × (t.fee_balance ≡ s.fee_balance)

pub record Grows (s t : Store) : Type 0 where
  pub rows : List EventRow
  pub appended : t.fee_events ≡ s.fee_events ++ rows

pub Grows-refl : (s : Store) → Grows s s
Grows-refl s = record { rows = []; appended = sym (append-nil _) }

pub Grows-trans : {s t u : Store} → Grows s t → Grows t u → Grows s u
Grows-trans g h = record {
  rows = g.rows ++ h.rows;
  appended = rw (h.appended, g.appended, append_assoc);
}

pub Grows-of_Journals : {s t : Store} → Journals s t → Grows s t
Grows-of_Journals j = record { rows = rows_of j.entries; appended = j.appended }

pub Grows-of_SameLedger : (s t : Store) → SameLedger s t → Grows s t
Grows-of_SameLedger s t (e, _) = record { rows = []; appended = e ∙ sym (append-nil _) }

pub Settled-Grows : (event : FeeEvent) {s t : Store} → Settled event s → Grows s t → Settled event t
Settled-Grows event (inl bad) g = inl bad
Settled-Grows event (inr (row, e)) g =
    inr
      (row, rw g.appended (select_first-some-append (has_signature event.signature) _ g.rows row e))

pub Settled-apply :
    (event : FeeEvent) (now : ℕ) (s : Store) → Settled event (apply_fee_event event now s).1
unfolding apply_fee_event
Settled-apply event now s = elim (Bool-cases (is_positive event.lamports)) [
  | inr bad ↦ inl bad
  | inl good ↦ elim (Option-cases (select_first (has_signature event.signature) s.fee_events)) [
    | inr (row, old) ↦ inr (row, rw (good, old) old)
    | inl new ↦ inr (
      event_row event now,
      rw (good, new)
          (select_first-none-append (has_signature event.signature) s.fee_events
              (event_row event now) new
            ∙ rw (eq_refl event.signature) refl),
    )
  ]
]

pub Settled-settle :
    (event : FeeEvent) (now : ℕ) (s : Store) → Settled event (settle_debit event now s).1
unfolding settle_debit
Settled-settle event now s = elim event.kind as (λ k. Settled event (settle event now s k).1) [
  | credit ↦ Settled-apply event now s
  | debit ↦ Settled-apply event now _
]

pub apply-Settled :
    (event : FeeEvent) (now : ℕ) (s : Store)
    → Settled event s
    → apply_fee_event event now s ≡ (false, s)
unfolding apply_fee_event
apply-Settled event now s (inl bad) = rw bad refl
apply-Settled event now s (inr (row, old)) = ground arith

-- A second debit still drops the reserve of its signature.
pub settle-Settled :
    (event : FeeEvent) (now : ℕ) (s : Store)
    → Settled event s
    → (t : Store) × (settle_debit event now s ≡ (false, t)) × SameLedger s t
unfolding settle_debit expire_reserves
settle-Settled event now s h =
    elim event.kind as (λ k. (t : Store) × (settle event now s k ≡ (false, t)) × SameLedger s t) [
      | credit ↦ (s, apply-Settled event now s h, (refl, refl))
      | debit ↦ (_, apply-Settled event now _ h, (refl, refl))
    ]
