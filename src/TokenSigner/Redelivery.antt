-- ===== src/TokenSigner/Redelivery.antt =====
-- token-signer.ts: `applyFeeEvents` when it is called again with the events of an earlier call.
use mathlib.Core.Path.{subst}
use phygital_wallet.Common.{
  ℕ, String, ◌≡◌, refl, ◌∙◌, inl, inr, false, List, [], ◌∷◌, ◌++◌, All, All-map, ap, Bool,
  if◌then◌else◌,
}
use phygital_wallet.Errors.{Result, ok}
use phygital_wallet.TokenStore.{
  Store, FeeEvent, EventKind, credit, debit, apply_fee_event, settle_debit,
}
use phygital_wallet.TokenStore.Ledger.{Journals, apply_fee_event-Journals, settle_debit-Journals}
use phygital_wallet.TokenStore.Run.{Step}
use phygital_wallet.TokenStore.Once.{Step-Journals}
use phygital_wallet.TokenStore.Cover.{Spends}
use phygital_wallet.TokenStore.Settled.{
  Settled, SameLedger, Grows, Grows-refl, Grows-trans, Grows-of_Journals, Settled-Grows,
  Settled-apply, Settled-settle, apply-Settled, settle-Settled,
}
use phygital_wallet.TokenSigner.{
  Platform, Signer, get_token, get_store, schedule_reserve_alarm, apply_one, apply_events,
  apply_fee_events,
}
use phygital_wallet.TokenSigner.Runs.{anything, apply_fee_events-Keeps, apply_events-Keeps}
use phygital_wallet.TokenSigner.Opening.{
  HasToken, IsOpen, chain-eq-ok, get_token-open, get_token-HasToken, get_store-open,
  get_store-HasToken, chain-HasToken, schedule-opens, schedule-IsOpen,
}

Settled-same : (event : FeeEvent) (s t : Store) → SameLedger s t → Settled event s → Settled event t
Settled-same event s t (e, _) (inl bad) = inl bad
Settled-same event s t (e, _) (inr (row, h)) = inr (row, rw e h)

abbrev book : FeeEvent → ℕ → Store → EventKind → Bool × Store
book event now s debit = settle_debit event now s
book event now s credit = apply_fee_event event now s

module _ (p : Platform) (now : ℕ) where
  apply_events-HasToken :
      (events : List FeeEvent) (applied : List String) (s : Signer)
      → HasToken s
      → HasToken (apply_events p now events applied s).1
  unfolding apply_events
  apply_events-HasToken [] applied s h = h
  apply_events-HasToken (event ∷ events) applied s h =
      chain-HasToken (get_store p now s) _ (get_store-HasToken p now s h)
        (λ _ u k. apply_events-HasToken events _ _ k)

  apply_one-Settles : (event : FeeEvent) (s : Store) → Settled event (apply_one p now event s).1
  unfolding apply_one
  apply_one-Settles event s = elim event.kind as (λ k. Settled event (book event now s k).1) [
    | credit ↦ Settled-apply event now s
    | debit ↦ Settled-settle event now s
  ]

  apply_one-Grows : (event : FeeEvent) (s : Store) → Grows s (apply_one p now event s).1
  unfolding apply_one
  apply_one-Grows event s =
      Grows-of_Journals (elim event.kind as (λ k. Journals s (book event now s k).1) [
        | credit ↦ apply_fee_event-Journals event now s
        | debit ↦ settle_debit-Journals event now s
      ])

  apply_one-Settled :
      (event : FeeEvent) (s : Store)
      → Settled event s
      → (t : Store) × (apply_one p now event s ≡ (false, t)) × SameLedger s t
  unfolding apply_one
  apply_one-Settled event s h =
      elim event.kind as (λ k. (t : Store) × (book event now s k ≡ (false, t)) × SameLedger s t) [
        | credit ↦ (s, apply-Settled event now s h, (refl, refl))
        | debit ↦ settle-Settled event now s h
      ]

  step-Grows : (s t u : Store) → Grows s t → (st : Step now t u) → (Spends st → ⊥) → Grows s u
  step-Grows s t u g st _ = Grows-trans g (Grows-of_Journals (Step-Journals st))

  apply_events-Settles :
      (events : List FeeEvent) (applied sigs : List String) (s t : Signer)
      → apply_events p now events applied s ≡ (ok sigs, t)
      → All (λ e. Settled e t.store) events
  unfolding apply_events
  apply_events-Settles [] applied sigs s t e = tt
  apply_events-Settles (event ∷ events) applied sigs s t e =
      let (_, u, opened, rest) = chain-eq-ok (get_store p now s) _ e in
      let (took, store) = apply_one p now event u.store in
      let more =
        apply_events-Keeps p now (Grows store) (step-Grows store) (λ _. Unit {0})
          (λ ev t _ g. Grows-trans g (apply_one-Grows ev t)) events
          (if took then applied ++ event.signature ∷ [] else applied) (record u { store = store })
          (anything events) (Grows-refl store) in
      (
        Settled-Grows event (apply_one-Settles event u.store)
            (subst (λ (x : Result (List String) × Signer). Grows store x.1.store) rest more),
        apply_events-Settles events _ sigs _ t rest,
      )

  -- Every event of a call that answers is in the journal after it, and the object is open.
  pub apply_fee_events-Settles :
      (events : List FeeEvent) (s : Signer) {answer : ℕ × List String} {t : Signer}
      → apply_fee_events p now events s ≡ (ok answer, t)
      → All (λ e. Settled e t.store) events × IsOpen t
  unfolding apply_fee_events
  apply_fee_events-Settles events s {t} e =
      let (_, u, got, e1) = chain-eq-ok (get_token p now s) _ e in
      let (applied, v, booked, e2) = chain-eq-ok (apply_events p now events [] u) _ e1 in
      let (_, w, scheduled, e3) = chain-eq-ok (schedule_reserve_alarm p now v) _ e2 in
      let same : w ≡ t = ap (λ x. x.1) e3 in
      let h = apply_events-Settles events [] applied u v booked in
      let token =
        subst (λ (x : Result (List String) × Signer). HasToken x.1) booked
          (apply_events-HasToken events [] u (get_token-HasToken p now s u got)) in
      let (g, o) = schedule-opens p now v w token scheduled in
      (
        subst (λ (x : Signer). All (λ ev. Settled ev x.store) events) same
            (All-map _ _ events (λ ev k. Settled-Grows ev k g) h),
        subst IsOpen same o,
      )

  pub apply_fee_events-Grows :
      (events : List FeeEvent) (s : Signer)
      → Grows s.store (apply_fee_events p now events s).1.store
  apply_fee_events-Grows events s =
      apply_fee_events-Keeps p now (Grows s.store) (step-Grows s.store) (λ _. Unit {0})
        (λ event t _ g. Grows-trans g (apply_one-Grows event t)) events s (anything events)
        (Grows-refl s.store)

  -- Events that are all in the journal are refused, and the ledger stays.
  apply_events-Settled :
      (events : List FeeEvent) (applied : List String) (s : Signer)
      → IsOpen s
      → All (λ e. Settled e s.store) events
      → (t : Signer) × (apply_events p now events applied s ≡ (ok applied, t))
        × SameLedger s.store t.store
        × IsOpen t
  unfolding apply_events
  apply_events-Settled [] applied s o h = (s, refl, (refl, refl), o)
  apply_events-Settled (event ∷ events) applied s o (h, hs) =
      let (u, e, same) = apply_one-Settled event s.store h in
      let (t, f, same', o') =
        apply_events-Settled events applied (record s { store = u }) o
          (All-map _ _ events (λ ev. Settled-same ev s.store u same) hs) in
      (t, rw (get_store-open p now s o, e, f) refl, (same'.0 ∙ same.0, same'.1 ∙ same.1), o')

  pub apply_fee_events-Settled :
      (events : List FeeEvent) (s : Signer)
      → IsOpen s
      → All (λ e. Settled e s.store) events
      → (t : Signer) × (apply_fee_events p now events s ≡ (ok (0, []), t))
        × SameLedger s.store t.store
        × IsOpen t
  unfolding apply_fee_events
  apply_fee_events-Settled events s o h =
      let (_, e) = get_token-open p now s o.1 in
      let (t, f, same, o') = apply_events-Settled events [] s o h in
      let (w, n, kept, o'') = schedule-IsOpen p now t o' in
      (
        w,
        rw (e, f, n) refl,
        (ap (λ x. x.fee_events) kept ∙ same.0, ap (λ x. x.fee_balance) kept ∙ same.1),
        o'',
      )
