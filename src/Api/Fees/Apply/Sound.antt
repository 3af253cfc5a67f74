-- ===== src/Api/Fees/Apply/Sound.antt =====
-- subscribe-fee-tx.ts: what a fee event says of the transaction that it is read from.
use mathlib.Core.Path.{subst}
use phygital_wallet.Common.{
  ℕ, ◌<◌, ◌-◌, String, ◌<>◌, ◌≡◌, refl, sym, ap, ◌∙◌, true, false, not, ◌||◌, Option, none, some,
  List, [], ◌∷◌, ◌++◌, All, ◌⊎◌, inl, inr, ◌==◌, ltb, ltb→lt, pos, get_elem?, arith, Bool-cases,
}
use phygital_wallet.Errors.{Result, ok, ◌>>=◌, >>=-eq-ok}
use phygital_wallet.TokenStore.{FeeEvent, credit, debit}
use phygital_wallet.Api.Fees.{
  Codec, Env, ConfirmedTx, SubscribeTxResult, trimmed_text, native_change, resolve_account_keys,
  find_execute_accounts,
}
use phygital_wallet.Api.Fees.Apply.{
  is_default_fee_payer, credit_events, debit_events, is_failed, signature_of, events_of, fee_events,
}
use phygital_wallet.Api.Fees.Reads.{Moves, Names, native_change-Moves, find-Names}

abbrev ok_events : List (String × FeeEvent) → Result (List (String × FeeEvent))
ok_events events = ok events

abbrev debit_event : String → ℕ → FeeEvent
debit_event signature lamports = record {
  signature = signature <> ":debit";
  kind = debit;
  lamports = pos lamports;
}

List-cases {ℓ} : {A : Type ℓ} (xs : List A) → (xs ≡ []) ⊎ ((y : A) × (ys : List A) × (xs ≡ y ∷ ys))
List-cases [] = inl refl
List-cases (y ∷ ys) = inr (y, ys, refl)

All-join {ℓ κ} :
    {A : Type ℓ} (P : A → Type κ) (xs ys : List A) → All P xs → All P ys → All P (xs ++ ys)
All-join P [] ys h k = k
All-join P (x ∷ xs) ys (h, hs) k = (h, All-join P xs ys hs k)

module _ (c : Codec) (env : Env) where
  abbrev pub IsDue : ConfirmedTx → String × FeeEvent → Type 0
  IsDue tx (token, event) =
      Names c tx token
      × (pre : ℕ) × (post : ℕ) × (account : String) × Moves tx account pre post
      × (((event.kind ≡ credit)
            × (account ≡ trimmed_text env.top_up_accumulator)
            × (pre < post)
            × (event.lamports ≡ pos (post - pre)))
          ⊎ ((event.kind ≡ debit)
              × (get_elem? (resolve_account_keys tx) 0 ≡ some account)
              × (is_default_fee_payer c env account ≡ ok true)
              × (post < pre)
              × (event.lamports ≡ pos (pre - post))))

  credit-IsDue :
      (signature : String) (tx : ConfirmedTx) (execute : Option String)
      → find_execute_accounts c tx (resolve_account_keys tx) ≡ execute
      → All (IsDue tx) (credit_events c env signature (resolve_account_keys tx) tx.meta execute)
  unfolding credit_events
  credit-IsDue signature tx none f = tt
  credit-IsDue signature tx (some token) f =
      let accumulator = trimmed_text env.top_up_accumulator in
      let moved = native_change (resolve_account_keys tx) tx.meta accumulator in
      elim (Bool-cases (accumulator == "" || not (ltb moved.0 moved.1) || token == "")) [
        | inl h ↦ rw h tt
        | inr h ↦
            let up : moved.0 < moved.1 = ltb→lt moved.0 moved.1 (ground arith) in
            let moves = native_change-Moves tx accumulator moved.0 moved.1 refl (inl up) in
            rw h (
              (
                find-Names c tx token f,
                moved.0,
                moved.1,
                accumulator,
                moves,
                inl (refl, refl, up, refl),
              ),
              tt,
            )
      ]

  debit-IsDue :
      (signature : String) (tx : ConfirmedTx) (fee_payer : String) (execute : Option String)
      (events : List (String × FeeEvent))
      → get_elem? (resolve_account_keys tx) 0 ≡ some fee_payer
      → find_execute_accounts c tx (resolve_account_keys tx) ≡ execute
      → debit_events c env signature (resolve_account_keys tx) tx.meta fee_payer execute ≡ ok events
      → All (IsDue tx) events
  unfolding debit_events
  debit-IsDue signature tx fee_payer none events g f e =
      let same : [] ≡ events = cc in subst (All (IsDue tx)) same tt
  debit-IsDue signature tx fee_payer (some token) events g f e =
      let moved = native_change (resolve_account_keys tx) tx.meta fee_payer in
      let (is_default, known, e1) = >>=-eq-ok (is_default_fee_payer c env fee_payer) _ e in
      elim (Bool-cases is_default) [
        | inr h ↦
            let k : ok_events [] ≡ ok events = rw h at e1 in
            let same : [] ≡ events = cc in subst (All (IsDue tx)) same tt
        | inl h ↦ elim (Bool-cases (ltb moved.1 moved.0)) [
          | inr l ↦
              let k : ok_events [] ≡ ok events = rw (h, l) at e1 in
              let same : [] ≡ events = cc in subst (All (IsDue tx)) same tt
          | inl l ↦
              let event = debit_event signature (moved.0 - moved.1) in
              let k : ok_events ((token, event) ∷ []) ≡ ok events = rw (h, l) at e1 in
              let same : (token, event) ∷ [] ≡ events = cc in
              let down = ltb→lt moved.1 moved.0 l in
              let moves = native_change-Moves tx fee_payer moved.0 moved.1 refl (inr down) in
              subst (All (IsDue tx)) same (
                (
                  find-Names c tx token f,
                  moved.0,
                  moved.1,
                  fee_payer,
                  moves,
                  inr (refl, g, known ∙ ap ok h, down, refl),
                ),
                tt,
              )
        ]
      ]

  events_of-IsDue :
      (signature : String) (tx : ConfirmedTx) {events : List (String × FeeEvent)}
      → events_of c env signature tx ≡ ok events
      → All (IsDue tx) events
  unfolding events_of
  events_of-IsDue signature tx {events} e = elim (List-cases (resolve_account_keys tx)) [
    | inl h ↦
        let k : ok_events [] ≡ ok events = rw (events_of, h) at e in
        let same : [] ≡ events = cc in subst (All (IsDue tx)) same tt
    | inr (fee_payer, others, h) ↦
        let keys = fee_payer ∷ others in
        let found = find_execute_accounts c tx keys in
        let k : (debit_events c env signature keys tx.meta fee_payer found >>= λ debits.
        ok_events (credit_events c env signature keys tx.meta found ++ debits))
            ≡ ok events =
          rw (events_of, h) at e in
        let (debits, due, e1) =
          >>=-eq-ok (debit_events c env signature keys tx.meta fee_payer found) _ k in
        let same : credit_events c env signature keys tx.meta found ++ debits ≡ events = cc in
        let found_too = ap (find_execute_accounts c tx) h in
        let credits =
          subst (λ ks. All (IsDue tx) (credit_events c env signature ks tx.meta found)) h
            (credit-IsDue signature tx found found_too) in
        let debits_due =
          debit-IsDue signature tx fee_payer found debits (ap (λ ks. get_elem? ks 0) h) found_too (
            subst (λ ks. debit_events c env signature ks tx.meta fee_payer found ≡ ok debits)
              (sym h) due) in
        subst (All (IsDue tx)) same (All-join _ _ debits credits debits_due)
  ]

  -- Every event of a transaction is due: the transaction did not fail, the token is that of an
  -- `execute` or `executeWithAuthority` instruction of the wallet's program, and the lamports are
  -- what the accumulator gained (a credit), or what the first account, one of the default fee
  -- payers, lost (a debit).
  pub fee_events-IsDue :
      (result : SubscribeTxResult) (tx : ConfirmedTx) {events : List (String × FeeEvent)}
      → result.transaction ≡ some tx
      → fee_events c env result ≡ ok events
      → All (IsDue tx) events × ((is_failed c env tx.meta ≡ false) ⊎ (events ≡ []))
  unfolding fee_events
  fee_events-IsDue result tx {events} there e = elim (Bool-cases (is_failed c env tx.meta)) [
    | inl h ↦
        let k : ok_events [] ≡ ok events = rw (fee_events, there, h) at e in
        let same : [] ≡ events = cc in (subst (All (IsDue tx)) same tt, inr (sym same))
    | inr h ↦ elim (Bool-cases (signature_of c env result tx == "")) [
      | inl l ↦
          let k : ok_events [] ≡ ok events = rw (fee_events, there, h, l) at e in
          let same : [] ≡ events = cc in (subst (All (IsDue tx)) same tt, inl h)
      | inr l ↦
          let k : events_of c env (signature_of c env result tx) tx ≡ ok events =
            rw (fee_events, there, h, l) at e in
          (events_of-IsDue (signature_of c env result tx) tx k, inl h)
    ]
  ]
