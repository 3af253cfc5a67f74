-- ===== src/Api/Fees/Apply/Once.antt =====
-- subscribe-fee-tx.ts on top of the tokens' objects: a transaction that the queue delivers again.
use mathlib.Core.Path.{subst}
use phygital_wallet.Common.{
  ℕ, String, ◌≡◌, refl, sym, ap, ◌∙◌, false, List, [], ◌∷◌, All, All-map, ◌==◌, eq_iff, eq_refl,
  trim, truthy, Bool-cases, inl, inr,
}
use phygital_wallet.Errors.{Result-cases, Thrown, Result, ok, err, plain_error, ◌>>=◌, >>=-eq-ok}
use phygital_wallet.TokenStore.{FeeEvent}
use phygital_wallet.TokenStore.Run.{Run}
use phygital_wallet.TokenStore.Once.{Run-Journals}
use phygital_wallet.TokenStore.Settled.{
  Settled, SameLedger, Grows, Grows-refl, Grows-trans, Grows-of_Journals, Grows-of_SameLedger,
  Settled-Grows,
}
use phygital_wallet.TokenSigner.{Platform, Signer, apply_fee_events}
use phygital_wallet.TokenSigner.Opening.{IsOpen}
use phygital_wallet.TokenSigner.Redelivery.{
  apply_fee_events-Settles, apply_fee_events-Grows, apply_fee_events-Settled,
}
use phygital_wallet.Api.Fees.{Codec, Env, SubscribeTxResult}
use phygital_wallet.Api.Fees.Apply.{
  Objects, Batches, FeeTxProcessResult, neither, put, named, mark, apply_batch, apply_batches,
  process_subscribe_fee_tx, fee_events, by_token,
}

-- The object of the token has every event of its batch.
abbrev IsBooked : Objects → String × List FeeEvent → Type 0
IsBooked o (token, batch) =
    ((trim token == "") ≡ false)
    × IsOpen (o (trim token))
    × All (λ e. Settled e (o (trim token)).store) batch

abbrev refused {ℓ} : {A : Type ℓ} → Thrown → Result A
refused thrown = err thrown

-- Journals grow, and objects that are open stay so.
record Later (o o' : Objects) : Type 0 where
  grows : (token : String) → Grows (o token).store (o' token).store
  stays : (token : String) → IsOpen (o token) → IsOpen (o' token)

Later-refl : {o : Objects} → Later o o
Later-refl = record { grows = λ t. Grows-refl _; stays = λ t h. h }

Later-trans : {o o' o'' : Objects} → Later o o' → Later o' o'' → Later o o''
Later-trans k l = record {
  grows = λ t. Grows-trans (k.grows t) (l.grows t);
  stays = λ t h. l.stays t (k.stays t h);
}

IsBooked-Later :
    {o o' : Objects} (b : String × List FeeEvent) → Later o o' → IsBooked o b → IsBooked o' b
IsBooked-Later (token, batch) l (given, opened, h) = (
  given,
  l.stays (trim token) opened,
  All-map _ _ batch (λ e k. Settled-Grows e k (l.grows (trim token))) h,
)

-- No journal and no balance changes.
record Unchanged (o o' : Objects) : Type 0 where
  ledgers : (token : String) → SameLedger (o token).store (o' token).store
  stays : (token : String) → IsOpen (o token) → IsOpen (o' token)

Later-of_Unchanged : {o o' : Objects} → Unchanged o o' → Later o o'
Later-of_Unchanged u = record {
  grows = λ t. Grows-of_SameLedger _ _ (u.ledgers t);
  stays = u.stays;
}

mark-none : (batch : List FeeEvent) (r : FeeTxProcessResult) → mark batch [] r ≡ r
unfolding mark
mark-none [] r = refl
mark-none (event ∷ batch) r = mark-none batch r

put-same : (token : String) (s : Signer) (o : Objects) → put token s o token ≡ s
put-same token s o = rw (eq_refl token) refl

-- A property of the object that is put, and of the others.
put-cases :
    (P : String → Signer → Type 0) (token : String) (s : Signer) (o : Objects)
    → P token s
    → ((t : String) → P t (o t))
    → (t : String) → P t (put token s o t)
put-cases P token s o h k t = elim (Bool-cases (t == token)) [
  | inl e ↦ let same : t ≡ token = (eq_iff t token).0 e in rw e (subst (λ x. P x s) (sym same) h)
  | inr e ↦ rw e (k t)
]

put-Later :
    (token : String) (s : Signer) (o : Objects)
    → Grows (o token).store s.store
    → (IsOpen (o token) → IsOpen s)
    → Later o (put token s o)
put-Later token s o g k = record {
  grows = put-cases (λ t s'. Grows (o t).store s'.store) token s o g (λ t. Grows-refl _);
  stays = put-cases (λ t s'. IsOpen (o t) → IsOpen s') token s o k (λ t h. h);
}

put-Unchanged :
    (token : String) (s : Signer) (o : Objects)
    → SameLedger (o token).store s.store
    → (IsOpen (o token) → IsOpen s)
    → Unchanged o (put token s o)
put-Unchanged token s o g k = record {
  ledgers = put-cases (λ t s'. SameLedger (o t).store s'.store) token s o g (λ t. (refl, refl));
  stays = put-cases (λ t s'. IsOpen (o t) → IsOpen s') token s o k (λ t h. h);
}

module _ (p : Platform) (now : ℕ) where
  apply_batch-books :
      (phygital_token : String) (batch : List FeeEvent) (o o' : Objects) {sigs : List String}
      → apply_batch p now phygital_token batch o ≡ (ok sigs, o')
      → IsBooked o' (phygital_token, batch) × Later o o'
  unfolding apply_batch
  apply_batch-books phygital_token batch o o' {sigs} e =
      let token = trim phygital_token in
      let call = apply_fee_events (named p now token) now batch (o token) in
      elim (Bool-cases (token == "")) [
        | inl h ↦
            let g : (refused (plain_error "phygitalToken required"), o) ≡ (ok sigs, o') =
              rw h at e in
            cc
        | inr h ↦
            let g : ((call.0 >>= λ (n, applied). ok applied), put token call.1 o) ≡ (ok sigs, o') =
              rw h at e in
            let (x, answered, _) = >>=-eq-ok call.0 _ (ap (λ y. y.0) g) in
            let ran : call ≡ (ok x, call.1) = ap (λ y. (y, call.1)) answered in
            let (settled, opened) =
              apply_fee_events-Settles (named p now token) now batch (o token) ran in
            let grown = apply_fee_events-Grows (named p now token) now batch (o token) in
            let same : put token call.1 o ≡ o' = ap (λ y. y.1) g in
            let at_token : call.1 ≡ o' token =
              sym (put-same token call.1 o) ∙ ap (λ (w : Objects). w token) same in
            (
              (
                h,
                subst IsOpen at_token opened,
                subst (λ w. All (λ ev. Settled ev w.store) batch) at_token settled,
              ),
              subst (Later o) same (put-Later token call.1 o grown (λ _. opened)),
            )
      ]

  apply_batches-book :
      (batches : Batches) (r : FeeTxProcessResult) (o o' : Objects) {r' : FeeTxProcessResult}
      → apply_batches p now batches r o ≡ (ok r', o')
      → All (IsBooked o') batches × Later o o'
  unfolding apply_batches
  apply_batches-book [] r o o' e =
      let same : o ≡ o' = ap (λ y. y.1) e in (tt, subst (Later o) same Later-refl)
  apply_batches-book ((token, batch) ∷ batches) r o o' {r'} e =
      let call = apply_batch p now token batch o in
      elim (Result-cases call.0) [
        | inr (thrown, h) ↦
            let g : (refused thrown, call.1) ≡ (ok r', o') = rw (apply_batches, h) at e in cc
        | inl (applied, h) ↦
            let g : apply_batches p now batches (mark batch applied r) call.1 ≡ (ok r', o') =
              rw (apply_batches, h) at e in
            let (booked, l) = apply_batch-books token batch o call.1 (ap (λ y. (y, call.1)) h) in
            let (rest, l') = apply_batches-book batches (mark batch applied r) call.1 o' g in
            ((IsBooked-Later (token, batch) l' booked, rest), Later-trans l l')
      ]

  apply_batch-again :
      (phygital_token : String) (batch : List FeeEvent) (o : Objects)
      → IsBooked o (phygital_token, batch)
      → (o' : Objects) × (apply_batch p now phygital_token batch o ≡ (ok [], o')) × Unchanged o o'
  unfolding apply_batch
  apply_batch-again phygital_token batch o (given, opened, settled) =
      let token = trim phygital_token in
      let (s, e, same, opened') =
        apply_fee_events-Settled (named p now token) now batch (o token) opened settled in
      (put token s o, rw (given, e) refl, put-Unchanged token s o same (λ _. opened'))

  apply_batches-again :
      (batches : Batches) (r : FeeTxProcessResult) (o : Objects)
      → All (IsBooked o) batches
      → (o' : Objects) × (apply_batches p now batches r o ≡ (ok r, o')) × Unchanged o o'
  unfolding apply_batches
  apply_batches-again [] r o h = (o, refl, record { ledgers = λ t. (refl, refl); stays = λ t h. h })
  apply_batches-again ((token, batch) ∷ batches) r o (h, hs) =
      let (u, e, same) = apply_batch-again token batch o h in
      let answered : (apply_batch p now token batch o).0 ≡ ok [] = ap (λ y. y.0) e in
      let moved : (apply_batch p now token batch o).1 ≡ u = ap (λ y. y.1) e in
      let (o', f, same') =
        apply_batches-again batches r u
          (All-map _ _ batches (λ b k. IsBooked-Later b (Later-of_Unchanged same) k) hs) in
      (
        o',
        rw (apply_batches, answered, moved, mark-none batch r, f) refl,
        record {
          ledgers = λ t.
              ((same'.ledgers t).0 ∙ (same.ledgers t).0, (same'.ledgers t).1 ∙ (same.ledgers t).1);
          stays = λ t k. same'.stays t (same.stays t k);
        },
      )

-- Between two deliveries the objects are kept in memory, and calls change their stores.
pub record Passes (now later : ℕ) (o o' : Objects) : Type 0 where
  pub runs : (token : String) → Run now (o token).store later (o' token).store
  pub token_kept : (token : String) → (o' token).token ≡ (o token).token
  pub store_kept : (token : String) → (o' token).has_store ≡ (o token).has_store

Passes-Later : {now later : ℕ} {o o' : Objects} → Passes now later o o' → Later o o'
Passes-Later passes = record {
  grows = λ t. Grows-of_Journals (Run-Journals (passes.runs t));
  stays =
      λ t (h, (token, e)). (passes.store_kept t ∙ h, (token, ap truthy (passes.token_kept t) ∙ e));
}

-- A transaction that is delivered again counts once: where the first delivery was answered, a later
-- one, whatever calls of the tokens' objects lie between, is answered with neither a credit nor a
-- debit, and no object's journal of fee events or balance changes.
pub process_once :
    (p : Platform) (c : Codec) (env : Env) (result : SubscribeTxResult) (now between later : ℕ)
    (o o' o'' : Objects) {answer : FeeTxProcessResult}
    → process_subscribe_fee_tx p now c env result o ≡ (ok answer, o')
    → Passes now between o' o''
    → (w : Objects) × (process_subscribe_fee_tx p later c env result o'' ≡ (ok neither, w))
      × ((token : String) → SameLedger (o'' token).store (w token).store)
unfolding process_subscribe_fee_tx
process_once p c env result now between later o o' o'' {answer} e passes =
    elim (Result-cases (fee_events c env result)) [
      | inr (thrown, h) ↦
          let g : (refused thrown, o) ≡ (ok answer, o') = rw (process_subscribe_fee_tx, h) at e in
          cc
      | inl (events, h) ↦
          let g : apply_batches p now (by_token events) neither o ≡ (ok answer, o') =
            rw (process_subscribe_fee_tx, h) at e in
          let (booked, _) = apply_batches-book p now (by_token events) neither o o' g in
          let (w, f, same) = apply_batches-again p later (by_token events) neither o'' (
            All-map _ _ (by_token events) (λ b k. IsBooked-Later b (Passes-Later passes) k)
              booked) in
          (w, rw (process_subscribe_fee_tx, h) f, same.ledgers)
    ]
