-- ===== src/TokenSigner/Runs.antt =====
-- token-signer.ts: a property of the ledger that the store's calls keep, followed through a call of
-- the object.
use phygital_wallet.Common.{ℕ, String, not, some, List, [], ◌∷◌, arith, pos, All}
use phygital_wallet.SignDecode.{DecodedSignTx, decode_wire_transaction}
use phygital_wallet.Backend.{FeePayerSigner, new_fee_payer_signer, can_sign, sign}
use phygital_wallet.TokenSigner.Monad.Posts.{Post, Post-continue, Post-lift, Post-if}
use phygital_wallet.TokenSigner.{
  Signer, Platform, get_token, get_store, bind_token, schedule_reserve_alarm, release_reserves,
  apply_one, apply_events, apply_fee_events, alarm, get_fee_balance, SignResult, push_id,
  push_signature, on_store, on_signer, sign_admitted, sign_top_up, sign_reserved, sign_decoded,
  sign_wire, sign_wires, sign_batch, rescue, begin, accumulator_of, message_reserve_id, release_all,
  sign_transactions, Attempt, Flow, go, returned, thrown, lift,
}
use phygital_wallet.TokenSigner.Keeps.{
  chain-Keeps, get_token-Keeps, get_store-Keeps, bind_token-Keeps, schedule-Keeps,
}
use phygital_wallet.TokenStore.{
  ensure_token, Store, FeeEvent, release, reserve, min_attempt_fee_lamports, fee_reserve_ttl_ms,
}
use phygital_wallet.TokenStore.Run.{Step, granted, ensured, released, expired, reserved, rebound}
use phygital_wallet.TokenStore.Cover.{Spends}

pub anything : {A : Type 0} (xs : List A) → All (λ _. Unit {0}) xs
anything [] = tt
anything (x ∷ xs) = (tt, anything xs)

-- A property of the ledger that the store's calls at one time keep, except the booking of a debit.
module _ (p : Platform) (now : ℕ) (K : Store → Type 0)
    (step : (t u : Store) → K t → (st : Step now t u) → (Spends st → ⊥) → K u) where
  abbrev pub Keeps : Signer → Type 0
  Keeps s = K s.store

  binds : (token : String) (t : Store) → K t → K (ensure_token token now t).1
  binds token t h = step t _ h (ensured token t) (λ x. x)

  release-Keeps : (ids : List String) (s : Store) → K s → K (release_reserves ids s)
  unfolding release_reserves
  release-Keeps [] s h = h
  release-Keeps (id ∷ ids) s h =
      release-Keeps ids (release id s).1 (step _ _ h (released id s) (λ x. x))

  abbrev Early : SignResult → Attempt → Type 0
  Early _ a = Keeps a.signer

  abbrev Late : Attempt → Type 0
  Late a = Keeps a.signer

  abbrev On {ℓ} : {A : Type ℓ} → A → Attempt → Type 0
  On _ a = Keeps a.signer

  abbrev Kept {ℓ} : {A : Type ℓ} → Flow A × Attempt → Type 0
  Kept x = Post Early Late On x

  module _ (backend : FeePayerSigner) where
    sign_admitted-Keeps :
        (decoded : DecodedSignTx) (id : String) (a : Attempt)
        → Keeps a.signer
        → Kept (sign_admitted p now backend decoded id a)
    unfolding sign_admitted push_id push_signature on_store
    sign_admitted-Keeps decoded id a h =
        Post-continue Early Late On On
          (lift (sign p.keys backend decoded.fee_payer decoded.message_bytes) (push_id id a)) _
          (Post-lift Early Late On _ _ (λ _ _. h) h)
          (λ signature b k. step _ _ k (rebound id signature b.signer.store) (λ x. x))

    sign_top_up-Keeps :
        (decoded : DecodedSignTx) (a : Attempt)
        → Keeps a.signer
        → Kept (sign_top_up p now backend decoded a)
    unfolding sign_top_up push_signature
    sign_top_up-Keeps decoded a h =
        Post-continue Early Late On On
          (lift (sign p.keys backend decoded.fee_payer decoded.message_bytes) a) _
          (Post-lift Early Late On _ _ (λ _ _. h) h) (λ signature b k. k)

    sign_reserved-Keeps :
        (decoded : DecodedSignTx) (a : Attempt)
        → Keeps a.signer
        → Kept (sign_reserved p now backend decoded a)
    unfolding sign_reserved release_all on_store
    sign_reserved-Keeps decoded a h =
        let id = message_reserve_id p now decoded.message_bytes in
        let k =
          step _ _ h
            (reserved id (pos min_attempt_fee_lamports) fee_reserve_ttl_ms a.signer.store
              (omega arith))
            (λ x. x) in
        Post-if Early Late On
          (reserve id (pos min_attempt_fee_lamports) fee_reserve_ttl_ms now a.signer.store).0 _ _ _
          (λ _. sign_admitted-Keeps decoded id _ k) (λ _. release-Keeps a.reserved_ids _ k)

    sign_decoded-Keeps :
        (decoded : DecodedSignTx) (a : Attempt)
        → Keeps a.signer
        → Kept (sign_decoded p now backend decoded a)
    unfolding sign_decoded release_all on_store
    sign_decoded-Keeps decoded a h =
        Post-if Early Late On (not (can_sign p.keys backend decoded.fee_payer)) _ _ _
          (λ _. release-Keeps a.reserved_ids _ h)
          (λ _.
            Post-if Early Late On decoded.is_fee_paying_instruction _ _ _
              (λ _. sign_top_up-Keeps decoded a h) (λ _. sign_reserved-Keeps decoded a h))

    sign_wire-Keeps :
        (accumulator wire : String) (a : Attempt)
        → Keeps a.signer
        → Kept (sign_wire p now backend accumulator wire a)
    unfolding sign_wire on_signer
    sign_wire-Keeps accumulator wire a h =
        Post-continue Early Late On On (lift (decode_wire_transaction p.kit wire accumulator) a) _
          (Post-lift Early Late On _ _ (λ _ _. h) h)
          (λ decoded b k.
            let bound = bind_token-Keeps p now K binds decoded.phygital_token b.signer k in
            Post-continue Early Late On On
              (on_signer p now (bind_token p now decoded.phygital_token) b) _
              (Post-lift Early Late On _ _ (λ _ _. bound) bound)
              (λ _ c l.
                sign_decoded-Keeps decoded (record c { fee_payer_seen = some decoded.fee_payer })
                  l))

    sign_wires-Keeps :
        (accumulator : String) (wires : List String) (a : Attempt)
        → Keeps a.signer
        → Kept (sign_wires p now backend accumulator wires a)
    unfolding sign_wires
    sign_wires-Keeps accumulator [] a h = h
    sign_wires-Keeps accumulator (wire ∷ wires) a h =
        Post-continue Early Late On On (sign_wire p now backend accumulator wire a) _
          (sign_wire-Keeps accumulator wire a h) (λ _ b k. sign_wires-Keeps accumulator wires b k)

  sign_batch-Keeps :
      (wires : List String) (a : Attempt) → Keeps a.signer → Kept (sign_batch p now wires a)
  unfolding sign_batch on_signer on_store
  sign_batch-Keeps [] a h = h
  sign_batch-Keeps (wire ∷ wires) a h =
      Post-continue Early Late On On (lift (new_fee_payer_signer p.keys p.fee_payer_secret_keys) a)
        _ (Post-lift Early Late On _ _ (λ _ _. h) h)
        (λ backend b k.
          let opened = get_store-Keeps p now K binds b.signer k in
          Post-continue Early Late On On (on_signer p now (get_store p now) b) _
            (Post-lift Early Late On _ _ (λ _ _. opened) opened)
            (λ _ c l.
              Post-continue Early Late On On
                (sign_wires p now backend (accumulator_of p.top_up_accumulator) (wire ∷ wires) _) _
                (sign_wires-Keeps backend _ (wire ∷ wires) _
                  (step _ _ l (expired c.signer.store) (λ x. x)))
                (λ _ d m.
                  let scheduled = schedule-Keeps p now K binds d.signer m in
                  Post-continue Early Late On On (on_signer p now (schedule_reserve_alarm p now) d)
                    _ (Post-lift Early Late On _ _ (λ _ _. scheduled) scheduled) (λ _ e n. n))))

  rescue-Keeps : (x : Flow SignResult × Attempt) → Kept x → Keeps (rescue p now x).1
  unfolding rescue
  rescue-Keeps (go r, a) h = h
  rescue-Keeps (returned r, a) h = h
  rescue-Keeps (thrown e, a) h =
      chain-Keeps p now K binds (get_store p now a.signer) _
        (get_store-Keeps p now K binds a.signer h) (λ _ s k. release-Keeps a.reserved_ids _ k)

  pub sign-Keeps :
      (wires : List String) (s : Signer) → Keeps s → Keeps (sign_transactions p now wires s).1
  unfolding sign_transactions
  sign-Keeps wires s h =
      chain-Keeps p now K binds (get_token p now s) _ (get_token-Keeps p now K binds s h) (λ _ t k.
        rescue-Keeps (sign_batch p now wires (begin p now t))
          (sign_batch-Keeps wires (begin p now t) k))

  pub alarm-Keeps : (s : Signer) → Keeps s → Keeps (alarm p now s).1
  unfolding alarm
  alarm-Keeps s h =
      chain-Keeps p now K binds (get_store p now s) _ (get_store-Keeps p now K binds s h)
        (λ _ t k. schedule-Keeps p now K binds _ (step _ _ k (expired t.store) (λ x. x)))

  pub get_fee_balance-Keeps : (s : Signer) → Keeps s → Keeps (get_fee_balance p now s).1
  unfolding get_fee_balance
  get_fee_balance-Keeps s h =
      chain-Keeps p now K binds (get_token p now s) _ (get_token-Keeps p now K binds s h) (λ _ t k.
        chain-Keeps p now K binds (get_store p now t) _ (get_store-Keeps p now K binds t k)
          (λ _ u l. step _ _ (step _ _ l (expired u.store) (λ x. x)) (granted _) (λ x. x)))

  module _ (C : FeeEvent → Type 0)
      (book : (e : FeeEvent) (t : Store) → C e → K t → K (apply_one p now e t).1) where
    pub apply_events-Keeps :
        (events : List FeeEvent) (applied : List String) (s : Signer)
        → All C events
        → Keeps s
        → Keeps (apply_events p now events applied s).1
    unfolding apply_events
    apply_events-Keeps [] applied s c h = h
    apply_events-Keeps (event ∷ events) applied s (c, cs) h =
        chain-Keeps p now K binds (get_store p now s) _ (get_store-Keeps p now K binds s h)
          (λ _ t k. apply_events-Keeps events _ _ cs (book event t.store c k))

    pub apply_fee_events-Keeps :
        (events : List FeeEvent) (s : Signer)
        → All C events
        → Keeps s
        → Keeps (apply_fee_events p now events s).1
    unfolding apply_fee_events
    apply_fee_events-Keeps events s c h =
        chain-Keeps p now K binds (get_token p now s) _ (get_token-Keeps p now K binds s h)
          (λ _ t k.
            chain-Keeps p now K binds (apply_events p now events [] t) _
              (apply_events-Keeps events [] t c k)
              (λ applied u l.
                chain-Keeps p now K binds (schedule_reserve_alarm p now u) _
                  (schedule-Keeps p now K binds u l) (λ _ v m. m)))
