-- ===== src/TokenSigner/Rollback.antt =====
-- token-signer.ts: the reserves that a batch leaves where it does not sign every transaction.
pub mod Batches
use mathlib.Core.Bool.{false≢true}
use mathlib.Core.Path.{subst}
use phygital_wallet.Common.{
  ℕ, String, ◌≡◌, ◌≢◌, ◌⊎◌, refl, true, not, ◌==◌, Option, some, List, [], ◌∷◌, ◌++◌, arith, inl,
  inr, Bool-cases, pos, ℤ, ap, sym, ◌∙◌, All, All-delete, All-delete_map, sym, ◌∙◌, All-map, In,
  In-append, append-In, Bytes, eq_iff,
}
use phygital_wallet.Errors.{Thrown, Result, ok, err}
use phygital_wallet.SignDecode.{DecodedSignTx, decode_wire_transaction}
use phygital_wallet.Backend.{FeePayerSigner, new_fee_payer_signer, can_sign, sign}
use phygital_wallet.Backend.Keys.{sign_not_empty}
use phygital_wallet.TokenSigner.{
  Signer, Platform, SignResult, Audit, Body, signed, failed, Attempt, Flow, go, returned, thrown,
  lift, get_token, get_store, bind_token, chain, schedule_reserve_alarm, release_reserves, push_id,
  replace_last, push_signature, on_store, on_signer, sign_admitted, sign_top_up, sign_reserved,
  sign_decoded, sign_wire, sign_wires, sign_batch, rescue, begin, accumulator_of,
  message_reserve_id, release_all, sign_transactions, success,
}
use phygital_wallet.TokenSigner.Monad.Posts.{Post, Post-continue, Post-lift, Post-if}
use phygital_wallet.TokenSigner.Keeps.{
  get_token-Keeps, get_store-Keeps, bind_token-Keeps, schedule-Keeps,
}
use phygital_wallet.TokenStore.{
  Store, Reserve, ensure_token, reserve, release, rebind_reserve, expire_reserves, has_id,
  is_expired, min_attempt_fee_lamports, fee_reserve_ttl_ms,
}
use phygital_wallet.TokenStore.Run.{reserves-ensure}
use phygital_wallet.TokenStore.Admission.{holds, holds-reserve}
use phygital_wallet.TokenStore.Expiry.{rebind_iff}
use phygital_wallet.TokenStore.Rows.{Rows, Rows-refused, Rows-reserve, Rows-rebind}
use phygital_wallet.TokenSigner.Rollback.Batches.{
  Origin, OnlyHeld, release-OnlyHeld, Tracked, Early, On, binds, sign_wires-Rolls,
}

-- The base64 text of an Ed25519 signature is never empty.
module _ (p : Platform) (now : ℕ) (held : List Reserve)
    (texts : (message seed : Bytes)
      → p.keys.base64_text (p.keys.ed25519_sign message seed) ≢ "") where
  abbrev IsSigned : SignResult → Attempt → Type 0
  IsSigned (signed _ _) a = Unit
  IsSigned (failed _ _) a = ⊥

  sign_batch-Rolls :
      (wires : List String) (a : Attempt)
      → Tracked held a
      → OnlyHeld held a.signer.store
      → Post (Early held) (Tracked held) IsSigned (sign_batch p now wires a)
  unfolding sign_batch on_signer on_store success expire_reserves
  sign_batch-Rolls [] a h o = o
  sign_batch-Rolls (wire ∷ wires) a h o =
      Post-continue (Early held) (Tracked held) (On held) IsSigned
        (lift (new_fee_payer_signer p.keys p.fee_payer_secret_keys) a) _
        (Post-lift (Early held) (Tracked held) (On held) _ _ (λ _ _. h) h)
        (λ backend b k.
          let opened =
            get_store-Keeps p now (Rows (Origin held b.reserved_ids))
              (binds p now held texts b.reserved_ids) b.signer k in
          Post-continue (Early held) (Tracked held) (On held) IsSigned
            (on_signer p now (get_store p now) b) _
            (Post-lift (Early held) (Tracked held) (On held) _ _ (λ _ _. opened) opened)
            (λ _ c l.
              let swept = (on_store p now (expire_reserves now) c).1 in
              Post-continue (Early held) (Tracked held) (On held) IsSigned
                (sign_wires p now backend (accumulator_of p.top_up_accumulator) (wire ∷ wires)
                  swept)
                _
                (sign_wires-Rolls p now held texts backend (accumulator_of p.top_up_accumulator)
                  (wire ∷ wires) swept
                  (All-delete (Origin held c.reserved_ids) (is_expired now)
                    c.signer.store.fee_reserves l))
                (λ _ d m.
                  let scheduled =
                    schedule-Keeps p now (Rows (Origin held d.reserved_ids))
                      (binds p now held texts d.reserved_ids) d.signer m in
                  Post-continue (Early held) (Tracked held) (On held) IsSigned
                    (on_signer p now (schedule_reserve_alarm p now) d) _
                    (Post-lift (Early held) (Tracked held) (On held) _ _ (λ _ _. scheduled)
                      scheduled)
                    (λ _ e n. tt))))

  signed_not_failed :
      {signatures : List String} {audit : Option Audit} {status : ℕ} {body : Body}
      → ok (signed signatures audit) ≢ ok (failed status body)
  signed_not_failed e = cc

  err_not_failed : {x : Thrown} {status : ℕ} {body : Body} → err x ≢ ok (failed status body)
  err_not_failed e = cc

  chain-released :
      (ids : List String) (x : Result (Unit {0}) × Signer) (answer : SignResult)
      → Rows (Origin held ids) x.1.store
      → (status : ℕ) (body : Body)
      → (chain x (λ _ s. (ok answer, record s { store = release_reserves ids s.store }))).0
        ≡ ok (failed status body)
      → OnlyHeld held
          (chain x (λ _ s. (ok answer, record s { store = release_reserves ids s.store }))).1.store
  chain-released ids (ok _, s) answer h status body e = release-OnlyHeld held ids s.store h
  chain-released ids (err x, s) answer h status body e = elim (err_not_failed e) [ ]

  rescue-OnlyHeld :
      (x : Flow SignResult × Attempt)
      → Post (Early held) (Tracked held) IsSigned x
      → (status : ℕ) (body : Body) → (rescue p now x).0 ≡ ok (failed status body)
      → OnlyHeld held (rescue p now x).1.store
  unfolding rescue
  rescue-OnlyHeld (go (signed signatures audit), a) h status body e = elim (signed_not_failed e) [ ]
  rescue-OnlyHeld (go (failed _ _), a) h status body e = elim h [ ]
  rescue-OnlyHeld (returned r, a) h status body e = h
  rescue-OnlyHeld (thrown t, a) h status body e =
      chain-released a.reserved_ids (get_store p now a.signer) _
        (get_store-Keeps p now (Rows (Origin held a.reserved_ids))
          (binds p now held texts a.reserved_ids) a.signer h)
        status body e

  chain-failed :
      (x : Result String × Signer) (f : String → Signer → Result SignResult × Signer) (status : ℕ)
      (body : Body)
      → OnlyHeld held x.1.store
      → ((v : String) (s : Signer)
          → OnlyHeld held s.store
          → (f v s).0 ≡ ok (failed status body)
          → OnlyHeld held (f v s).1.store)
      → (chain x f).0 ≡ ok (failed status body)
      → OnlyHeld held (chain x f).1.store
  chain-failed (ok v, s) f status body h k e = k v s h e
  chain-failed (err x, s) f status body h k e = elim (err_not_failed e) [ ]

  batch-OnlyHeld :
      (wires : List String) (s : Signer) (status : ℕ) (body : Body)
      → OnlyHeld held s.store
      → (sign_transactions p now wires s).0 ≡ ok (failed status body)
      → OnlyHeld held (sign_transactions p now wires s).1.store
  unfolding sign_transactions
  batch-OnlyHeld wires s status body h =
      chain-failed (get_token p now s) _ status body
        (get_token-Keeps p now (Rows (λ r. In r held)) (λ token t k. rw reserves-ensure k) s h)
        (λ _ t k.
          rescue-OnlyHeld (sign_batch p now wires (begin p now t))
            (sign_batch-Rolls wires (begin p now t)
              (All-map (λ r. In r held) (Origin held []) t.store.fee_reserves (λ r o. inl o) k) k)
            status body)

All-In : (rows : List Reserve) → All (λ r. In r rows) rows
All-In [] = tt
All-In (r ∷ rows) =
    (inl refl, All-map (λ x. In x rows) (λ x. In x (r ∷ rows)) rows (λ _ k. inr k) (All-In rows))

-- A call that answers a failure, at whichever transaction of the batch and for whichever reason,
-- leaves no reserve that was not there before it, provided that the base64 text of an Ed25519
-- signature, whatever the message and the seed, is not empty.
pub failure_keeps_nothing :
    (p : Platform) (now : ℕ) (wires : List String) (s : Signer) (status : ℕ) (body : Body)
    → ((message seed : Bytes) → p.keys.base64_text (p.keys.ed25519_sign message seed) ≢ "")
    → (sign_transactions p now wires s).0 ≡ ok (failed status body)
    → OnlyHeld s.store.fee_reserves (sign_transactions p now wires s).1.store
failure_keeps_nothing p now wires s status body texts =
    batch-OnlyHeld p now s.store.fee_reserves texts wires s status body
      (All-In s.store.fee_reserves)
