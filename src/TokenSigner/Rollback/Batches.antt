-- ===== src/TokenSigner/Rollback/Batches.antt =====
-- token-signer.ts: the loop over the wires, and the reserves that it tracks.
use mathlib.Core.Bool.{false≢true}
use mathlib.Core.Path.{subst}
use phygital_wallet.Common.{
  ℕ, String, ◌≡◌, ◌≢◌, ◌⊎◌, refl, true, not, ◌==◌, some, List, [], ◌∷◌, ◌++◌, arith, inl, inr,
  Bool-cases, pos, ℤ, ap, sym, ◌∙◌, All-delete_map, sym, ◌∙◌, All-map, In, In-append, append-In,
  Bytes, eq_iff,
}
use phygital_wallet.SignDecode.{DecodedSignTx, decode_wire_transaction}
use phygital_wallet.Backend.{FeePayerSigner, can_sign, sign}
use phygital_wallet.Backend.Keys.{sign_not_empty}
use phygital_wallet.TokenSigner.{
  Platform, SignResult, Attempt, Flow, lift, bind_token, release_reserves, push_id, replace_last,
  push_signature, on_store, on_signer, sign_admitted, sign_top_up, sign_reserved, sign_decoded,
  sign_wire, sign_wires, message_reserve_id, release_all,
}
use phygital_wallet.TokenSigner.Monad.Posts.{Post, Post-continue, Post-lift, Post-if}
use phygital_wallet.TokenSigner.Keeps.{bind_token-Keeps}
use phygital_wallet.TokenStore.{
  Store, Reserve, ensure_token, reserve, release, rebind_reserve, has_id, min_attempt_fee_lamports,
  fee_reserve_ttl_ms,
}
use phygital_wallet.TokenStore.Run.{reserves-ensure}
use phygital_wallet.TokenStore.Admission.{holds, holds-reserve}
use phygital_wallet.TokenStore.Expiry.{rebind_iff}
use phygital_wallet.TokenStore.Rows.{Rows, Rows-refused, Rows-reserve, Rows-rebind}

-- A row of `held`, or one that the batch tracks.
abbrev pub Origin : List Reserve → List String → Reserve → Type 0
Origin held ids r = In r held ⊎ In r.id ids

-- Every row of the store was there before.
abbrev pub OnlyHeld : List Reserve → Store → Type 0
OnlyHeld held s = Rows (λ r. In r held) s

pub release-OnlyHeld :
    (held : List Reserve) (ids : List String) (s : Store)
    → Rows (Origin held ids) s
    → OnlyHeld held (release_reserves ids s)
unfolding release_reserves release
release-OnlyHeld held [] s h =
    All-map (Origin held []) (λ r. In r held) s.fee_reserves
      (λ r o. elim o [ inl k ↦ k | inr k ↦ elim k [ ] ]) h
release-OnlyHeld held (id ∷ ids) s h = release-OnlyHeld held ids (release id s).1 (
    All-delete_map (Origin held (id ∷ ids)) (Origin held ids) (has_id id) s.fee_reserves
      (λ r o other. elim o [
        | inl k ↦ inl k
        | inr k ↦ elim k [ inl e ↦ ground (arith, eq_iff r.id id) | inr l ↦ inr l ]
      ])
      h)

replace_last-push :
    (old new : String) (ids : List String) → replace_last new (ids ++ old ∷ []) ≡ ids ++ new ∷ []
unfolding replace_last
replace_last-push old new [] = refl
replace_last-push old new (x ∷ []) = refl
replace_last-push old new (x ∷ (y ∷ ys)) = ap (λ zs. x ∷ zs) (replace_last-push old new (y ∷ ys))

reserve-id :
    (id : String) (lamports : ℤ) (ttl now : ℕ) (s : Store)
    → (reserve id lamports ttl now s).0 ≡ true
    → id ≢ ""
unfolding reserve
reserve-id id lamports ttl now s h = ground (arith, eq_iff id "")

-- The rows after an admitted reserve is bound to its signature.
Rows-bound :
    (held : List Reserve) (ids : List String) (id signature : String) (now : ℕ) (s : Store)
    → id ≢ ""
    → signature ≢ ""
    → holds id now s ≡ true
    → Rows (Origin held (ids ++ id ∷ [])) s
    → Rows (Origin held (ids ++ signature ∷ [])) (rebind_reserve id signature now s).1
Rows-bound held ids id signature now s named text opened h =
    elim (Bool-cases (rebind_reserve id signature now s).0) [
      | inl done ↦
          Rows-rebind (Origin held (ids ++ id ∷ [])) (Origin held (ids ++ signature ∷ [])) id
            signature now s
            (λ r o other. elim o [
              | inl k ↦ inl k
              | inr k ↦ elim (append-In r.id ids (id ∷ []) k) [
                | inl l ↦ inr (In-append r.id ids (signature ∷ []) (inl l))
                | inr l ↦ elim l [ inl e ↦ elim (other e) [ ] | inr m ↦ elim m [ ] ]
              ]
            ])
            (λ r e. inr (In-append r.id ids (signature ∷ []) (inr (inl e)))) h done
      | inr left ↦ elim (Bool-cases (id == signature)) [
        | inl same ↦
            rw ((rebind_iff id signature now s).1 left)
              (subst (λ x. Rows (Origin held (ids ++ x ∷ [])) s) ((eq_iff id signature).0 same) h)
        | inr differ ↦
            elim (false≢true (
              sym left
              ∙ (rebind_iff id signature now s).0.1
                  (named, text, (λ e. ground (arith, eq_iff id signature)), opened))) [ ]
      ]
    ]

abbrev pub Tracked : List Reserve → Attempt → Type 0
Tracked held a = Rows (Origin held a.reserved_ids) a.signer.store

abbrev pub Early : List Reserve → SignResult → Attempt → Type 0
Early held _ a = OnlyHeld held a.signer.store

abbrev pub On {ℓ} : {A : Type ℓ} → List Reserve → A → Attempt → Type 0
On held _ a = Tracked held a

-- The base64 text of an Ed25519 signature is never empty.
module _ (p : Platform) (now : ℕ) (held : List Reserve)
    (texts : (message seed : Bytes)
      → p.keys.base64_text (p.keys.ed25519_sign message seed) ≢ "") where
  abbrev pub Rolls {ℓ} : {A : Type ℓ} → Flow A × Attempt → Type 0
  Rolls x = Post (Early held) (Tracked held) (On held) x

  pub binds :
      (ids : List String) (token : String) (t : Store)
      → Rows (Origin held ids) t
      → Rows (Origin held ids) (ensure_token token now t).1
  binds ids token t h = rw reserves-ensure h

  module _ (backend : FeePayerSigner) (decoded : DecodedSignTx) where
    abbrev Signed : String → Attempt → String → Attempt → Type 0
    Signed id a signature b =
        (signature ≢ "")
        × (b.reserved_ids ≡ a.reserved_ids ++ id ∷ [])
        × (holds id now b.signer.store ≡ true)
        × Rows (Origin held (a.reserved_ids ++ id ∷ [])) b.signer.store

    sign_admitted-Rolls :
        (id : String) (a : Attempt)
        → id ≢ ""
        → holds id now a.signer.store ≡ true
        → Rows (Origin held (a.reserved_ids ++ id ∷ [])) a.signer.store
        → Rolls (sign_admitted p now backend decoded id a)
    unfolding sign_admitted push_id push_signature on_store
    sign_admitted-Rolls id a named opened h =
        Post-continue (Early held) (Tracked held) (Signed id a) (On held)
          (lift (sign p.keys backend decoded.fee_payer decoded.message_bytes) (push_id id a)) _
          (Post-lift (Early held) (Tracked held) (Signed id a) _ _
            (λ signature e. (
              sign_not_empty p.keys backend decoded.fee_payer decoded.message_bytes signature texts
                  e,
              refl,
              opened,
              h,
            ))
            h)
          (λ signature b (text, same, opened, h).
            subst (λ ids. Rows (Origin held ids) (rebind_reserve id signature now b.signer.store).1)
              (sym (
                ap (λ ids. replace_last signature ids) same
                ∙ replace_last-push id signature a.reserved_ids))
              (Rows-bound held a.reserved_ids id signature now b.signer.store named text opened h))

    sign_top_up-Rolls : (a : Attempt) → Tracked held a → Rolls (sign_top_up p now backend decoded a)
    unfolding sign_top_up push_signature
    sign_top_up-Rolls a h =
        Post-continue (Early held) (Tracked held) (On held) (On held)
          (lift (sign p.keys backend decoded.fee_payer decoded.message_bytes) a) _
          (Post-lift (Early held) (Tracked held) (On held) _ _ (λ _ _. h) h) (λ signature b k. k)

    sign_reserved-Rolls :
        (a : Attempt) → Tracked held a → Rolls (sign_reserved p now backend decoded a)
    unfolding sign_reserved release_all on_store
    sign_reserved-Rolls a h =
        let id = message_reserve_id p now decoded.message_bytes in
        let wide =
          All-map (Origin held a.reserved_ids) (Origin held (a.reserved_ids ++ id ∷ []))
            a.signer.store.fee_reserves
            (λ r o. elim o [
              | inl k ↦ inl k
              | inr k ↦ inr (In-append r.id a.reserved_ids (id ∷ []) (inl k))
            ])
            h in
        Post-if (Early held) (Tracked held) (On held)
          (reserve id (pos min_attempt_fee_lamports) fee_reserve_ttl_ms now a.signer.store).0 _ _ _
          (λ did.
            sign_admitted-Rolls id _ (reserve-id id _ _ now a.signer.store did)
              (holds-reserve id _ _ now a.signer.store (omega arith) did)
              (Rows-reserve (Origin held (a.reserved_ids ++ id ∷ [])) id _ _ now a.signer.store
                (inr (In-append id a.reserved_ids (id ∷ []) (inr (inl refl)))) wide))
          (λ refused.
            release-OnlyHeld held a.reserved_ids
              (reserve id (pos min_attempt_fee_lamports) fee_reserve_ttl_ms now a.signer.store).1
              (Rows-refused (Origin held a.reserved_ids) id _ _ now a.signer.store h refused))

    sign_decoded-Rolls :
        (a : Attempt) → Tracked held a → Rolls (sign_decoded p now backend decoded a)
    unfolding sign_decoded release_all on_store
    sign_decoded-Rolls a h =
        Post-if (Early held) (Tracked held) (On held)
          (not (can_sign p.keys backend decoded.fee_payer)) _ _ _
          (λ _. release-OnlyHeld held a.reserved_ids a.signer.store h)
          (λ _.
            Post-if (Early held) (Tracked held) (On held) decoded.is_fee_paying_instruction _ _ _
              (λ _. sign_top_up-Rolls a h) (λ _. sign_reserved-Rolls a h))

  module _ (backend : FeePayerSigner) where
    sign_wire-Rolls :
        (accumulator wire : String) (a : Attempt)
        → Tracked held a
        → Rolls (sign_wire p now backend accumulator wire a)
    unfolding sign_wire on_signer
    sign_wire-Rolls accumulator wire a h =
        Post-continue (Early held) (Tracked held) (On held) (On held)
          (lift (decode_wire_transaction p.kit wire accumulator) a) _
          (Post-lift (Early held) (Tracked held) (On held) _ _ (λ _ _. h) h)
          (λ decoded b k.
            let bound =
              bind_token-Keeps p now (Rows (Origin held b.reserved_ids)) (binds b.reserved_ids)
                decoded.phygital_token b.signer k in
            Post-continue (Early held) (Tracked held) (On held) (On held)
              (on_signer p now (bind_token p now decoded.phygital_token) b) _
              (Post-lift (Early held) (Tracked held) (On held) _ _ (λ _ _. bound) bound)
              (λ _ c l.
                sign_decoded-Rolls backend decoded
                  (record c { fee_payer_seen = some decoded.fee_payer }) l))

    pub sign_wires-Rolls :
        (accumulator : String) (wires : List String) (a : Attempt)
        → Tracked held a
        → Rolls (sign_wires p now backend accumulator wires a)
    unfolding sign_wires
    sign_wires-Rolls accumulator [] a h = h
    sign_wires-Rolls accumulator (wire ∷ wires) a h =
        Post-continue (Early held) (Tracked held) (On held) (On held)
          (sign_wire p now backend accumulator wire a) _ (sign_wire-Rolls accumulator wire a h)
          (λ _ b k. sign_wires-Rolls accumulator wires b k)
