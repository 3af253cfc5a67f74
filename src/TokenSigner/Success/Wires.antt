-- ===== src/TokenSigner/Success/Wires.antt =====
-- token-signer.ts: the signature that each transaction of a batch is given.
use mathlib.Core.List.{append-nil, append_assoc}
use phygital_wallet.Common.{
  ℕ, ◌+◌, String, ◌≡◌, refl, sym, ap, ◌∙◌, true, not, some, List, [], ◌∷◌, ◌++◌, arith,
  if◌then◌else◌, pos, All, length, Bytes,
}
use phygital_wallet.Errors.{Result, ok, err}
use phygital_wallet.SignDecode.{DecodedSignTx, decode_wire_transaction}
use phygital_wallet.Backend.{FeePayerSigner, can_sign, sign}
use phygital_wallet.TokenSigner.{
  Platform, SignResult, signed, failed, Attempt, lift, bind_token, push_id, replace_last,
  push_signature, on_store, on_signer, sign_admitted, sign_top_up, sign_reserved, sign_decoded,
  sign_wire, sign_wires, message_reserve_id, release_all,
}
use phygital_wallet.Backend.Keys.{IsKey, sign_sound}
use phygital_wallet.TokenSigner.Monad.Posts.{Post, Post-map, Post-continue, Post-lift, Post-if}
use phygital_wallet.TokenStore.{reserve, min_attempt_fee_lamports, fee_reserve_ttl_ms}

length-push : {A : Type 0} (xs : List A) (x : A) → length (xs ++ x ∷ []) ≡ length xs + 1
length-push [] x = refl
length-push (y ∷ xs) x = ground (arith, length-push xs x)

length-replace_last : (id : String) (ids : List String) → length (replace_last id ids) ≡ length ids
unfolding replace_last
length-replace_last id [] = refl
length-replace_last id (x ∷ []) = refl
length-replace_last id (x ∷ (y ∷ ys)) = ground (arith, length-replace_last id (y ∷ ys))

-- Whether the transaction holds a reserve when it is signed.
abbrev pub counts : Result DecodedSignTx → ℕ
counts (ok decoded) = if decoded.is_fee_paying_instruction then 0 else 1
counts (err e) = 0

-- One item for each, in order.
abbrev pub Each : (String → String → Type 0) → List String → List String → Type 0
Each R [] [] = Unit
Each R (x ∷ xs) (y ∷ ys) = R x y × Each R xs ys
Each R [] (y ∷ ys) = ⊥
Each R (x ∷ xs) [] = ⊥

pub length-Each :
    (R : String → String → Type 0) (xs ys : List String) → Each R xs ys → length ys ≡ length xs
length-Each R [] [] h = refl
length-Each R [] (y ∷ ys) h = elim h [ ]
length-Each R (x ∷ xs) [] h = elim h [ ]
length-Each R (x ∷ xs) (y ∷ ys) (h, k) = ground (arith, length-Each R xs ys k)

abbrev pub Refused : SignResult → Attempt → Type 0
Refused (failed _ _) _ = Unit
Refused (signed _ _) _ = ⊥

abbrev pub Ever : Attempt → Type 0
Ever _ = Unit

-- The signatures are the same, and the reserves are as many more.
abbrev pub Held : Attempt → ℕ → Attempt → Type 0
Held a k b = (b.signatures ≡ a.signatures) × (length b.reserved_ids ≡ length a.reserved_ids + k)

-- These signatures are added, and as many reserves.
abbrev pub Grown : Attempt → List String → ℕ → Attempt → Type 0
Grown a signatures k b =
    (b.signatures ≡ a.signatures ++ signatures)
    × (length b.reserved_ids ≡ length a.reserved_ids + k)

module _ (p : Platform) (now : ℕ) (backend : FeePayerSigner) where
  module _ (decoded : DecodedSignTx) where
    abbrev Given : String → Type 0
    Given signature = sign p.keys backend decoded.fee_payer decoded.message_bytes ≡ ok signature

    abbrev Signed : Attempt → ℕ → Attempt → Type 0
    Signed a k b = (signature : String) × Given signature × Grown a (signature ∷ []) k b

    sign_top_up-Grown :
        (a : Attempt)
        → Post Refused Ever (λ _ b. Signed a 0 b) (sign_top_up p now backend decoded a)
    unfolding sign_top_up push_signature
    sign_top_up-Grown a =
        Post-continue Refused Ever (λ signature b. Given signature × Held a 0 b)
          (λ _ b. Signed a 0 b)
          (lift (sign p.keys backend decoded.fee_payer decoded.message_bytes) a) _
          (Post-lift Refused Ever (λ signature b. Given signature × Held a 0 b) _ a
            (λ _ e. (e, (refl, omega arith))) tt)
          (λ signature b (e, (s, r)). (signature, e, (ap (λ x. x ++ signature ∷ []) s, r)))

    sign_admitted-Grown :
        (id : String) (a : Attempt)
        → Post Refused Ever (λ _ b. Signed a 1 b) (sign_admitted p now backend decoded id a)
    unfolding sign_admitted push_id push_signature on_store
    sign_admitted-Grown id a =
        Post-continue Refused Ever (λ signature b. Given signature × Held a 1 b)
          (λ _ b. Signed a 1 b)
          (lift (sign p.keys backend decoded.fee_payer decoded.message_bytes) (push_id id a)) _
          (Post-lift Refused Ever (λ signature b. Given signature × Held a 1 b) _ (push_id id a)
            (λ _ e. (e, (refl, length-push a.reserved_ids id))) tt)
          (λ signature b (e, (s, r)). (
            signature,
            e,
            (
              ap (λ x. x ++ signature ∷ []) s,
              ground (arith, length-replace_last signature b.reserved_ids),
            ),
          ))

    sign_reserved-Grown :
        (a : Attempt)
        → Post Refused Ever (λ _ b. Signed a 1 b) (sign_reserved p now backend decoded a)
    unfolding sign_reserved release_all on_store
    sign_reserved-Grown a =
        let id = message_reserve_id p now decoded.message_bytes in
        Post-if Refused Ever _
          (reserve id (pos min_attempt_fee_lamports) fee_reserve_ttl_ms now a.signer.store).0 _ _ _
          (λ _.
            sign_admitted-Grown id
              (on_store p now (reserve id (pos min_attempt_fee_lamports) fee_reserve_ttl_ms now)
                a).1)
          (λ _. tt)

    sign_decoded-Grown :
        (a : Attempt)
        → Post Refused Ever
            (λ _ b.
              (can_sign p.keys backend decoded.fee_payer ≡ true) × Signed a (counts (ok decoded)) b)
            (sign_decoded p now backend decoded a)
    unfolding sign_decoded release_all on_store
    sign_decoded-Grown a =
        Post-if Refused Ever _ (not (can_sign p.keys backend decoded.fee_payer)) _ _ _ (λ _. tt)
          (λ known.
            Post-if Refused Ever _ decoded.is_fee_paying_instruction _ _ _
              (λ top_up.
                Post-map Refused Ever (λ _ b. Signed a 0 b) _ (sign_top_up p now backend decoded a)
                  (λ _ b (signature, e, (s, r)). (ground arith, (signature, e, (s, ground arith))))
                  (sign_top_up-Grown a))
              (λ gated.
                Post-map Refused Ever (λ _ b. Signed a 1 b) _
                  (sign_reserved p now backend decoded a)
                  (λ _ b (signature, e, (s, r)). (ground arith, (signature, e, (s, ground arith))))
                  (sign_reserved-Grown a)))

  -- The transaction decodes, its fee payer is a key of the service, and the signature is the text of
  -- the Ed25519 signature of its message by a seed from which that fee payer's address derives.
  abbrev pub SignedAs : String → String → String → Type 0
  SignedAs accumulator wire signature =
      (decoded : DecodedSignTx) × (decode_wire_transaction p.kit wire accumulator ≡ ok decoded)
      × (can_sign p.keys backend decoded.fee_payer ≡ true)
      × ((seed : Bytes) × (p.keys.base58_text (p.keys.public_key seed) ≡ decoded.fee_payer)
          × (signature ≡ p.keys.base64_text (p.keys.ed25519_sign decoded.message_bytes seed)))

  Given-SignedAs :
      (accumulator wire signature : String) (decoded : DecodedSignTx)
      → All (IsKey p.keys) backend.by_pubkey
      → decode_wire_transaction p.kit wire accumulator ≡ ok decoded
      → can_sign p.keys backend decoded.fee_payer ≡ true
      → Given decoded signature
      → SignedAs accumulator wire signature
  Given-SignedAs accumulator wire signature decoded keys e known given =
      let (seed, derived, signs) =
        (sign_sound p.keys backend decoded.fee_payer decoded.message_bytes keys).0 known in
      (decoded, e, known, (seed, derived, cc))

  abbrev pub gated : String → List String → ℕ
  gated accumulator [] = 0
  gated accumulator (wire ∷ wires) =
      counts (decode_wire_transaction p.kit wire accumulator) + gated accumulator wires

  module _ (keys : All (IsKey p.keys) backend.by_pubkey) where
    sign_wire-Grown :
        (accumulator wire : String) (a : Attempt)
        → Post Refused Ever
            (λ _ b.
              (signature : String) × SignedAs accumulator wire signature
              × Grown a
                  (signature ∷ [])
                  (counts (decode_wire_transaction p.kit wire accumulator))
                  b)
            (sign_wire p now backend accumulator wire a)
    unfolding sign_wire on_signer
    sign_wire-Grown accumulator wire a =
        Post-continue Refused Ever
          (λ decoded b. (decode_wire_transaction p.kit wire accumulator ≡ ok decoded) × Held a 0 b)
          _ (lift (decode_wire_transaction p.kit wire accumulator) a) _
          (Post-lift Refused Ever
            (λ decoded b.
              (decode_wire_transaction p.kit wire accumulator ≡ ok decoded) × Held a 0 b)
            _ a (λ decoded e. (e, (refl, omega arith))) tt)
          (λ decoded b (e, g).
            Post-continue Refused Ever (λ _ c. Held a 0 c) _
              (on_signer p now (bind_token p now decoded.phygital_token) b) _
              (Post-lift Refused Ever (λ _ c. Held a 0 c) _ _ (λ _ _. g) tt)
              (λ _ c (same, held).
                let seen = record c { fee_payer_seen = some decoded.fee_payer } in
                Post-map Refused Ever
                  (λ _ d.
                    (can_sign p.keys backend decoded.fee_payer ≡ true)
                    × Signed decoded seen (counts (ok decoded)) d)
                  _ (sign_decoded p now backend decoded seen)
                  (λ _ d (known, (signature, given, (more, row))). (
                    signature,
                    Given-SignedAs accumulator wire signature decoded keys e known given,
                    (more ∙ ap (λ x. x ++ signature ∷ []) same, rw e (omega arith)),
                  ))
                  (sign_decoded-Grown decoded seen)))

    pub sign_wires-Grown :
        (accumulator : String) (wires : List String) (a : Attempt)
        → Post Refused Ever
            (λ _ b.
              (signatures : List String) × Each (SignedAs accumulator) wires signatures
              × Grown a signatures (gated accumulator wires) b)
            (sign_wires p now backend accumulator wires a)
    unfolding sign_wires
    sign_wires-Grown accumulator [] a = ([], tt, (sym (append-nil _), omega arith))
    sign_wires-Grown accumulator (wire ∷ wires) a =
        Post-continue Refused Ever _ _ (sign_wire p now backend accumulator wire a) _
          (sign_wire-Grown accumulator wire a)
          (λ _ b (signature, first, (one, two)).
            Post-map Refused Ever _ _ (sign_wires p now backend accumulator wires b)
              (λ _ c (signatures, rest, (more, held)). (
                signature ∷ signatures,
                (first, rest),
                (rw (more, one, append_assoc), omega arith),
              ))
              (sign_wires-Grown accumulator wires b))
