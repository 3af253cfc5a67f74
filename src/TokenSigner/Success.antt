-- ===== src/TokenSigner/Success.antt =====
-- token-signer.ts: what a batch that answers with signatures has done for every transaction.
mod Wires
use mathlib.Core.Path.{subst}
use phygital_wallet.Common.{
  ℕ, ◌+◌, ◌≤◌, String, ◌≡◌, refl, sym, ap, ◌∙◌, Option, none, some, List, [], ◌∷◌, ◌++◌, arith,
  length, truthy,
}
use phygital_wallet.Errors.{Result, ok, err}
use phygital_wallet.Backend.{FeePayerSigner, new_fee_payer_signer}
use phygital_wallet.TokenSigner.{
  Signer, Platform, SignResult, Audit, signed, failed, Attempt, Flow, go, returned, thrown, lift,
  get_token, get_store, chain, schedule_reserve_alarm, on_store, on_signer, sign_wires, sign_batch,
  rescue, begin, accumulator_of, audit_of, sign_transactions, success,
}
use phygital_wallet.TokenSigner.Success.Wires.{
  Each, length-Each, SignedAs, gated, Held, Grown, Refused, Ever, sign_wires-Grown,
}
use phygital_wallet.Backend.Keys.{new_signer_sound}
use phygital_wallet.TokenSigner.Monad.Posts.{Post, Post-continue, Post-lift}
use phygital_wallet.TokenStore.{expire_reserves}

audit_exact :
    (seen : Option String) (signature_count reserved : ℕ) (audit : Audit)
    → audit_of seen signature_count reserved ≡ some audit
    → (audit.signature_count ≡ signature_count) × (audit.reserved ≡ reserved)
audit_exact none signature_count reserved audit e = (cc, cc)
audit_exact (some payer) signature_count reserved audit e = (cc, cc)

module _ (p : Platform) (now : ℕ) where
  -- What an answer with signatures says of the batch.
  abbrev pub Signs : List String → SignResult → Type 0
  Signs wires (failed _ _) = Unit
  Signs wires (signed signatures audit) =
      (backend : FeePayerSigner) × (new_fee_payer_signer p.keys p.fee_payer_secret_keys
        ≡ ok backend)
      × (1 ≤ length wires)
      × (length signatures ≡ length wires)
      × Each (SignedAs p now backend (accumulator_of p.top_up_accumulator)) wires signatures
      × ((a : Audit)
          → audit ≡ some a
          → (a.signature_count ≡ length wires)
            × (a.reserved ≡ gated p now backend (accumulator_of p.top_up_accumulator) wires))

  success-Signs :
      (wires : List String) (backend : FeePayerSigner) (signatures : List String) (a : Attempt)
      → new_fee_payer_signer p.keys p.fee_payer_secret_keys ≡ ok backend
      → 1 ≤ length wires
      → Each (SignedAs p now backend (accumulator_of p.top_up_accumulator)) wires signatures
      → a.signatures ≡ signatures
      → length a.reserved_ids ≡ gated p now backend (accumulator_of p.top_up_accumulator) wires
      → Signs wires (success a)
  unfolding success
  success-Signs wires backend signatures a made some_wires each same held =
      let SignedFor = SignedAs p now backend (accumulator_of p.top_up_accumulator) in
      let each_signed = subst (Each SignedFor wires) (sym same) each in
      let many = length-Each SignedFor wires a.signatures each_signed in
      (
        backend,
        made,
        some_wires,
        many,
        each_signed,
        λ audit e.
            let (count, reserved) =
              audit_exact (truthy a.fee_payer_seen) (length a.signatures) (length a.reserved_ids)
                audit e in
            (omega arith, omega arith),
      )

  sign_batch-Signs :
      (wires : List String) (a : Attempt)
      → a.signatures ≡ []
      → length a.reserved_ids ≡ 0
      → Post Refused Ever (λ r _. Signs wires r) (sign_batch p now wires a)
  unfolding sign_batch on_signer on_store
  sign_batch-Signs [] a s r = tt
  sign_batch-Signs (wire ∷ wires) a s r =
      Post-continue Refused Ever
        (λ backend b.
          (new_fee_payer_signer p.keys p.fee_payer_secret_keys ≡ ok backend) × Held a 0 b)
        _ (lift (new_fee_payer_signer p.keys p.fee_payer_secret_keys) a) _
        (Post-lift Refused Ever
          (λ backend b.
            (new_fee_payer_signer p.keys p.fee_payer_secret_keys ≡ ok backend) × Held a 0 b)
          _ a (λ backend e. (e, (refl, omega arith))) tt)
        (λ backend b (made, g).
          Post-continue Refused Ever (λ _ c. Held a 0 c) _ (on_signer p now (get_store p now) b) _
            (Post-lift Refused Ever (λ _ c. Held a 0 c) _ _ (λ _ _. g) tt)
            (λ _ c (l, m).
              let swept = (on_store p now (expire_reserves now) c).1 in
              let accumulator = accumulator_of p.top_up_accumulator in
              let (keys, _, _) = new_signer_sound p.keys p.fee_payer_secret_keys backend made in
              Post-continue Refused Ever
                (λ _ d.
                  (signatures : List String) × Each (SignedAs p now backend accumulator)
                    (wire ∷ wires) signatures
                  × Grown swept signatures (gated p now backend accumulator (wire ∷ wires)) d)
                _ (sign_wires p now backend accumulator (wire ∷ wires) swept) _
                (sign_wires-Grown p now backend keys accumulator (wire ∷ wires) swept)
                (λ _ d (signatures, each, (more, held)).
                  Post-continue Refused Ever (λ _ f. Held d 0 f) _
                    (on_signer p now (schedule_reserve_alarm p now) d) _
                    (Post-lift Refused Ever (λ _ f. Held d 0 f) _ _ (λ _ _. (refl, omega arith)) tt)
                    (λ _ f (same, same_ids).
                      success-Signs (wire ∷ wires) backend signatures f made (omega arith) each
                        (same ∙ more ∙ ap (λ x. x ++ signatures) (l ∙ s)) (omega arith)))))

  abbrev Answers : List String → Result SignResult → Type 0
  Answers wires (ok r) = Signs wires r
  Answers wires (err _) = Unit

  chain-Answers :
      {A : Type 0} (wires : List String) (x : Result A × Signer)
      (f : A → Signer → Result SignResult × Signer)
      → ((v : A) (s : Signer) → Answers wires (f v s).0)
      → Answers wires (chain x f).0
  chain-Answers wires (ok v, s) f k = k v s
  chain-Answers wires (err e, s) f k = tt

  rescue-Answers :
      (wires : List String) (x : Flow SignResult × Attempt)
      → Post Refused Ever (λ r _. Signs wires r) x
      → Answers wires (rescue p now x).0
  unfolding rescue
  rescue-Answers wires (go r, a) h = h
  rescue-Answers wires (returned (failed status body), a) h = tt
  rescue-Answers wires (returned (signed signatures audit), a) h = elim h [ ]
  rescue-Answers wires (thrown t, a) h =
      chain-Answers wires (get_store p now a.signer) _ (λ _ s. tt)

  sign-Answers :
      (wires : List String) (s : Signer) → Answers wires (sign_transactions p now wires s).0
  unfolding sign_transactions
  sign-Answers wires s = chain-Answers wires (get_token p now s) _ (λ _ t.
      rescue-Answers wires (sign_batch p now wires (begin p now t))
        (sign_batch-Signs wires (begin p now t) refl refl))

-- A call that answers with signatures was given at least one transaction, and gives a signature for
-- each, in their order: every transaction decodes, with a fee payer that the service has a key of, and
-- its signature is the base64 text of the Ed25519 signature of its own message by a seed from which
-- that fee payer's address derives. The audit, where there is one, counts the signatures and one
-- reserve for each transaction that is no top-up.
pub sign_transactions-Signs :
    (p : Platform) (now : ℕ) (wires : List String) (s : Signer) (signatures : List String)
    (audit : Option Audit)
    → (sign_transactions p now wires s).0 ≡ ok (signed signatures audit)
    → Signs p now wires (signed signatures audit)
sign_transactions-Signs p now wires s signatures audit e =
    subst (λ x. Answers p now wires x) e (sign-Answers p now wires s)
