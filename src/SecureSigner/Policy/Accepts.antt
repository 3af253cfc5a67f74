-- ===== src/SecureSigner/Policy/Accepts.antt =====
-- policy.ts: exactly which transactions pass.
use mathlib.Core.Path.{subst}
use phygital_wallet.Common.{
  ◌≤◌, String, ◌≡◌, ◌≢◌, ◌↔◌, refl, ap, sym, ◌∙◌, All-map, any-All, Bool, true, false, not, none,
  some, List, [], ◌∷◌, length, any, arith, ◌==◌, eq_iff, All, In, Option-cases, Bool-cases, inl,
  inr,
}
use phygital_wallet.Errors.{Result-cases, ok}
use phygital_wallet.Sdk.{Instruction, phygital_wallet_program_address}
use phygital_wallet.SecureSigner.{ErrorCode, policy_rejected, wallet_mismatch}
use phygital_wallet.SecureSigner.Policy.{
  Texts, ParsedInstructionSummary, TransactionSummary, accepted, refused, parse_instruction,
  is_set_authority, summaries_of, is_foreign, preview_policy, is_stranger, owned, evaluate_policy,
  first_authority,
}

any-In : (x : String) (xs : List String) → (any (λ y. y == x) xs ≡ true) ↔ In x xs
any-In x [] = (λ e. cc, λ h. elim h [ ])
any-In x (y ∷ ys) = ground (arith, any-In x ys, eq_iff y x)

apart : (code : ErrorCode) (summary : TransactionSummary) → refused code ≢ accepted summary
apart code summary e = cc

some-injective : (x y : String) {z : String} → some x ≡ some y → x ≡ z → y ≡ z
some-injective x y e f = cc

not-false : {b : Bool} → not b ≡ false → b ≡ true
not-false {b = true} e = refl
not-false {b = false} e = cc

absent : (a : String) → none ≢ some a
absent a e = cc

module _ (texts : Texts) where
  -- Each summary is what the parser makes of its instruction, which is not `setAuthority`.
  abbrev pub Shows : List Instruction → List ParsedInstructionSummary → Type 0
  Shows [] [] = Unit
  Shows [] (s ∷ ss) = ⊥
  Shows (ix ∷ ixs) [] = ⊥
  Shows (ix ∷ ixs) (s ∷ ss) =
      (parse_instruction texts ix ≡ ok s) × (is_set_authority texts s.kind ≡ false) × Shows ixs ss

  summaries_of-Shows :
      (ixs : List Instruction) (ss : List ParsedInstructionSummary)
      → (summaries_of texts ixs ≡ some ss) ↔ Shows ixs ss
  unfolding summaries_of
  summaries_of-Shows [] [] = (λ _. tt, λ _. refl)
  summaries_of-Shows [] (s ∷ ss) = (λ e. cc, λ h. elim h [ ])
  summaries_of-Shows (ix ∷ ixs) [] = elim (Result-cases (parse_instruction texts ix)) [
    | inl (s, e) ↦ ground arith
    | inr (x, e) ↦ ground arith
  ]
  summaries_of-Shows (ix ∷ ixs) (s ∷ ss) = elim (Result-cases (parse_instruction texts ix)) [
    | inl (t, e) ↦ elim (Option-cases (summaries_of texts ixs)) [
      | inl missing ↦ ground (arith, summaries_of-Shows ixs ss)
      | inr (rest, found) ↦ ground (arith, summaries_of-Shows ixs ss)
    ]
    | inr (x, e) ↦ ground arith
  ]

  foreign_iff :
      (ix : Instruction)
      → (is_foreign texts ix ≡ false) ↔ (ix.program_address ≡ phygital_wallet_program_address)
  foreign_iff ix = ground (arith, eq_iff ix.program_address phygital_wallet_program_address)

  preview_empty : preview_policy texts [] ≡ refused policy_rejected
  unfolding preview_policy
  preview_empty = refl

  -- The tests, as the code makes them.
  abbrev Checks : List Instruction → List String → String → TransactionSummary → Type 0
  Checks ixs signers owner summary =
      (1 ≤ length ixs)
      × (any (is_foreign texts) ixs ≡ false)
      × (summaries_of texts ixs ≡ some summary.instructions)
      × (any (λ x. x == owner) signers ≡ true)
      × (any (is_stranger texts owner) summary.instructions ≡ false)
      × (summary.wallet_address ≡ owner)

  refused_not_accepted :
      {A : Type 0} (code : ErrorCode) (summary : TransactionSummary)
      → refused code ≡ accepted summary
      → A
  refused_not_accepted code summary e = elim (apart code summary e) [ ]

  owned-Tests :
      (ixs : List Instruction) (signers : List String) (owner : String)
      (ss : List ParsedInstructionSummary) (address : String) (summary : TransactionSummary)
      → 1 ≤ length ixs
      → any (is_foreign texts) ixs ≡ false
      → summaries_of texts ixs ≡ some ss
      → owned texts owner signers (record { wallet_address = address; instructions = ss })
        ≡ accepted summary
      → Checks ixs signers owner summary
  unfolding owned
  owned-Tests ixs signers owner ss address summary nonempty clean found h =
      elim (Bool-cases (any (λ x. x == owner) signers)) [
        | inr stranger ↦ refused_not_accepted wallet_mismatch summary (rw stranger at h)
        | inl signer ↦ elim (Bool-cases (any (is_stranger texts owner) ss)) [
          | inl bad ↦ refused_not_accepted policy_rejected summary (rw (signer, bad) at h)
          | inr good ↦
              let f = rw (signer, good) at h in
              let same : record { wallet_address = owner; instructions = ss } ≡ summary = cc in
              subst (λ q. Checks ixs signers owner q) same
                (nonempty, clean, found, signer, good, refl)
        ]
      ]

  preview_foreign :
      (ix : Instruction) (ixs : List Instruction)
      → any (is_foreign texts) (ix ∷ ixs) ≡ true
      → preview_policy texts (ix ∷ ixs) ≡ refused policy_rejected
  unfolding preview_policy
  preview_foreign ix ixs foreign = rw foreign refl

  preview_unparsed :
      (ix : Instruction) (ixs : List Instruction)
      → any (is_foreign texts) (ix ∷ ixs) ≡ false
      → summaries_of texts (ix ∷ ixs) ≡ none
      → preview_policy texts (ix ∷ ixs) ≡ refused policy_rejected
  unfolding preview_policy
  preview_unparsed ix ixs clean missing = rw (clean, missing) refl

  preview_parsed :
      (ix : Instruction) (ixs : List Instruction) (ss : List ParsedInstructionSummary)
      → any (is_foreign texts) (ix ∷ ixs) ≡ false
      → summaries_of texts (ix ∷ ixs) ≡ some ss
      → preview_policy texts (ix ∷ ixs)
        ≡ accepted (record { wallet_address = first_authority texts ss; instructions = ss })
  unfolding preview_policy
  preview_parsed ix ixs ss clean found = rw (clean, found) refl

  evaluate-Tests :
      (ixs : List Instruction) (signers : List String) (owner : String)
      (summary : TransactionSummary)
      → evaluate_policy texts ixs signers owner ≡ accepted summary
      → Checks ixs signers owner summary
  unfolding evaluate_policy
  evaluate-Tests [] signers owner summary h =
      refused_not_accepted policy_rejected summary (rw (preview_empty, evaluate_policy) at h)
  evaluate-Tests (ix ∷ ixs) signers owner summary h =
      elim (Bool-cases (any (is_foreign texts) (ix ∷ ixs))) [
        | inl foreign ↦
            refused_not_accepted policy_rejected summary
              (rw (preview_foreign ix ixs foreign, evaluate_policy) at h)
        | inr clean ↦ elim (Option-cases (summaries_of texts (ix ∷ ixs))) [
          | inl missing ↦
              refused_not_accepted policy_rejected summary
                (rw (preview_unparsed ix ixs clean missing, evaluate_policy) at h)
          | inr (ss, found) ↦
              owned-Tests (ix ∷ ixs) signers owner ss (first_authority texts ss) summary
                (omega arith) clean found
                (rw (preview_parsed ix ixs ss clean found, evaluate_policy) at h)
        ]
      ]

  Checks-evaluate :
      (ixs : List Instruction) (signers : List String) (owner : String)
      (summary : TransactionSummary)
      → Checks ixs signers owner summary
      → evaluate_policy texts ixs signers owner ≡ accepted summary
  unfolding evaluate_policy owned
  Checks-evaluate [] signers owner summary (nonempty, _, _, _, _, _) = ground arith
  Checks-evaluate (ix ∷ ixs) signers owner summary (_, clean, found, signer, good, address) =
      rw (preview_parsed ix ixs summary.instructions clean found, evaluate_policy, signer, good)
        (ap (λ w. accepted (record { wallet_address = w; instructions = summary.instructions }))
          (sym address))

  -- No other authority's instruction.
  abbrev pub Belongs : String → ParsedInstructionSummary → Type 0
  Belongs owner s = (authority : String) → s.authority ≡ some authority → authority ≡ owner

  stranger_iff :
      (owner : String) (s : ParsedInstructionSummary)
      → (is_stranger texts owner s ≡ false) ↔ Belongs owner s
  stranger_iff owner s = elim (Option-cases s.authority) [
    | inl missing ↦ (λ _ a e. elim (absent a (sym missing ∙ e)) [ ], λ _. rw missing refl)
    | inr (b, found) ↦ (
      (λ n a e.
          let m = rw found at n in
          let own : b ≡ owner = (eq_iff b owner).0 (not-false m) in
          some-injective b a (sym found ∙ e) own),
      (λ k. let own = (eq_iff b owner).1 (k b found) in rw (found, own) refl),
    )
  ]

  -- A transaction passes exactly if it has instructions, all of the wallet's program, that the parser
  -- reads and none of which is `setAuthority`; the owner is one of its signers; each instruction that
  -- names an authority names the owner; and then what is shown is what the parser made of each
  -- instruction, in order, under the owner's address.
  pub evaluate_iff :
      (ixs : List Instruction) (signers : List String) (owner : String)
      (summary : TransactionSummary)
      → (evaluate_policy texts ixs signers owner ≡ accepted summary) ↔ (
          (1 ≤ length ixs)
          × All (λ ix. ix.program_address ≡ phygital_wallet_program_address) ixs
          × Shows ixs summary.instructions
          × In owner signers
          × All (Belongs owner) summary.instructions
          × (summary.wallet_address ≡ owner))
  evaluate_iff ixs signers owner summary = (
    (λ h.
        let (nonempty, clean, found, signer, good, address) =
          evaluate-Tests ixs signers owner summary h in
        (
          nonempty,
          All-map (λ ix. is_foreign texts ix ≡ false)
              (λ ix. ix.program_address ≡ phygital_wallet_program_address) ixs
              (λ ix. (foreign_iff ix).0) ((any-All (is_foreign texts) ixs).0 clean),
          (summaries_of-Shows ixs summary.instructions).0 found,
          (any-In owner signers).0 signer,
          All-map (λ s. is_stranger texts owner s ≡ false) (Belongs owner) summary.instructions
              (λ s. (stranger_iff owner s).0)
              ((any-All (is_stranger texts owner) summary.instructions).0 good),
          address,
        )),
    (λ (nonempty, programs, shows, signer, belong, address).
        Checks-evaluate ixs signers owner summary (
          nonempty,
          (any-All (is_foreign texts) ixs).1 (
              All-map (λ ix. ix.program_address ≡ phygital_wallet_program_address)
                (λ ix. is_foreign texts ix ≡ false) ixs (λ ix. (foreign_iff ix).1) programs),
          (summaries_of-Shows ixs summary.instructions).1 shows,
          (any-In owner signers).1 signer,
          (any-All (is_stranger texts owner) summary.instructions).1 (
              All-map (Belongs owner) (λ s. is_stranger texts owner s ≡ false) summary.instructions
                (λ s. (stranger_iff owner s).1) belong),
          address,
        )),
  )
