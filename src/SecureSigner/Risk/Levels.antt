-- ===== src/SecureSigner/Risk/Levels.antt =====
-- sign-risk.ts: which transactions have which risk.
use phygital_wallet.Common.{
  ◌≡◌, ◌≢◌, ◌↔◌, ◌⊎◌, refl, Bool, true, false, none, some, List, [], ◌∷◌, any, arith, All, inl, inr,
  Bool-cases,
}
use phygital_wallet.Sdk.{
  PhygitalWalletInstruction, clear_authority, clear_wallet_policy, execute, execute_with_authority,
  execute_with_authority_using_policies, set_authority, set_wallet_policy,
}
use phygital_wallet.SecureSigner.Policy.{ParsedInstructionSummary, TransactionSummary}
use phygital_wallet.SecureSigner.Risk.{
  normal, elevated, critical, is_critical_instruction, is_elevated_instruction, is_owner_spend,
  is_unclear, filter, owner_spend_risk, classify_sign_risk, risk_of_spends, same_kind, has_kind,
  risk_callout,
}

-- No owner key is used, and no policy changed.
abbrev pub IsQuiet : PhygitalWalletInstruction → Type 0
IsQuiet kind = (kind ≡ execute) ⊎ (kind ≡ set_authority)

abbrev Unmarked : PhygitalWalletInstruction → Type 0
Unmarked kind =
    (is_critical_instruction kind ≡ false)
    × (is_elevated_instruction kind ≡ false)
    × (is_owner_spend kind ≡ false)

IsQuiet-iff : (kind : PhygitalWalletInstruction) → IsQuiet kind ↔ Unmarked kind
IsQuiet-iff execute = ground arith
IsQuiet-iff set_authority = ground arith
IsQuiet-iff clear_authority = ground arith
IsQuiet-iff clear_wallet_policy = ground arith
IsQuiet-iff set_wallet_policy = ground arith
IsQuiet-iff execute_with_authority = ground arith
IsQuiet-iff execute_with_authority_using_policies = ground arith

abbrev NoneMarked : List ParsedInstructionSummary → Type 0
NoneMarked ixs =
    (any (λ ix. is_critical_instruction ix.kind) ixs ≡ false)
    × (any (λ ix. is_elevated_instruction ix.kind) ixs ≡ false)
    × (any (λ ix. is_owner_spend ix.kind) ixs ≡ false)

All-IsQuiet_iff :
    (ixs : List ParsedInstructionSummary) → All (λ ix. IsQuiet ix.kind) ixs ↔ NoneMarked ixs
All-IsQuiet_iff [] = (λ _. (refl, refl, refl), λ _. tt)
All-IsQuiet_iff (ix ∷ ixs) = ground (arith, IsQuiet-iff ix.kind, All-IsQuiet_iff ixs)

filter-none :
    (p : ParsedInstructionSummary → Bool) (ixs : List ParsedInstructionSummary)
    → any p ixs ≡ false
    → filter p ixs ≡ []
filter-none p [] h = refl
filter-none p (ix ∷ ixs) h = ground (arith, filter-none p ixs)

filter-some :
    (p : ParsedInstructionSummary → Bool) (ixs : List ParsedInstructionSummary)
    → any p ixs ≡ true
    → filter p ixs ≢ []
filter-some p [] h = ground arith
filter-some p (ix ∷ ixs) h = ground (arith, filter-some p ixs)

no_spend :
    (ixs : List ParsedInstructionSummary)
    → any (λ ix. is_owner_spend ix.kind) ixs ≡ false
    → owner_spend_risk ixs ≡ none
unfolding owner_spend_risk
no_spend ixs h = rw (filter-none (λ ix. is_owner_spend ix.kind) ixs h) refl

risk_of_some :
    (spends : List ParsedInstructionSummary)
    → spends ≢ []
    → (risk_of_spends spends ≡ some critical) ⊎ (risk_of_spends spends ≡ some elevated)
risk_of_some [] h = elim (h refl) [ ]
risk_of_some (ix ∷ spends) h = elim (Bool-cases (any is_unclear (ix ∷ spends))) [
  | inl e ↦ inl (rw e refl)
  | inr e ↦ inr (rw e refl)
]

spend_risk :
    (ixs : List ParsedInstructionSummary)
    → any (λ ix. is_owner_spend ix.kind) ixs ≡ true
    → (owner_spend_risk ixs ≡ some critical) ⊎ (owner_spend_risk ixs ≡ some elevated)
unfolding owner_spend_risk
spend_risk ixs h =
    risk_of_some (filter (λ ix. is_owner_spend ix.kind) ixs)
      (filter-some (λ ix. is_owner_spend ix.kind) ixs h)

classify_iff :
    (summary : TransactionSummary)
    → (classify_sign_risk summary ≡ normal) ↔ NoneMarked summary.instructions
unfolding classify_sign_risk
classify_iff summary = elim (Bool-cases (any (λ ix. is_owner_spend ix.kind) summary.instructions)) [
  | inl spends ↦ elim (spend_risk summary.instructions spends) [
    | inl e ↦ ground arith
    | inr e ↦ ground arith
  ]
  | inr none_spends ↦ ground (arith, no_spend summary.instructions none_spends)
]

-- A transaction is shown as normal exactly if every instruction is an accessory spend or sets the
-- owner: nothing else, whatever its details say, passes without a warning.
pub normal_iff :
    (summary : TransactionSummary)
    → (classify_sign_risk summary ≡ normal) ↔ All (λ ix. IsQuiet ix.kind) summary.instructions
normal_iff summary =
    let (to, from) = classify_iff summary in
    let (marks, quiet) = All-IsQuiet_iff summary.instructions in
    (λ e. quiet (to e), λ h. from (marks h))

abbrev Uncalled : PhygitalWalletInstruction → Type 0
Uncalled kind =
    (same_kind kind clear_authority ≡ false)
    × (same_kind kind clear_wallet_policy ≡ false)
    × (same_kind kind set_wallet_policy ≡ false)
    × (same_kind kind execute_with_authority ≡ false)
    × (same_kind kind execute_with_authority_using_policies ≡ false)

Uncalled-iff : (kind : PhygitalWalletInstruction) → Uncalled kind ↔ Unmarked kind
Uncalled-iff execute = ground arith
Uncalled-iff set_authority = ground arith
Uncalled-iff clear_authority = ground arith
Uncalled-iff clear_wallet_policy = ground arith
Uncalled-iff set_wallet_policy = ground arith
Uncalled-iff execute_with_authority = ground arith
Uncalled-iff execute_with_authority_using_policies = ground arith

abbrev NoneCalled : List ParsedInstructionSummary → Type 0
NoneCalled ixs =
    (has_kind clear_authority ixs ≡ false)
    × (has_kind clear_wallet_policy ixs ≡ false)
    × (has_kind set_wallet_policy ixs ≡ false)
    × (has_kind execute_with_authority ixs ≡ false)
    × (has_kind execute_with_authority_using_policies ixs ≡ false)

NoneCalled-iff : (ixs : List ParsedInstructionSummary) → NoneCalled ixs ↔ NoneMarked ixs
NoneCalled-iff [] = (λ _. (refl, refl, refl), λ _. (refl, refl, refl, refl, refl))
NoneCalled-iff (ix ∷ ixs) = ground (arith, Uncalled-iff ix.kind, NoneCalled-iff ixs)

no_callout_iff : (ixs : List ParsedInstructionSummary) → (risk_callout ixs ≡ none) ↔ NoneCalled ixs
unfolding risk_callout
no_callout_iff ixs = ground arith

-- The confirmation has a callout exactly if the transaction is not shown as normal.
pub callout_iff :
    (summary : TransactionSummary)
    → (risk_callout summary.instructions ≡ none) ↔ (classify_sign_risk summary ≡ normal)
callout_iff summary =
    let (to, from) = classify_iff summary in
    let (marks, calls) = NoneCalled-iff summary.instructions in
    let (uncalled, silent) = no_callout_iff summary.instructions in
    (λ e. from (marks (uncalled e)), λ e. silent (calls (to e)))
