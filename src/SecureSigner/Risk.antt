-- ===== src/SecureSigner/Risk.antt =====
-- secure-signer/src/tx/sign-risk.ts: how dangerous a transaction is shown to be.
pub mod Levels
pub mod Critical
mod Tests
use Prim.Native.Char.{Char, code}
use text.Mathlib.Text.{starts_with}
use phygital_wallet.Common.{
  ℕ, ◌+◌, String, Bool, true, false, not, ◌&&◌, ◌||◌, Option, none, some, List, [], ◌∷◌, any, leb,
  eqb, if◌then◌else◌,
}
use phygital_wallet.Sdk.{
  PhygitalWalletInstruction, clear_authority, clear_wallet_policy, execute, execute_with_authority,
  execute_with_authority_using_policies, set_authority, set_wallet_policy,
}
use phygital_wallet.SecureSigner.Policy.{
  DetailRow, InnerInstructionSummary, ParsedInstructionSummary, TransactionSummary,
}
use Prim.Native.String

pub data SignRisk : Type 0 where
  normal elevated critical : SignRisk

unfoldable pub instruction_label : PhygitalWalletInstruction → String
instruction_label execute_with_authority = "Owner spend"
instruction_label execute_with_authority_using_policies = "Owner spend"
instruction_label clear_authority = "Remove owner"
instruction_label set_wallet_policy = "Update policy"
instruction_label clear_wallet_policy = "Turn off protections"
instruction_label execute = "Accessory spend"
instruction_label set_authority = "Set owner"

unfoldable pub instruction_subtitle : PhygitalWalletInstruction → Option String
instruction_subtitle execute_with_authority =
    some "Approved on this phone — bypasses accessory limits"
instruction_subtitle execute_with_authority_using_policies = some "Uses your wallet limits"
instruction_subtitle clear_authority = some "This can’t be undone from here"
instruction_subtitle set_wallet_policy = some "Changes spend limits and rules"
instruction_subtitle clear_wallet_policy =
    some "A tap can spend without checks until you restore protections"
instruction_subtitle execute = none
instruction_subtitle set_authority = none

abbrev pub is_critical_instruction : PhygitalWalletInstruction → Bool
is_critical_instruction clear_authority = true
is_critical_instruction clear_wallet_policy = true
is_critical_instruction _ = false

abbrev pub is_elevated_instruction : PhygitalWalletInstruction → Bool
is_elevated_instruction set_wallet_policy = true
is_elevated_instruction _ = false

abbrev pub is_owner_spend : PhygitalWalletInstruction → Bool
is_owner_spend execute_with_authority = true
is_owner_spend execute_with_authority_using_policies = true
is_owner_spend _ = false

-- `String.prototype.includes`
includes : String → String → Bool
includes needle String.[] = starts_with "" needle
includes needle (String.◌∷◌ c s) =
    let rest = includes needle s in starts_with (String.◌∷◌ c s) needle || rest

-- A letter without its case, as the flag `i` of a pattern reads it.
abbrev fold : ℕ → ℕ
fold c = if leb 65 c && leb c 90 then c + 32 else c

begins_folded : String → String → Bool
begins_folded String.[] s = true
begins_folded (String.◌∷◌ p ps) String.[] = false
begins_folded (String.◌∷◌ p ps) (String.◌∷◌ c s) =
    let rest = begins_folded ps s in eqb (fold (code c)) (code p) && rest

includes_folded : String → String → Bool
includes_folded needle String.[] = begins_folded needle ""
includes_folded needle (String.◌∷◌ c s) =
    let rest = includes_folded needle s in begins_folded needle (String.◌∷◌ c s) || rest

-- `/unknown|opaque/i`
is_unknown : String → Bool
unfolding includes_folded begins_folded
is_unknown text = includes_folded "unknown" text || includes_folded "opaque" text

pub is_opaque_row : InnerInstructionSummary → Bool
unfolding includes is_unknown
is_opaque_row row =
    starts_with row.title "Program "
    || includes "opaque" row.title
    || any (λ d. is_unknown d.value) row.details

-- A spend whose instructions are missing, or not all known.
abbrev pub is_unclear : ParsedInstructionSummary → Bool
is_unclear ix = elim ix.inner [
  | none ↦ true
  | some inner ↦ elim inner [ [] ↦ true | row ∷ rows ↦ any is_opaque_row (row ∷ rows) ]
]

abbrev pub filter {ℓ} : {A : Type ℓ} → (A → Bool) → List A → List A
filter p [] = []
filter p (x ∷ xs) = let rest = filter p xs in if p x then x ∷ rest else rest

-- The loop over the spends.
abbrev pub risk_of_spends : List ParsedInstructionSummary → Option SignRisk
risk_of_spends [] = none
risk_of_spends (ix ∷ spends) = if any is_unclear (ix ∷ spends) then some critical else some elevated

unfoldable pub owner_spend_risk : List ParsedInstructionSummary → Option SignRisk
owner_spend_risk ixs = risk_of_spends (filter (λ ix. is_owner_spend ix.kind) ixs)

abbrev pub is_risk : SignRisk → Option SignRisk → Bool
is_risk critical (some critical) = true
is_risk elevated (some elevated) = true
is_risk normal (some normal) = true
is_risk _ _ = false

unfoldable pub classify_sign_risk : TransactionSummary → SignRisk
unfolding owner_spend_risk
classify_sign_risk summary =
    let owner_risk = owner_spend_risk summary.instructions in
    if any (λ ix. is_critical_instruction ix.kind) summary.instructions
    then critical
    else if is_risk critical owner_risk
    then critical
    else if any (λ ix. is_elevated_instruction ix.kind) summary.instructions
    then elevated
    else if is_risk elevated owner_risk
    then elevated
    else normal

abbrev pub same_kind : PhygitalWalletInstruction → PhygitalWalletInstruction → Bool
same_kind clear_authority clear_authority = true
same_kind clear_wallet_policy clear_wallet_policy = true
same_kind execute execute = true
same_kind execute_with_authority execute_with_authority = true
same_kind execute_with_authority_using_policies execute_with_authority_using_policies = true
same_kind set_authority set_authority = true
same_kind set_wallet_policy set_wallet_policy = true
same_kind _ _ = false

-- `kinds.has(kind)`
abbrev pub has_kind : PhygitalWalletInstruction → List ParsedInstructionSummary → Bool
has_kind kind ixs = any (λ ix. same_kind ix.kind kind) ixs

unfoldable pub risk_callout : List ParsedInstructionSummary → Option String
risk_callout ixs =
    if has_kind clear_authority ixs
    then some "Removes the owner key from this accessory."
    else if has_kind clear_wallet_policy ixs
    then some
        "Turns off all accessory spend checks. Anyone with the item can move funds until you restore protections."
    else if has_kind set_wallet_policy ixs
    then some "Updates how this wallet can spend."
    else if has_kind execute_with_authority ixs
        || has_kind execute_with_authority_using_policies ixs
    then some
        "This spend uses your owner key and can bypass accessory limits. Confirm the amount and destination carefully."
    else none
