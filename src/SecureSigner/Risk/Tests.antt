-- ===== src/SecureSigner/Risk/Tests.antt =====
-- A spend that names a program, and the theorems about it.
use phygital_wallet.Common.{String, ◌≡◌, ◌↔◌, ◌⊎◌, refl, true, none, some, [], ◌∷◌, All}
use phygital_wallet.Sdk.{execute_with_authority}
use phygital_wallet.SecureSigner.Policy.{InnerInstructionSummary, TransactionSummary}
use phygital_wallet.SecureSigner.Risk.{
  normal, elevated, critical, classify_sign_risk, risk_callout, is_opaque_row,
}
use phygital_wallet.SecureSigner.Risk.Levels.{IsQuiet, normal_iff, callout_iff}
use phygital_wallet.SecureSigner.Risk.Critical.{Some, IsCritical, IsSpend, IsUnclear, critical_iff}

abbrev row : String → String → InnerInstructionSummary
row title value = record {
  program_address = "program";
  accounts = [];
  data_length = 0;
  title = title;
  details = record { label = "Data"; value = value } ∷ [];
}

abbrev spend : InnerInstructionSummary → TransactionSummary
spend inner = record {
  wallet_address = "owner";
  instructions =
      record {
        kind = execute_with_authority;
        authority = some "owner";
        phygital_token = some "token";
        inner = some (inner ∷ []);
        details = [];
      }
      ∷ [];
}

named_program : is_opaque_row (row "Program abc" "8 bytes") ≡ true
unfolding is_opaque_row
named_program = refl

unknown_value : is_opaque_row (row "Send" "an UnKnown account") ≡ true
unfolding is_opaque_row
unknown_value = refl

clear_spend : classify_sign_risk (spend (row "Send 1 SOL" "to a friend")) ≡ elevated
unfolding classify_sign_risk is_opaque_row
clear_spend = refl

normal_iff_example :
    (classify_sign_risk (spend (row "Send 1 SOL" "to a friend")) ≡ normal)
    ↔ All (λ ix. IsQuiet ix.kind) (spend (row "Send 1 SOL" "to a friend")).instructions
normal_iff_example = normal_iff (spend (row "Send 1 SOL" "to a friend"))

callout_iff_example :
    (risk_callout (spend (row "Send 1 SOL" "to a friend")).instructions ≡ none)
    ↔ (classify_sign_risk (spend (row "Send 1 SOL" "to a friend")) ≡ normal)
callout_iff_example = callout_iff (spend (row "Send 1 SOL" "to a friend"))

critical_iff_example : (classify_sign_risk (spend (row "Program abc" "8 bytes")) ≡ critical) ↔ (
    Some (λ ix. IsCritical ix.kind) (spend (row "Program abc" "8 bytes")).instructions
    ⊎ Some
        (λ ix. IsSpend ix.kind × IsUnclear ix.inner)
        (spend (row "Program abc" "8 bytes")).instructions)
critical_iff_example = critical_iff (spend (row "Program abc" "8 bytes"))
