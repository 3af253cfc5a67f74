-- ===== src/SecureSigner/Policy/Tests.antt =====
-- A transaction of the owner, and the theorem about it.
use phygital_wallet.Common.{String, ◌≤◌, ◌≡◌, ◌↔◌, refl, true, none, some, [], ◌∷◌, All, In, length}
use phygital_wallet.Sdk.{
  identify, token_account, Instruction, clear_authority, phygital_wallet_program_address,
}
use phygital_wallet.SecureSigner.{policy_rejected, wallet_mismatch}
use phygital_wallet.SecureSigner.Policy.{
  Texts, TransactionSummary, accepted, refused, preview_policy, parse_instruction, evaluate_policy,
}
use phygital_wallet.SecureSigner.Policy.Accepts.{Shows, Belongs, evaluate_iff}

abbrev texts : Texts
texts = record {
  decode_execute = λ _ _. none;
  decodes = λ _ _. true;
  describe_inner = λ _ _ _. none;
  describe_wallet_policy = λ _. none;
}

abbrev removal : Instruction
removal = record {
  program_address = phygital_wallet_program_address;
  accounts = some ("owner" ∷ "token" ∷ "rent" ∷ "authority" ∷ "sysvar" ∷ []);
  data_bytes = some (129 ∷ 249 ∷ 41 ∷ 111 ∷ 187 ∷ 52 ∷ 199 ∷ 214 ∷ []);
}

abbrev shown : TransactionSummary
shown = record {
  wallet_address = "owner";
  instructions =
      record {
        kind = clear_authority;
        authority = some "owner";
        phygital_token = some "token";
        inner = none;
        details =
            record { label = "Effect"; value = "Removes the owner key from this accessory" } ∷ [];
      }
      ∷ [];
}

passes : evaluate_policy texts (removal ∷ []) ("payer" ∷ "owner" ∷ []) "owner" ≡ accepted shown
unfolding evaluate_policy preview_policy parse_instruction identify token_account
passes = refl

other_owner :
    evaluate_policy texts (removal ∷ []) ("payer" ∷ "other" ∷ []) "other" ≡ refused policy_rejected
unfolding evaluate_policy preview_policy parse_instruction identify token_account
other_owner = refl

not_a_signer : evaluate_policy texts (removal ∷ []) ("payer" ∷ []) "owner" ≡ refused wallet_mismatch
unfolding evaluate_policy preview_policy parse_instruction identify token_account
not_a_signer = refl

abbrev owner : String
owner = "owner"

evaluate_iff_example :
    (evaluate_policy texts (removal ∷ []) ("payer" ∷ "owner" ∷ []) "owner" ≡ accepted shown) ↔ (
      (1 ≤ length (removal ∷ []))
      × All (λ ix. ix.program_address ≡ phygital_wallet_program_address) (removal ∷ [])
      × Shows texts (removal ∷ []) shown.instructions
      × In owner ("payer" ∷ "owner" ∷ [])
      × All (Belongs texts "owner") shown.instructions
      × (shown.wallet_address ≡ "owner"))
evaluate_iff_example = evaluate_iff texts (removal ∷ []) ("payer" ∷ "owner" ∷ []) "owner" shown
